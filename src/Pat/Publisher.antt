-- ===== src/Pat/Publisher.antt =====
-- plugins/pkg/plugin/jwks/plugin.go: the key set over HTTP, from a cache. Requests are taken one after
-- the other; the issuer and the clock answer from the calls so far. Times are in nanoseconds.
pub mod Serving
use orbitport.Base.{
  ℕ, ◌+◌, ◌*◌, Bool, true, false, not, List, [], ◌∷◌, Option, none, some, ltb, ◌&&◌, if◌then◌else◌,
}
use orbitport.Base.Result.{Result, ok, err}
use orbitport.Text.{Text, is_empty, lit}
use orbitport.Pat.Cache.{Call, get_jwks, read_clock}

-- the plugin's cache, and the calls that were made
pub record Publisher : Type 0 where
  pub cached : Text
  pub fetched_at : ℕ
  pub calls : List Call

-- the issuer's text, where the call succeeds, and the clock
pub record Issuer : Type 0 where
  pub jwks_json : List Call → Option Text
  pub clock : List Call → ℕ

pub data PublishError : Type 0 where
  fetch_failed empty_jwks : PublishError

-- the status, the seconds of `max-age` where that header is set, and the body
pub record Response : Type 0 where
  pub code : ℕ
  pub max_age : Option ℕ
  pub body : Text

abbrev pub browser_cache_max_age : ℕ
browser_cache_max_age = 300

abbrev pub unavailable_body : Text
unavailable_body = lit "{\"error\":\"patissuer_plugin_unavailable\"}"

unfoldable pub new_publisher : Publisher
new_publisher = record { cached = []; fetched_at = 0; calls = [] }

module _ (w : Issuer) (cache_ttl : ℕ) where
  abbrev pub read_time : Publisher → Publisher
  read_time p = record p { calls = read_clock ∷ p.calls }

  abbrev pub time : Publisher → ℕ
  time p = w.clock p.calls

  -- `fresh`, which reads the clock only where something is cached
  unfoldable pub fresh : Publisher → Bool × Publisher
  fresh p =
      if is_empty p.cached
      then (false, p)
      else (ltb (time (read_time p)) (p.fetched_at + cache_ttl), read_time p)

  -- the fetch of `refresh`
  unfoldable pub fetch_set : Publisher → Result PublishError Text × Publisher
  fetch_set p =
      let asked : Publisher = record p { calls = get_jwks ∷ p.calls } in
      elim (w.jwks_json asked.calls) [
        | none ↦ (err fetch_failed, asked)
        | some json ↦ if is_empty json then (err empty_jwks, asked) else (
          ok json,
          record (read_time asked) { cached = json; fetched_at = time (read_time asked) },
        )
      ]

  unfoldable pub refresh_set : Publisher → Result PublishError Text × Publisher
  refresh_set p = let f = fresh p in if f.0 then (ok f.1.cached, f.1) else fetch_set f.1

  -- `jwks`
  unfoldable pub cached_jwks : Publisher → Result PublishError Text × Publisher
  cached_jwks p = let f = fresh p in if f.0 then (ok f.1.cached, f.1) else refresh_set f.1

  -- `handleJWKS`
  unfoldable pub handle_jwks : Publisher → Response × Publisher
  handle_jwks p =
      let r = cached_jwks p in
      elim (r.0) [
        | err e ↦ (record { code = 503; max_age = none; body = unavailable_body }, r.1)
        | ok body ↦ (record { code = 200; max_age = some browser_cache_max_age; body = body }, r.1)
      ]
