-- ===== src/Pat/Cache.antt =====
-- The cache of public keys in plugins/pkg/plugin/auth/pat.go. Requests are taken one after the other;
-- the issuer and the clock answer from the calls so far, newest first. Times are in nanoseconds.
pub mod Fetched
use orbitport.Base.{
  ℕ, ◌+◌, ◌*◌, Bool, true, false, not, List, [], ◌∷◌, ◌++◌, Option, none, some, ltb, ◌||◌,
  if◌then◌else◌,
}
use orbitport.Base.Result.{Result, ok, err}
use orbitport.Text.{Text, text_eq, is_empty, lit}
use orbitport.Text.Dict.{lookup, put}
use orbitport.Base64.Codec.{raw_url_encoding, decode}
use orbitport.Pat.Types.{Jwk, PublicKey, parse_uncompressed}

abbrev pub Keys : Type 0
Keys = List (Text × PublicKey)

pub data Call : Type 0 where
  get_jwks read_clock : Call

-- the answer of GetJwks: an error, or the set, where its JSON is one
pub data JwksReply : Type 0 where
  rpc_failed : JwksReply
  answered : Option (List Jwk) → JwksReply

pub record World : Type 0 where
  pub jwks_reply : List Call → JwksReply
  pub clock : List Call → ℕ

pub data KeyError : Type 0 where
  issuer_unavailable bad_jwks no_key missing_kid : KeyError

-- `jwksCache`, with the calls that were made
pub record JwksCache : Type 0 where
  pub keys : Option Keys
  pub fetched_at : ℕ
  pub calls : List Call

abbrev pub jwks_cache_ttl : ℕ
jwks_cache_ttl = 5 * 60 * 1_000_000_000

abbrev pub jwks_min_refresh : ℕ
jwks_min_refresh = 10 * 1_000_000_000

unfoldable pub new_jwks_cache : JwksCache
new_jwks_cache = record { keys = none; fetched_at = 0; calls = [] }

-- A key that is passed over, a key, or an error.
unfoldable pub parse_jwk : Jwk → Result KeyError (Option PublicKey)
parse_jwk k =
    if not (text_eq k.kty (lit "EC")) || not (text_eq k.crv (lit "P-256")) || is_empty k.kid
    then ok none
    else elim (decode raw_url_encoding k.x) [
      | none ↦ err bad_jwks
      | some x ↦ elim (decode raw_url_encoding k.y) [
        | none ↦ err bad_jwks
        | some y ↦ elim (parse_uncompressed (4 ∷ x ++ y)) [
          | none ↦ err bad_jwks
          | some pub_key ↦ ok (some pub_key)
        ]
      ]
    ]

-- the loop of `parseJWKS`
unfoldable pub collect_keys : List Jwk → Keys → Result KeyError Keys
collect_keys [] keys = ok keys
collect_keys (k ∷ ks) keys = elim (parse_jwk k) [
  | err e ↦ err e
  | ok none ↦ collect_keys ks keys
  | ok (some pub_key) ↦ collect_keys ks (put k.kid pub_key keys)
]

-- `parseJWKS` behind the JSON
unfoldable pub parse_jwks : List Jwk → Result KeyError Keys
parse_jwks set = elim (collect_keys set []) [
  | err e ↦ err e
  | ok keys ↦ if is_empty keys then err bad_jwks else ok keys
]

-- the key set of a reply
unfoldable pub read_reply : JwksReply → Result KeyError Keys
read_reply rpc_failed = err issuer_unavailable
read_reply (answered none) = err bad_jwks
read_reply (answered (some set)) = parse_jwks set

module _ (w : World) where
  -- `time.Now()`
  unfoldable pub tick : JwksCache → JwksCache
  tick c = record c { calls = read_clock ∷ c.calls }

  abbrev pub now : JwksCache → ℕ
  now c = w.clock c.calls

  -- whether the keys were fetched less than `jwksMinRefresh` ago, where there are keys
  unfoldable pub is_recent : JwksCache → Bool × JwksCache
  is_recent c = elim (c.keys) [
    | none ↦ (false, c)
    | some keys ↦ (ltb (now (tick c)) (c.fetched_at + jwks_min_refresh), tick c)
  ]

  -- the fetch of `refresh`
  unfoldable pub fetch : JwksCache → Result KeyError (Unit {0}) × JwksCache
  fetch c =
      let asked : JwksCache = record c { calls = get_jwks ∷ c.calls } in
      elim (read_reply (w.jwks_reply asked.calls)) [
        | err e ↦ (err e, asked)
        | ok keys ↦ (ok tt, record (tick asked) { keys = some keys; fetched_at = now (tick asked) })
      ]

  unfoldable pub refresh : JwksCache → Result KeyError (Unit {0}) × JwksCache
  refresh c = let r = is_recent c in if r.0 then (ok tt, r.1) else fetch r.1

  -- whether there are no keys, or older ones than `jwksCacheTTL`
  unfoldable pub is_stale : JwksCache → Bool × JwksCache
  is_stale c = elim (c.keys) [
    | none ↦ (true, c)
    | some keys ↦ (ltb (c.fetched_at + jwks_cache_ttl) (now (tick c)), tick c)
  ]

  unfoldable pub find_key : Text → JwksCache → Option PublicKey
  find_key kid c = elim (c.keys) [ none ↦ none | some keys ↦ lookup kid keys ]

  -- the part of `key` for a kid that the cache does not know
  unfoldable pub key_missed : Text → JwksCache → Result KeyError PublicKey × JwksCache
  key_missed kid c =
      if ltb (now (tick c)) (c.fetched_at + jwks_min_refresh)
      then (err no_key, tick c)
      else let r = refresh (tick c) in
        elim (r.0) [
          | err e ↦ (err e, r.1)
          | ok done ↦ elim (find_key kid r.1) [ some k ↦ (ok k, r.1) | none ↦ (err no_key, r.1) ]
        ]

  -- the part of `key` behind the refresh of stale keys
  unfoldable pub key_in : Text → JwksCache → Result KeyError PublicKey × JwksCache
  key_in kid c = elim (find_key kid c) [ some k ↦ (ok k, c) | none ↦ key_missed kid c ]

  unfoldable pub key : Text → JwksCache → Result KeyError PublicKey × JwksCache
  key kid c =
      let s = is_stale c in
      let r = refresh s.1 in
      if s.0 then elim (r.0) [ err e ↦ (err e, r.1) | ok done ↦ key_in kid r.1 ] else key_in kid s.1
