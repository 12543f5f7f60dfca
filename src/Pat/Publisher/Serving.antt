-- ===== src/Pat/Publisher/Serving.antt =====
-- What a published body is.
use orbitport.Base.{
  ℕ, ◌+◌, ◌≤◌, ◌≡◌, ◌≢◌, refl, sym, subst, Bool, true, false, List, [], ◌∷◌, none, some,
  if◌then◌else◌, arith, Bool-cases, inl, inr, Option-cases, ltb→lt,
}
use orbitport.Base.Result.{Result, ok, err}
use orbitport.Text.{Text, is_empty}
use orbitport.Pat.Cache.{Call, get_jwks, read_clock}
use orbitport.Pat.Publisher.{
  Publisher, Issuer, PublishError, Response, browser_cache_max_age, unavailable_body, read_time,
  time, fresh, fetch_set, refresh_set, cached_jwks, handle_jwks,
}

module _ (w : Issuer) (cache_ttl t : ℕ) where
  -- The cached text, where there is one, is an answer of the issuer, and its time is not before that
  -- answer; and the request came in at the time, or later.
  pub record Keeps (p : Publisher) : Type 0 where
    pub answered :
        p.cached ≢ []
        → (h : List Call) × (w.jwks_json (get_jwks ∷ h) ≡ some p.cached)
          × (p.fetched_at ≡ w.clock (read_clock ∷ get_jwks ∷ h))
    pub from : t ≤ time w cache_ttl p

  -- How a request is answered.
  pub data Serves : Response × Publisher → Type 0 where
    unavailable :
        (p : Publisher)
        → Keeps p
        → Serves (record { code = 503; max_age = none; body = unavailable_body }, p)
    served :
        (p : Publisher)
        → Keeps p
        → p.cached ≢ []
        → t ≤ p.fetched_at + cache_ttl
        → Serves (record { code = 200; max_age = some browser_cache_max_age; body = p.cached }, p)

  -- a result with a body that is cached and fresh
  abbrev Given : Result PublishError Text × Publisher → Type 0
  Given r =
      Keeps r.1
      × ((body : Text)
          → r.0 ≡ ok body
          → (body ≡ r.1.cached) × (r.1.cached ≢ []) × (t ≤ r.1.fetched_at + cache_ttl))

  -- a judgement of the cached text
  abbrev Judged : Bool × Publisher → Type 0
  Judged f = Keeps f.1 × (f.0 ≡ true → (f.1.cached ≢ []) × (t ≤ f.1.fetched_at + cache_ttl))

  Judged-Given :
      (f : Bool × Publisher) (other : Result PublishError Text × Publisher)
      → Judged f
      → (Keeps f.1 → Given other)
      → Given (if f.0 then (ok f.1.cached, f.1) else other)
  Judged-Given (true, p) other j g =
      let (there, young) = j.1 refl in (j.0, λ body e. (cc, there, young))
  Judged-Given (false, p) other j g = g j.0

  serves :
      (r : Result PublishError Text × Publisher)
      → Given r
      → Serves (elim (r.0) [
        | err e ↦ (record { code = 503; max_age = none; body = unavailable_body }, r.1)
        | ok body ↦ (record { code = 200; max_age = some browser_cache_max_age; body = body }, r.1)
      ])
  serves (err e, p) g = unavailable p g.0
  serves (ok body, p) g =
      let (same, there, fresh) = g.1 body refl in
      subst (λ b. Serves (record { code = 200; max_age = some browser_cache_max_age; body = b }, p))
        (sym same) (served p g.0 there fresh)

  module _ (mono : (c : Call) (h : List Call) → w.clock h ≤ w.clock (c ∷ h)) where
    read_time-Keeps : (p : Publisher) → Keeps p → Keeps (read_time w cache_ttl p)
    read_time-Keeps p v = record {
      answered = v.answered;
      from = omega (arith, v.from, mono read_clock p.calls);
    }

    fresh-Judged : (p : Publisher) → Keeps p → Judged (fresh w cache_ttl p)
    unfolding fresh
    fresh-Judged p v = elim (Bool-cases (is_empty p.cached)) [
      | inl empty ↦ rw (empty) (v, λ e. cc)
      | inr there ↦
          let v' = read_time-Keeps p v in
          rw (there) (
            v',
            λ e.
                let lt =
                  ltb→lt (time w cache_ttl (read_time w cache_ttl p)) (p.fetched_at + cache_ttl)
                    e in
                (λ n. cc, omega (arith, v'.from)),
          )
    ]

    fetch_set-Given : (p : Publisher) → Keeps p → Given (fetch_set w cache_ttl p)
    unfolding fetch_set
    fetch_set-Given p v =
        let asked : List Call = get_jwks ∷ p.calls in
        let later : t ≤ w.clock asked = omega (arith, v.from, mono get_jwks p.calls) in
        let done : t ≤ w.clock (read_clock ∷ asked) = omega (arith, mono read_clock asked) in
        let kept : Keeps (record p { calls = asked }) = record {
          answered = v.answered;
          from = later;
        } in
        elim (Option-cases (w.jwks_json asked)) [
          | inl failed ↦ rw (failed, fetch_set) (kept, λ body e. cc)
          | inr (json, got) ↦ elim (Bool-cases (is_empty json)) [
            | inl empty ↦ rw (got, empty, fetch_set) (kept, λ body e. cc)
            | inr there ↦
                rw (got, there, fetch_set)
                  (
                    record { answered = λ n. (p.calls, got, refl); from = done },
                    λ body e. (cc, (λ n. cc), omega arith),
                  )
          ]
        ]

    refresh_set-Given : (p : Publisher) → Keeps p → Given (refresh_set w cache_ttl p)
    unfolding refresh_set
    refresh_set-Given p v =
        Judged-Given (fresh w cache_ttl p) (fetch_set w cache_ttl (fresh w cache_ttl p).1)
          (fresh-Judged p v) (fetch_set-Given (fresh w cache_ttl p).1)

    cached_jwks-Given : (p : Publisher) → Keeps p → Given (cached_jwks w cache_ttl p)
    unfolding cached_jwks
    cached_jwks-Given p v =
        Judged-Given (fresh w cache_ttl p) (refresh_set w cache_ttl (fresh w cache_ttl p).1)
          (fresh-Judged p v) (refresh_set-Given (fresh w cache_ttl p).1)

    -- A request is answered by 503 and a fixed body, or by 200 and a text that is not empty, that the
    -- issuer has answered, and that was fetched at most the time to live before the request came in;
    -- either way the cached text stays an answer of the issuer, with a time that is not before it.
    pub handle_jwks-Serves : (p : Publisher) → Keeps p → Serves (handle_jwks w cache_ttl p)
    unfolding handle_jwks
    handle_jwks-Serves p v = serves (cached_jwks w cache_ttl p) (cached_jwks-Given p v)
