-- ===== src/Pat/Cache/Fetched.antt =====
-- Where the cache's keys come from, and how old they are when a key is given out.
use orbitport.Base.{
  ℕ, ◌+◌, ◌≤◌, ◌≡◌, refl, sym, ap, ◌∙◌, subst, Bool, true, false, List, ◌∷◌, none, some, ltb, arith,
  if◌then◌else◌, Bool-cases, inl, inr, Option-cases, ltb→lt, ltb→le,
}
use orbitport.Base.Result.{Result, ok, err, Result-cases}
use orbitport.Text.{Text}
use orbitport.Pat.Types.{PublicKey}
use orbitport.Pat.Cache.{
  Keys, Call, get_jwks, read_clock, World, KeyError, no_key, JwksCache, jwks_cache_ttl,
  jwks_min_refresh, read_reply, tick, now, is_recent, fetch, refresh, is_stale, find_key,
  key_missed, key_in, key,
}

-- The clock does not go back.
pub record Monotone (w : World) : Type 0 where
  pub step : (c : Call) (h : List Call) → w.clock h ≤ w.clock (c ∷ h)

module _ (w : World) where
  -- The keys are those of an answer of the issuer, and the time is not before that answer.
  pub record Backed (c : JwksCache) (keys : Keys) : Type 0 where
    pub before : List Call
    pub answer : read_reply (w.jwks_reply (get_jwks ∷ before)) ≡ ok keys
    pub time : c.fetched_at ≡ w.clock (read_clock ∷ get_jwks ∷ before)

  abbrev pub IsBacked : JwksCache → Type 0
  IsBacked c = (keys : Keys) → c.keys ≡ some keys → Backed c keys

  -- what an operation keeps, from a time on
  pub record Keeps (t : ℕ) (c : JwksCache) : Type 0 where
    pub backed : IsBacked c
    pub from : t ≤ now w c

  -- the keys were fetched less than the time to live before the time, or after it
  abbrev pub IsFresh : ℕ → JwksCache → Type 0
  IsFresh t c = t ≤ c.fetched_at + jwks_cache_ttl

  is_recent-none : (c : JwksCache) → c.keys ≡ none → is_recent w c ≡ (false, c)
  unfolding is_recent
  is_recent-none c e = rw (e) refl

  is_recent-some :
      (c : JwksCache) {keys : Keys}
      → c.keys ≡ some keys
      → is_recent w c ≡ (ltb (now w (tick w c)) (c.fetched_at + jwks_min_refresh), tick w c)
  unfolding is_recent tick
  is_recent-some c e = rw (e) refl

  is_stale-none : (c : JwksCache) → c.keys ≡ none → is_stale w c ≡ (true, c)
  unfolding is_stale
  is_stale-none c e = rw (e) refl

  is_stale-some :
      (c : JwksCache) {keys : Keys}
      → c.keys ≡ some keys
      → is_stale w c ≡ (ltb (c.fetched_at + jwks_cache_ttl) (now w (tick w c)), tick w c)
  unfolding is_stale tick
  is_stale-some c e = rw (e) refl

  module _ (mono : Monotone w) (t : ℕ) where
    pub tick-Keeps : (c : JwksCache) → Keeps t c → Keeps t (tick w c)
    unfolding tick
    tick-Keeps c v = record {
      backed = λ keys e.
          let b = v.backed keys e in record { before = b.before; answer = b.answer; time = b.time };
      from = omega (arith, v.from, mono.step read_clock c.calls);
    }

    abbrev Refreshed : Result KeyError (Unit {0}) × JwksCache → Type 0
    Refreshed r = Keeps t r.1 × (r.0 ≡ ok tt → IsFresh t r.1)

    fetch-Refreshed : (c : JwksCache) → Keeps t c → Refreshed (fetch w c)
    unfolding fetch tick
    fetch-Refreshed c v =
        let asked : List Call = get_jwks ∷ c.calls in
        let later : t ≤ w.clock asked = omega (arith, v.from, mono.step get_jwks c.calls) in
        let done : t ≤ w.clock (read_clock ∷ asked) = omega (arith, mono.step read_clock asked) in
        elim (Result-cases (read_reply (w.jwks_reply asked))) [
          | inr (e, failed) ↦
              rw (failed, fetch)
                (
                  record {
                    backed = λ keys e.
                        let b = v.backed keys e in
                        record { before = b.before; answer = b.answer; time = b.time };
                    from = later;
                  },
                  λ e. cc,
                )
          | inl (keys, got) ↦
              rw (got, fetch)
                (
                  record {
                    backed = λ ks e.
                        let same : keys ≡ ks = cc in
                        record { before = c.calls; answer = got ∙ ap ok same; time = refl };
                    from = done;
                  },
                  λ e. omega arith,
                )
        ]

    refresh-Refreshed : (c : JwksCache) → Keeps t c → Refreshed (refresh w c)
    unfolding refresh
    refresh-Refreshed c v = elim (Option-cases c.keys) [
      | inl empty ↦ rw (is_recent-none c empty) (fetch-Refreshed c v)
      | inr (keys, e) ↦
          let v' = tick-Keeps c v in
          elim (Bool-cases (ltb (now w (tick w c)) (c.fetched_at + jwks_min_refresh))) [
            | inl recent ↦
                let lt = ltb→lt (now w (tick w c)) (c.fetched_at + jwks_min_refresh) recent in
                rw (is_recent-some c e, recent) (v', λ e. unfold tick in omega (arith, v'.from))
            | inr old ↦ rw (is_recent-some c e, old) (fetch-Refreshed (tick w c) v')
          ]
    ]

    -- the key is one of the cache's, which are fresh
    abbrev pub IsGiven : Text → Result KeyError PublicKey × JwksCache → Type 0
    IsGiven kid r =
        Keeps t r.1 × ((k : PublicKey) → r.0 ≡ ok k → (find_key w kid r.1 ≡ some k) × IsFresh t r.1)

    found-IsGiven :
        (kid : Text) (c : JwksCache) (other : Result KeyError PublicKey × JwksCache)
        → Keeps t c
        → IsFresh t c
        → IsGiven kid other
        → IsGiven kid (elim (find_key w kid c) [ some k ↦ (ok k, c) | none ↦ other ])
    found-IsGiven kid c other v fresh o = elim (Option-cases (find_key w kid c)) [
      | inl unknown ↦ rw (unknown) o
      | inr (k, found) ↦ rw (found) (v, λ k' e. (found ∙ cc, fresh))
    ]

    -- what is done with a refresh
    Refreshed-IsGiven :
        (kid : Text) (r : Result KeyError (Unit {0}) × JwksCache)
        (after : JwksCache → Result KeyError PublicKey × JwksCache)
        → Refreshed r
        → (Keeps t r.1 → IsFresh t r.1 → IsGiven kid (after r.1))
        → IsGiven kid (elim (r.0) [ err e ↦ (err e, r.1) | ok done ↦ after r.1 ])
    Refreshed-IsGiven kid (ok tt, c) after v f = f v.0 (v.1 refl)
    Refreshed-IsGiven kid (err e, c) after v f = (v.0, λ k e. cc)

    key_missed-IsGiven :
        (kid : Text) (c : JwksCache) → Keeps t c → IsFresh t c → IsGiven kid (key_missed w kid c)
    unfolding key_missed
    key_missed-IsGiven kid c v fresh =
        let v' = tick-Keeps c v in
        elim (Bool-cases (ltb (now w (tick w c)) (c.fetched_at + jwks_min_refresh))) [
          | inl recent ↦ rw (recent) (v', λ k e. cc)
          | inr old ↦ rw (old) (
              Refreshed-IsGiven kid (refresh w (tick w c))
                (λ c'. elim (find_key w kid c') [ some k ↦ (ok k, c') | none ↦ (err no_key, c') ])
                (refresh-Refreshed (tick w c) v')
                (λ v2 fresh2.
                  found-IsGiven kid (refresh w (tick w c)).1 (err no_key, (refresh w (tick w c)).1)
                    v2 fresh2 (v2, λ k e. cc)))
        ]

    key_in-IsGiven :
        (kid : Text) (c : JwksCache) → Keeps t c → IsFresh t c → IsGiven kid (key_in w kid c)
    unfolding key_in
    key_in-IsGiven kid c v fresh =
        found-IsGiven kid c (key_missed w kid c) v fresh (key_missed-IsGiven kid c v fresh)

    abbrev Judged : Bool × JwksCache → Type 0
    Judged s = Keeps t s.1 × (s.0 ≡ false → IsFresh t s.1)

    is_stale-Judged : (c : JwksCache) → Keeps t c → Judged (is_stale w c)
    is_stale-Judged c v = elim (Option-cases c.keys) [
      | inl empty ↦ subst Judged (sym (is_stale-none c empty)) (v, λ e. cc)
      | inr (keys, e) ↦
          let v' = tick-Keeps c v in
          subst Judged (sym (is_stale-some c e)) (
            v',
            λ usable.
                let le = ltb→le (c.fetched_at + jwks_cache_ttl) (now w (tick w c)) usable in
                unfold tick in omega (arith, v'.from),
          )
    ]

    Judged-IsGiven :
        (kid : Text) (s : Bool × JwksCache)
        → Judged s
        → IsGiven kid (
            let r = refresh w s.1 in
            if s.0
            then elim (r.0) [ err e ↦ (err e, r.1) | ok done ↦ key_in w kid r.1 ]
            else key_in w kid s.1)
    Judged-IsGiven kid (true, c) j =
        Refreshed-IsGiven kid (refresh w c) (key_in w kid) (refresh-Refreshed c j.0)
          (key_in-IsGiven kid (refresh w c).1)
    Judged-IsGiven kid (false, c) j = key_in-IsGiven kid c j.0 (j.1 refl)

    -- A key that the cache gives is the one that its keys have for the kid, and they were fetched at
    -- most the time to live before the time at which the request came in.
    pub key-IsGiven : (kid : Text) (c : JwksCache) → Keeps t c → IsGiven kid (key w kid c)
    unfolding key
    key-IsGiven kid c v = Judged-IsGiven kid (is_stale w c) (is_stale-Judged c v)
