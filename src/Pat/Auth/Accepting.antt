-- ===== src/Pat/Auth/Accepting.antt =====
-- What an accepted token has been checked for.
use orbitport.Base.{
  ℕ, ◌≡◌, ◌≢◌, refl, subst, Bool, true, false, not, [], Option, none, some, ◌||◌, if◌then◌else◌,
  Bool-cases, inl, inr, Option-cases,
}
use orbitport.Base.Result.{Result, ok, err, Result-cases}
use orbitport.Text.{Text, text_eq, is_empty}
use orbitport.Text.Equal.{text_eq→≡}
use orbitport.Pat.Types.{Claims, PublicKey}
use orbitport.Pat.Cache.{World, KeyError, JwksCache, tick, now, find_key}
use orbitport.Pat.Cache.Fetched.{Monotone, Keeps, IsFresh, IsGiven, key-IsGiven, tick-Keeps}
use orbitport.Pat.Auth.{
  Jwt, Keyed, Status, not_a_pat, invalid_credential, Plugin, TokenValidationResponse, text_of,
  unverified_issuer, key_status, jwt_status, respond, finish_with, options_of, keyfunc,
  validate_pat, validate_token,
}

-- The claims name the client and the token of the response.
pub record Names (claims : Claims) (r : TokenValidationResponse) : Type 0 where
  pub sub : claims.sub ≡ some r.client_id
  pub jti : claims.jti ≡ some r.jti
  pub client : r.client_id ≢ []
  pub token : r.jti ≢ []
  pub kms_tenant : r.kms_tenant ≡ text_of claims.kms_tenant

named : (o : Option Text) → is_empty (text_of o) ≡ false → (o ≡ some (text_of o)) × (text_of o ≢ [])
named none h = cc
named (some s) h = (refl, λ e. cc)

respond-Names :
    (claims : Claims) (r : TokenValidationResponse) → respond claims ≡ ok r → Names claims r
unfolding respond
respond-Names claims r = elim (Bool-cases (is_empty (text_of claims.sub))) [
  | inl no_sub ↦ rw (no_sub) (λ e. cc)
  | inr sub ↦ elim (Bool-cases (is_empty (text_of claims.jti))) [
    | inl no_jti ↦ rw (sub, no_jti) (λ e. cc)
    | inr jti ↦
        rw (sub, jti)
          (λ e.
            let (has_sub, client) = named claims.sub sub in
            let (has_jti, token) = named claims.jti jti in
            let same : record {
              client_id = text_of claims.sub;
              jti = text_of claims.jti;
              kms_tenant = text_of claims.kms_tenant;
            }
                ≡ r =
              cc in
            subst (Names claims) same (record {
              sub = has_sub;
              jti = has_jti;
              client = client;
              token = token;
              kms_tenant = refl;
            }))
  ]
]

module _ (jwt : Jwt) (w : World) (p : Plugin) (token : Text) (t : ℕ) where
  -- A token that is accepted: personal access tokens are on, the token claims the issuer, the library
  -- accepts it with the key that the cache has for its kid, and its claims name the client.
  pub record Accepted (r : TokenValidationResponse) (c : JwksCache) : Type 0 where
    pub keyed : Keyed
    pub kid : Text
    pub k : PublicKey
    pub time : ℕ
    pub claims : Claims
    pub configured : p.pat_keys ≡ true
    pub routed : unverified_issuer jwt token ≡ p.pat_iss
    pub parsed : jwt.parse (options_of p) token ≡ some keyed
    pub has_kid : (keyed.kid ≡ some kid) × (kid ≢ [])
    pub key_found : find_key w kid c ≡ some k
    pub fresh : IsFresh w t c
    pub verified : keyed.finish k time ≡ ok claims
    pub names : Names claims r

  pub data Ends : Result Status TokenValidationResponse × JwksCache → Type 0 where
    refused : (x : Status) (c : JwksCache) → Keeps w t c → Ends (err x, c)
    accepted :
        (r : TokenValidationResponse) (c : JwksCache) → Keeps w t c → Accepted r c → Ends (ok r, c)

  module _ (mono : Monotone w) where
    -- the keyfunc asks for no key without a kid
    keyfunc-IsGiven :
        (kid : Option Text) (c : JwksCache)
        → Keeps w t c
        → IsGiven w mono t (text_of kid) (keyfunc jwt w p kid c)
          × ((k : PublicKey) → (keyfunc jwt w p kid c).0 ≡ ok k → is_empty (text_of kid) ≡ false)
    unfolding keyfunc
    keyfunc-IsGiven kid c v = elim (Bool-cases (is_empty (text_of kid))) [
      | inl missing ↦ rw (missing) ((v, λ k e. cc), λ k e. cc)
      | inr there ↦ rw (there) (key-IsGiven w mono t (text_of kid) c v, λ k e. refl)
    ]

    finish_with-Ends :
        (keyed : Keyed) (k : PublicKey) (c : JwksCache) (time : ℕ)
        → Keeps w t c
        → ((r : TokenValidationResponse) (claims : Claims)
            → keyed.finish k time ≡ ok claims
            → Names claims r
            → Accepted r c)
        → Ends (finish_with keyed k time, c)
    unfolding finish_with
    finish_with-Ends keyed k c time v f = elim (Result-cases (keyed.finish k time)) [
      | inr (x, e) ↦ rw (e, finish_with) (refused (jwt_status x) c v)
      | inl (claims, e) ↦ elim (Result-cases (respond claims)) [
        | inr (x, r) ↦ rw (e, r, finish_with) (refused x c v)
        | inl (resp, r) ↦
            rw (e, r, finish_with)
              (accepted resp c v (f resp claims e (respond-Names claims resp r)))
      ]
    ]

    keyed-Ends :
        (keyed : Keyed) (r : Result KeyError PublicKey × JwksCache)
        → p.pat_keys ≡ true
        → unverified_issuer jwt token ≡ p.pat_iss
        → jwt.parse (options_of p) token ≡ some keyed
        → IsGiven w mono t (text_of keyed.kid) r
        → ((k : PublicKey) → r.0 ≡ ok k → is_empty (text_of keyed.kid) ≡ false)
        → Ends (elim (r.0) [
          | err e ↦ (err (key_status e), r.1)
          | ok k ↦ (finish_with keyed k (now w (tick w r.1)), tick w r.1)
        ])
    unfolding tick find_key
    keyed-Ends keyed (err x, c) on routed parsed g has_kid = refused (key_status x) c g.0
    keyed-Ends keyed (ok k, c) on routed parsed g has_kid =
        let (found, fresh) = g.1 k refl in
        finish_with-Ends keyed k (tick w c) (now w (tick w c)) (tick-Keeps w mono t c g.0)
          (λ r claims e names. record {
            keyed = keyed;
            kid = text_of keyed.kid;
            k = k;
            time = now w (tick w c);
            claims = claims;
            configured = on;
            routed = routed;
            parsed = parsed;
            has_kid = named keyed.kid (has_kid k refl);
            key_found = found;
            fresh = fresh;
            verified = e;
            names = names;
          })

    validate_pat-Ends :
        (c : JwksCache)
        → Keeps w t c
        → p.pat_keys ≡ true
        → unverified_issuer jwt token ≡ p.pat_iss
        → Ends (validate_pat jwt w p token c)
    unfolding validate_pat
    validate_pat-Ends c v on routed = elim (Option-cases (jwt.parse (options_of p) token)) [
      | inl malformed ↦ rw (malformed, validate_pat) (refused invalid_credential c v)
      | inr (keyed, parsed) ↦
          rw (parsed, validate_pat)
            (let (given, has_kid) = keyfunc-IsGiven keyed.kid c v in
              keyed-Ends keyed (keyfunc jwt w p keyed.kid c) on routed parsed given has_kid)
    ]

    routed-Ends :
        (on same : Bool) (c : JwksCache)
        → Keeps w t c
        → (r : Result Status TokenValidationResponse × JwksCache)
        → (on ≡ true → same ≡ true → Ends r)
        → Ends (if not on || not same then (err not_a_pat, c) else r)
    routed-Ends true true c v r f = f refl refl
    routed-Ends true false c v r f = refused not_a_pat c v
    routed-Ends false same c v r f = refused not_a_pat c v

    -- However a token is validated, the cache stays one whose keys are an answer of the issuer, noted
    -- with a time that is not before it. A token is accepted only when personal access tokens are
    -- configured, its unverified iss claim is the configured issuer, the library accepts it, with the
    -- configured issuer and audience and ES256, by the key that the cache's keys have for its kid, these
    -- keys were fetched at most five minutes before the request came in, and the response holds the
    -- claims' sub and jti, neither of them empty, and the KMS tenant, empty where there is none.
    pub validate_token-Ends : (c : JwksCache) → Keeps w t c → Ends (validate_token jwt w p token c)
    unfolding validate_token
    validate_token-Ends c v =
        routed-Ends p.pat_keys (text_eq (unverified_issuer jwt token) p.pat_iss) c v
          (validate_pat jwt w p token c)
          (λ on same.
            validate_pat-Ends c v on (text_eq→≡ (unverified_issuer jwt token) p.pat_iss same))
