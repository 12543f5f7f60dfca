-- ===== src/Pat/Issuer/Issuing.antt =====
-- When a token is issued, and what for.
use orbitport.Base.{
  ℕ, ◌*◌, ◌≤◌, ◌<◌, ◌≡◌, ◌≢◌, refl, false, not, List, [], ◌∷◌, ltb, ◌||◌, arith, Bool-cases, inl,
  inr, ltb→lt, ltb→le, lt→ltb,
}
use orbitport.Base.Int.{ℤ, pos, negsuc}
use orbitport.Base.Result.{Result, ok, err}
use orbitport.Text.{Text, is_empty}
use orbitport.Pat.Transit.{BaoCall, Bao, SignError}
use orbitport.Pat.Issuer.{
  Signer, transit_signer, IssueTokenRequest, IssuerConfig, IssueError, invalid_argument, internal,
  second, is_after, is_refused, claims_of, sign_result, issue_token,
}
use orbitport.Pat.Issuer.Minting.{Minted, mint-Minted}

pub ne-is_empty : (xs : Text) → xs ≢ [] → is_empty xs ≡ false
ne-is_empty [] n = absurd (n refl)
ne-is_empty (x ∷ xs) n = refl

le→ltb : (a b : ℕ) → b ≤ a → ltb a b ≡ false
le→ltb a b h = ground arith

-- The request names a token and its owner, and an end that is to come and not above the ceiling.
pub record Allowed (cfg : IssuerConfig) (time : ℕ) (req : IssueTokenRequest) : Type 0 where
  pub jti : req.jti ≢ []
  pub subject : req.subject ≢ []
  pub ends_at : ℕ
  pub expires_at : req.expires_at ≡ pos ends_at
  pub to_come : time < ends_at * second
  pub below : ends_at * second ≤ cfg.ceiling time

module _ (s : Signer) (cfg : IssuerConfig) (time : ℕ) (req : IssueTokenRequest)
    (h : List BaoCall) where
  pub data SignedEnds : Result IssueError Text × List BaoCall → Type 0 where
    refused : (Allowed cfg time req → ⊥) → SignedEnds (err invalid_argument, h)
    not_signed :
        (e : SignError) (h' : List BaoCall)
        → Allowed cfg time req
        → s.mint_claims (claims_of cfg req time) h ≡ (err e, h')
        → SignedEnds (err internal, h')
    signed :
        (token : Text) (h' : List BaoCall)
        → Allowed cfg time req
        → s.mint_claims (claims_of cfg req time) h ≡ (ok token, h')
        → SignedEnds (ok token, h')

  Allowed-is_refused : Allowed cfg time req → is_refused cfg time req ≡ false
  unfolding is_refused is_after
  Allowed-is_refused a =
      let no_jti = ne-is_empty req.jti a.jti in
      let no_subject = ne-is_empty req.subject a.subject in
      let later = lt→ltb time (a.ends_at * second) a.to_come in
      let below : ltb (cfg.ceiling time) (a.ends_at * second) ≡ false =
        le→ltb (cfg.ceiling time) (a.ends_at * second) a.below in
      rw (no_jti, no_subject, a.expires_at, later, below) refl

  is_after-Allowed :
      (e : ℤ)
      → req.expires_at ≡ e
      → is_empty req.jti ≡ false
      → is_empty req.subject ≡ false
      → (not (is_after e time) || is_after e (cfg.ceiling time)) ≡ false
      → Allowed cfg time req
  unfolding is_after
  is_after-Allowed (pos n) e j u = elim (Bool-cases (ltb time (n * second))) [
    | inr over ↦ rw (over) (λ h. cc)
    | inl later ↦ rw (later) (λ below. record {
      jti = λ none. cc;
      subject = λ none. cc;
      ends_at = n;
      expires_at = e;
      to_come = ltb→lt time (n * second) later;
      below = ltb→le (cfg.ceiling time) (n * second) below;
    })
  ]
  is_after-Allowed (negsuc n) e j u = λ h. cc

  is_refused-Allowed : is_refused cfg time req ≡ false → Allowed cfg time req
  unfolding is_refused
  is_refused-Allowed = elim (Bool-cases (is_empty req.jti)) [
    | inl no_jti ↦ rw (no_jti) (λ h. cc)
    | inr jti ↦ elim (Bool-cases (is_empty req.subject)) [
      | inl no_subject ↦ rw (jti, no_subject) (λ h. cc)
      | inr subject ↦ rw (jti, subject) (is_after-Allowed req.expires_at refl jti subject)
    ]
  ]

  signed-SignedEnds :
      (r : Result SignError Text × List BaoCall)
      → s.mint_claims (claims_of cfg req time) h ≡ r
      → Allowed cfg time req
      → SignedEnds (sign_result r)
  unfolding sign_result
  signed-SignedEnds (ok token, h') e a = signed token h' a e
  signed-SignedEnds (err x, h') e a = not_signed x h' a e

  pub issue_token-SignedEnds : SignedEnds (issue_token s cfg time req h)
  unfolding issue_token
  issue_token-SignedEnds = elim (Bool-cases (is_refused cfg time req)) [
    | inl stop ↦ rw (stop) (refused (λ a. let go = Allowed-is_refused a in cc))
    | inr go ↦
        rw (go) (
          signed-SignedEnds (s.mint_claims (claims_of cfg req time) h) refl (is_refused-Allowed go))
  ]

module _ (bao : Bao) (cfg : IssuerConfig) (time : ℕ) (req : IssueTokenRequest)
    (h : List BaoCall) where
  -- How an issue ends over OpenBao.
  pub data Ends : Result IssueError Text × List BaoCall → Type 0 where
    refused : (Allowed cfg time req → ⊥) → Ends (err invalid_argument, h)
    not_minted : (h' : List BaoCall) → Allowed cfg time req → Ends (err internal, h')
    issued :
        (token : Text) (h' : List BaoCall)
        → Allowed cfg time req
        → Minted bao (claims_of cfg req time) h token h'
        → Ends (ok token, h')

  of_signed-Ends :
      (r : Result IssueError Text × List BaoCall)
      → SignedEnds (transit_signer bao) cfg time req h r
      → Ends r
  of_signed-Ends _ (SignedEnds.refused barred) = refused barred
  of_signed-Ends _ (SignedEnds.not_signed e h' a m) = not_minted h' a
  of_signed-Ends _ (SignedEnds.signed token h' a m) =
      issued token h' a (mint-Minted bao (claims_of cfg req time) h h' token m)

  -- A token is issued only for a request that names a token and a subject and ends in the future, at
  -- most at the configured ceiling; otherwise OpenBao is not asked. A token that is issued is made of
  -- its header and these claims, which OpenBao was asked to sign with the version of a P-256 key that
  -- the header names, and of the signature of 64 bytes that it returned.
  pub issue_token-Ends : Ends (issue_token (transit_signer bao) cfg time req h)
  issue_token-Ends = of_signed-Ends _ (issue_token-SignedEnds (transit_signer bao) cfg time req h)
