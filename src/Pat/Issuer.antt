-- ===== src/Pat/Issuer.antt =====
-- plugins/pkg/plugin/patissuer: the handlers of plugin.go over the signer of signer.go. The signer is
-- an interface: OpenBao, or a key in the process.
pub mod Minting
pub mod Issuing
use orbitport.Base.{
  take, drop, ℕ, ◌*◌, ◌/◌, Bool, true, false, not, List, [], ◌∷◌, Option, none, some, ltb, ◌||◌,
  if◌then◌else◌,
}
use orbitport.Base.Int.{ℤ, pos, negsuc}
use orbitport.Base.Result.{Result, ok, err}
use orbitport.Text.{Text, is_empty, lit}
use orbitport.Base64.Codec.{encode_raw}
use orbitport.Pat.Types.{Claims, Jwk, PublicKey, point_of}
use orbitport.Pat.Transit.{BaoCall, Bao, SignError, sign_failed, M, mint, jwks}

-- `signer`
pub record Signer : Type 0 where
  pub mint_claims : Claims → M Text
  pub key_set : M (List Jwk)

abbrev pub transit_signer : Bao → Signer
transit_signer bao = record { mint_claims = mint bao; key_set = jwks bao }

-- `localSigner`: its key, and what the JWT library signs for the kid
pub record LocalSigner : Type 0 where
  pub public_key : PublicKey
  pub kid : Text
  pub signed : Text → Claims → Option Text

unfoldable pub local_jwk : LocalSigner → Jwk
local_jwk s = record {
  kty = lit "EC";
  crv = lit "P-256";
  usage = lit "sig";
  alg = lit "ES256";
  kid = s.kid;
  x = encode_raw (take 32 (drop 1 (point_of s.public_key)));
  y = encode_raw (drop 33 (point_of s.public_key));
}

unfoldable pub local_mint : LocalSigner → Claims → M Text
local_mint s claims h = elim (s.signed s.kid claims) [
  | none ↦ (err sign_failed, h)
  | some token ↦ (ok token, h)
]

abbrev pub local_signer : LocalSigner → Signer
local_signer s = record { mint_claims = local_mint s; key_set = λ h. (ok (local_jwk s ∷ []), h) }

pub record IssueTokenRequest : Type 0 where
  pub jti : Text
  pub subject : Text
  pub kms_tenant : Text
  pub expires_at : ℤ

-- the settings, and `now.AddDate(0, 0, MaxTTLDays)` in nanoseconds
pub record IssuerConfig : Type 0 where
  pub issuer : Text
  pub audience : Text
  pub ceiling : ℕ → ℕ

pub data IssueError : Type 0 where
  invalid_argument : IssueError
  internal : IssueError

abbrev pub second : ℕ
second = 1_000_000_000

-- `exp.After(t)` for a time of the clock, which is not before 1970
unfoldable pub is_after : ℤ → ℕ → Bool
is_after (pos s) t = ltb t (s * second)
is_after (negsuc s) t = false

unfoldable pub claims_of : IssuerConfig → IssueTokenRequest → ℕ → Claims
claims_of cfg req now = record {
  iss = some cfg.issuer;
  aud = cfg.audience ∷ [];
  sub = some req.subject;
  jti = some req.jti;
  kms_tenant = if is_empty req.kms_tenant then none else some req.kms_tenant;
  iat = some (pos (now / second));
  exp = some req.expires_at;
}

-- how the signer's result is reported
unfoldable pub sign_result :
    {A : Type 0} → Result SignError A × List BaoCall → Result IssueError A × List BaoCall
sign_result (ok a, h) = (ok a, h)
sign_result (err e, h) = (err internal, h)

-- the guards of `IssueToken`, at the time `now`
unfoldable pub is_refused : IssuerConfig → ℕ → IssueTokenRequest → Bool
is_refused cfg now req =
    is_empty req.jti
    || is_empty req.subject
    || not (is_after req.expires_at now)
    || is_after req.expires_at (cfg.ceiling now)

-- `IssueToken`
unfoldable pub issue_token :
    Signer
    → IssuerConfig
    → ℕ
    → IssueTokenRequest
    → List BaoCall
    → Result IssueError Text × List BaoCall
issue_token s cfg now req h =
    if is_refused cfg now req
    then (err invalid_argument, h)
    else sign_result (s.mint_claims (claims_of cfg req now) h)

-- `GetJwks`
unfoldable pub get_jwks : Signer → List BaoCall → Result IssueError (List Jwk) × List BaoCall
get_jwks s h = sign_result (s.key_set h)
