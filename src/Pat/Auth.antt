-- ===== src/Pat/Auth.antt =====
-- plugins/pkg/plugin/auth: validatePAT of pat.go, and the handlers of plugin.go. The libraries for JSON
-- Web Tokens answer by the arguments of this module.
pub mod Accepting
use orbitport.Base.{
  ℕ, Bool, true, false, not, List, [], ◌∷◌, Option, none, some, ◌||◌, if◌then◌else◌,
}
use orbitport.Base.Result.{Result, ok, err}
use orbitport.Text.{Text, text_eq, is_empty, lit, split}
use orbitport.Base64.Codec.{raw_url_encoding, decode}
use orbitport.Pat.Types.{Claims, PublicKey}
use orbitport.Pat.Cache.{
  World, JwksCache, KeyError, issuer_unavailable, bad_jwks, no_key, missing_kid, tick, now, key,
}

-- the options of `jwt.Parse`; the expiration is required, and the leeway is a minute
pub record Options : Type 0 where
  pub valid_method : Text
  pub issuer : Text
  pub audience : Text

-- What `jwt.Parse` reports of a token that it has a key for.
pub data JwtError : Type 0 where
  expired invalid : JwtError

-- A token up to the call of the keyfunc: its kid, and what is made of a key that the
-- keyfunc returns, at a time.
pub record Keyed : Type 0 where
  pub kid : Option Text
  pub finish : PublicKey → ℕ → Result JwtError Claims

-- `jwt.Parse`, which reports a token that is not asked a key for as `none`; and the iss claim of a JSON
-- text, where it parses.
pub record Jwt : Type 0 where
  pub parse : Options → Text → Option Keyed
  pub iss_of : List ℕ → Option Text

pub data Status : Type 0 where
  unavailable pat_expired invalid_credential not_a_pat : Status
  scopes_required invalid_service_token not_authorized jwks_unavailable : Status

-- `pat_keys` tells whether `patKeys` is there.
pub record Plugin : Type 0 where
  pub pat_iss : Text
  pub pat_audience : Text
  pub pat_keys : Bool
  pub service_client_ids : List Text

pub record TokenValidationResponse : Type 0 where
  pub client_id : Text
  pub jti : Text
  pub kms_tenant : Text

-- a claim as a text, empty where there is none
abbrev pub text_of : Option Text → Text
text_of none = []
text_of (some s) = s

module _ (jwt : Jwt) where
  -- the iss claim of the second of three parts
  unfoldable pub iss_of_parts : List Text → Text
  iss_of_parts (a ∷ payload ∷ b ∷ []) = elim (decode raw_url_encoding payload) [
    | none ↦ []
    | some json ↦ text_of (jwt.iss_of json)
  ]
  iss_of_parts [] = []
  iss_of_parts (a ∷ []) = []
  iss_of_parts (a ∷ b ∷ []) = []
  iss_of_parts (a ∷ b ∷ c ∷ d ∷ more) = []

  unfoldable pub unverified_issuer : Text → Text
  unverified_issuer token = iss_of_parts (split b'.' token)

-- how an error of the keyfunc is reported
unfoldable pub key_status : KeyError → Status
key_status issuer_unavailable = unavailable
key_status bad_jwks = invalid_credential
key_status no_key = invalid_credential
key_status missing_kid = invalid_credential

unfoldable pub jwt_status : JwtError → Status
jwt_status expired = pat_expired
jwt_status invalid = invalid_credential

-- the part of `validatePAT` behind the library
unfoldable pub respond : Claims → Result Status TokenValidationResponse
respond claims =
    if is_empty (text_of claims.sub) || is_empty (text_of claims.jti)
    then err invalid_credential
    else ok (record {
      client_id = text_of claims.sub;
      jti = text_of claims.jti;
      kms_tenant = text_of claims.kms_tenant;
    })

-- the checks of the library with a key, and the response
unfoldable pub finish_with : Keyed → PublicKey → ℕ → Result Status TokenValidationResponse
finish_with keyed k time = elim (keyed.finish k time) [
  | err e ↦ err (jwt_status e)
  | ok claims ↦ respond claims
]

abbrev pub options_of : Plugin → Options
options_of p = record { valid_method = lit "ES256"; issuer = p.pat_iss; audience = p.pat_audience }

module _ (jwt : Jwt) (w : World) (p : Plugin) where
  -- the keyfunc of `validatePAT`
  unfoldable pub keyfunc : Option Text → JwksCache → Result KeyError PublicKey × JwksCache
  keyfunc kid c = if is_empty (text_of kid) then (err missing_kid, c) else key w (text_of kid) c

  unfoldable pub validate_pat : Text → JwksCache → Result Status TokenValidationResponse × JwksCache
  validate_pat token c = elim (jwt.parse (options_of p) token) [
    | none ↦ (err invalid_credential, c)
    | some keyed ↦
        let r = keyfunc keyed.kid c in
        elim (r.0) [
          | err e ↦ (err (key_status e), r.1)
          | ok k ↦ (finish_with keyed k (now w (tick w r.1)), tick w r.1)
        ]
  ]

  unfoldable pub validate_token :
      Text → JwksCache → Result Status TokenValidationResponse × JwksCache
  validate_token token c =
      if not p.pat_keys || not (text_eq (unverified_issuer jwt token) p.pat_iss)
      then (err not_a_pat, c)
      else validate_pat token c
