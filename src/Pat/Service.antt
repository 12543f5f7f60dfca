-- ===== src/Pat/Service.antt =====
-- ValidateServiceToken of plugins/pkg/plugin/auth/plugin.go. The validator for Auth0 tokens is an
-- argument.
pub mod Authorizing
use orbitport.Base.{
  Bool, true, false, not, List, [], ◌∷◌, Option, none, some, ◌==◌, ◌&&◌, ◌||◌, if◌then◌else◌,
}
use orbitport.Base.Int.{ℤ, pos, negsuc}
use orbitport.Base.Result.{Result, ok, err}
use orbitport.Text.{Text, text_eq, is_empty, lit, split, trim_space, fields, cut_suffix, contains}
use orbitport.Pat.Auth.{
  Plugin, Status, scopes_required, invalid_service_token, not_authorized, jwks_unavailable,
}

pub record ServiceClaims : Type 0 where
  pub scope : Text
  pub grant_type : Text

-- `custom_claims` is missing where it is not `*serviceClaims`.
pub record ValidatedClaims : Type 0 where
  pub expiry : ℤ
  pub subject : Text
  pub custom_claims : Option ServiceClaims

-- Why `validateAuth0Token` failed.
pub data Auth0Error : Type 0 where
  keys_unavailable refused : Auth0Error

unfoldable pub has_required_scopes : List Text → List Text → Bool
has_required_scopes scopes [] = true
has_required_scopes scopes (s ∷ required) = contains s scopes && has_required_scopes scopes required

unfoldable pub has_client_credentials_grant : ServiceClaims → Bool
has_client_credentials_grant c = text_eq c.grant_type (lit "client-credentials")

-- `serviceClientIDSet`
unfoldable pub non_empty : List Text → List Text
non_empty [] = []
non_empty (s ∷ ss) =
    let rest = non_empty ss in if is_empty (trim_space s) then rest else trim_space s ∷ rest

unfoldable pub service_client_id_set : Text → List Text
service_client_id_set ids = non_empty (split b',' ids)

unfoldable pub is_positive : ℤ → Bool
is_positive (pos n) = not (n == 0)
is_positive (negsuc n) = false

unfoldable pub claims_suffice : Option ServiceClaims → List Text → Bool
claims_suffice none required = false
claims_suffice (some c) required =
    has_client_credentials_grant c && has_required_scopes (fields c.scope) required

-- the checks behind the validator
unfoldable pub authorize : Plugin → List Text → ValidatedClaims → Result Status Text
authorize p required claims =
    if not (is_positive claims.expiry)
    then err invalid_service_token
    else elim (cut_suffix (lit "@clients") claims.subject) [
      | none ↦ err not_authorized
      | some client_id ↦
          if is_empty client_id
            || not (contains client_id p.service_client_ids)
            || not (claims_suffice claims.custom_claims required)
          then err not_authorized
          else ok client_id
    ]

unfoldable pub validate_service_token :
    (Text → Result Auth0Error ValidatedClaims) → Plugin → Text → List Text → Result Status Text
validate_service_token validator p token required =
    if is_empty required then err scopes_required else elim (validator token) [
      | err keys_unavailable ↦ err jwks_unavailable
      | err refused ↦ err invalid_service_token
      | ok claims ↦ authorize p required claims
    ]
