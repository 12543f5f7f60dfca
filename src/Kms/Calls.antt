-- ===== src/Kms/Calls.antt =====
-- plugins/pkg/plugin/kms/openbao.go: the calls of OpenBao that the handlers of keys make. OpenBao is
-- outside: a call is put on a record of the calls, newest first, and the environment answers from
-- that record.
use orbitport.Base.{ℕ, Bool, not, List, [], ◌∷◌, Option, none, some, ltb, ◌==◌, ◌&&◌, if◌then◌else◌}
use orbitport.Base.Traced.{Traced}
use orbitport.Base.Result.{Result, ok, err}
use orbitport.Base.Int.{ℤ, pos, negsuc}
use orbitport.Text.{Text, text_eq, is_empty}
use orbitport.Text.Number.{itoa, atoi}
use orbitport.Kms.Spec.{transit}

-- `keyMetadataRecord`
pub record KeyMetadata : Type 0 where
  pub key_id : Text
  pub client_id : Text
  pub alias : Text
  pub scheme : Text
  pub provider_key : Text
  pub transit_key : Text
  pub description : Text
  pub key_spec : Text
  pub key_usage : Text
  pub enabled : Bool
  pub primary_version : ℕ
  pub created_at : Text
  pub public_key : Text
  pub address : Text
  pub tags : List (Text × Text)

unfoldable pub normalize_metadata : KeyMetadata → KeyMetadata
normalize_metadata m = record m {
  scheme = if is_empty m.scheme then transit else m.scheme;
  provider_key = if is_empty m.provider_key then m.transit_key else m.provider_key;
}

unfoldable pub metadata_backend_key : KeyMetadata → Text
metadata_backend_key m = if not (is_empty m.provider_key) then m.provider_key else m.transit_key

-- `transitKeyInfo`: for each version, by its text, the public key in it, empty where there is none.
pub record TransitKeyInfo : Type 0 where
  pub latest_version : ℕ
  pub public_key : Text
  pub keys : List (Text × Text)

-- the public key of a version, empty where there is none
unfoldable pub version_key : Text → List (Text × Text) → Text
version_key v [] = []
version_key v ((w, k) ∷ keys) = if text_eq w v then k else version_key v keys

-- `versionNum > latestVersion`, where the latest is -1 at first
unfoldable pub is_higher : Option ℤ → Option (ℕ × Text) → Option ℕ
is_higher (some (pos n)) none = some n
is_higher (some (pos n)) (some best) = if ltb best.0 n then some n else none
is_higher (some (negsuc n)) best = none
is_higher none best = none

-- The loop for the highest version that has a key: none yet, or the best so far. A version that is no
-- number is passed over.
unfoldable pub highest : Option (ℕ × Text) → List (Text × Text) → Text
highest best [] = elim best [ none ↦ [] | some b ↦ b.1 ]
highest best ((v, k) ∷ keys) =
    let without = highest best keys in
    if is_empty k
    then without
    else elim (is_higher (atoi v) best) [ none ↦ without | some n ↦ highest (some (n, k)) keys ]

unfoldable pub exported_public_key : TransitKeyInfo → Text
exported_public_key t =
    let latest = version_key (itoa (pos t.latest_version)) t.keys in
    if not (is_empty t.public_key)
    then t.public_key
    else if not (t.latest_version == 0) && not (is_empty latest)
    then latest
    else highest none t.keys

-- The calls; those about metadata name the tenant's namespace and the key id in their path.
pub data Call : Type 0 where
  gets_metadata : Text → Text → Call
  puts_metadata : Text → Text → KeyMetadata → Call
  encrypts decrypts : Text → Text → Call
  generates_data_key : Text → ℕ → Call
  rotates reads_key : Text → Call

pub data ApiError : Type 0 where
  status_code : ℕ → ApiError
  transport : ApiError

pub record OpenBao : Type 0 where
  pub metadata : List Call → Result ApiError KeyMetadata
  pub done : List Call → Result ApiError (Unit {0})
  pub text : List Call → Result ApiError Text
  pub data_key : List Call → Result ApiError (Text × Text)
  pub key_info : List Call → Result ApiError TransitKeyInfo

-- What a handler can answer in place of a response.
pub data Status : Type 0 where
  invalid_argument permission_denied internal failed_precondition unimplemented : Status

-- A handler: from the calls so far to its result and the calls then.
abbrev pub M : Type 0 → Type 0
M A = Traced Call Status A

-- `if b { return nil, status.Error(…) }`
abbrev pub refuse_if : Bool → Status → M (Unit {0})
refuse_if b s h = (if b then err s else ok tt, h)

-- the result of a check, with its error as this status
abbrev pub checked : {E A : Type 0} → Status → Result E A → M A
checked s r h = (elim r [ ok a ↦ ok a | err e ↦ err s ], h)

-- one call, with its error as this status
abbrev pub call : {A : Type 0} → (List Call → Result ApiError A) → Call → Status → M A
call reply c s h = (elim (reply (c ∷ h)) [ ok a ↦ ok a | err e ↦ err s ], c ∷ h)
