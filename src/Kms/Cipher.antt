-- ===== src/Kms/Cipher.antt =====
-- The handlers of plugins/pkg/plugin/kms/plugin.go that encrypt, decrypt, make data keys and rotate,
-- with the transit provider (transit_provider.go) behind them: only that provider does these four.
pub mod Guarded
pub mod Decrypting
pub mod Encrypting
pub mod Rotating
mod Tests
use orbitport.Base.{
  ℕ, Bool, true, false, not, List, [], ◌∷◌, Option, none, some, ◌==◌, ◌||◌, ◌&&◌, if◌then◌else◌,
}
use orbitport.Base.Traced.{Traced, ◌>>=◌, ◌>>◌, return, lift, >>=-ok, step_ok, step_err}
use orbitport.Base.Result.{Result, ok, err}
use orbitport.Text.{Text, text_eq, is_empty}
use orbitport.Kms.Spec.{
  transit, normalize_scheme, supports_encryption, encrypt_decrypt, normalize_encryption_algorithm,
  data_key_bits, aes_256_gcm96,
}
use orbitport.Kms.Tenant.{resolve_key_ref, require_client_id, tenant_namespace}
use orbitport.Kms.Blob.{
  CiphertextBlob, Json, blob_backend_key, encode_ciphertext_blob, decode_ciphertext_blob,
}
use orbitport.Kms.Calls.{
  KeyMetadata, normalize_metadata, metadata_backend_key, TransitKeyInfo, exported_public_key, Call,
  gets_metadata, puts_metadata, encrypts, decrypts, generates_data_key, rotates, reads_key,
  ApiError, status_code, OpenBao, Status, invalid_argument, permission_denied, internal,
  failed_precondition, unimplemented, M, refuse_if, checked, call,
}

-- `optionalString`, `optionalUint32`
abbrev pub optional_string : Option Text → Text
optional_string none = []
optional_string (some t) = t

abbrev pub optional_uint32 : Option ℕ → ℕ
optional_uint32 none = 0
optional_uint32 (some n) = n

pub record DecryptRequest : Type 0 where
  pub client_id : Text
  pub blob : Text
  pub key_id : Option Text

pub record DecryptResponse : Type 0 where
  pub plaintext : Text
  pub key_id : Text
  pub algorithm : Text

pub record EncryptRequest : Type 0 where
  pub client_id : Text
  pub key_id : Text
  pub plaintext : Text
  pub algorithm : Option Text

pub record EncryptResponse : Type 0 where
  pub blob : Text
  pub key_id : Text
  pub algorithm : Text

pub record DataKeyRequest : Type 0 where
  pub client_id : Text
  pub key_id : Text
  pub data_key_spec : Option Text
  pub number_of_bytes : Option ℕ

pub record DataKeyResponse : Type 0 where
  pub key_id : Text
  pub plaintext : Text
  pub blob : Text

-- how `metadataProvider` reports a failed read of the metadata
unfoldable pub read_status : ApiError → Status
read_status (status_code c) = if c == 404 then permission_denied else internal
read_status _ = internal

-- `record.ClientID != "" && record.ClientID != clientID`
unfoldable pub foreign_owner : Text → KeyMetadata → Bool
foreign_owner client_id m = not (is_empty m.client_id) && not (text_eq m.client_id client_id)

-- `getMetadata` behind its call, with its errors as `metadataProvider` reports them
unfoldable pub read_metadata : Text → Result ApiError KeyMetadata → Result Status KeyMetadata
read_metadata client_id (err e) = err (read_status e)
read_metadata client_id (ok raw) =
    let m = normalize_metadata raw in if foreign_owner client_id m then err internal else ok m

-- whether the provider of a scheme is the transit provider; a scheme without a provider is an error
unfoldable pub provider_for_scheme : Text → M Bool
provider_for_scheme scheme = do
  normalized ← checked invalid_argument (normalize_scheme scheme)
  return (text_eq normalized transit)

-- the key id of the request, where it has one, is that of the blob
unfoldable pub check_key_id : Option Text → CiphertextBlob → M (Unit {0})
check_key_id none blob = return tt
check_key_id (some key_ref) blob = do
  resolved ← checked invalid_argument (resolve_key_ref key_ref)
  refuse_if (not (text_eq resolved.0 blob.key_id)) invalid_argument

module _ (sha256 : List ℕ → List ℕ) (bao : OpenBao) where
  unfoldable pub get_metadata : Text → Text → M KeyMetadata
  get_metadata client_id key_id h =
      let asked = gets_metadata (tenant_namespace sha256 client_id) key_id ∷ h in
      (read_metadata client_id (bao.metadata asked), asked)

  unfoldable pub metadata_provider : Text → Text → M (KeyMetadata × Bool)
  metadata_provider client_id key_id = do
    resolved ← checked invalid_argument (resolve_key_ref key_id)
    metadata ← get_metadata client_id resolved.0
    is_transit ← provider_for_scheme metadata.scheme
    return (metadata, is_transit)

  -- the transit provider's part
  unfoldable pub transit_decrypt : CiphertextBlob → M DecryptResponse
  transit_decrypt blob = do
    plaintext ← call bao.text (decrypts (blob_backend_key blob) blob.ciphertext) internal
    return (record { plaintext = plaintext; key_id = blob.key_id; algorithm = blob.algorithm })

  unfoldable pub decrypt : Json → DecryptRequest → M DecryptResponse
  decrypt json req = do
    checked invalid_argument (require_client_id req.client_id)
    blob ← checked invalid_argument (decode_ciphertext_blob json req.blob)
    check_key_id req.key_id blob
    found ← metadata_provider req.client_id blob.key_id
    refuse_if
        (not (text_eq found.0.key_id blob.key_id)
          || not (text_eq (metadata_backend_key found.0) (blob_backend_key blob)))
        permission_denied
    refuse_if (not found.1) failed_precondition
    transit_decrypt blob

  unfoldable pub transit_encrypt : Json → KeyMetadata → EncryptRequest → M EncryptResponse
  transit_encrypt json m req = do
    algorithm ←
        checked invalid_argument (normalize_encryption_algorithm (optional_string req.algorithm))
    refuse_if (not (supports_encryption m.key_spec) || not (text_eq m.key_usage encrypt_decrypt))
        failed_precondition
    ciphertext ← call bao.text (encrypts (metadata_backend_key m) req.plaintext) internal
    return (record {
      blob =
          encode_ciphertext_blob json m.scheme m.key_id (metadata_backend_key m) ciphertext
            algorithm;
      key_id = m.key_id;
      algorithm = algorithm;
    })

  unfoldable pub encrypt : Json → EncryptRequest → M EncryptResponse
  encrypt json req = do
    checked invalid_argument (require_client_id req.client_id)
    found ← metadata_provider req.client_id req.key_id
    refuse_if (not found.1) failed_precondition
    transit_encrypt json found.0 req

  unfoldable pub transit_data_key : Json → KeyMetadata → DataKeyRequest → M DataKeyResponse
  transit_data_key json m req = do
    refuse_if (not (supports_encryption m.key_spec) || not (text_eq m.key_usage encrypt_decrypt))
        failed_precondition
    bits ←
        checked invalid_argument
          (data_key_bits (optional_string req.data_key_spec) (optional_uint32 req.number_of_bytes))
    pair ← call bao.data_key (generates_data_key (metadata_backend_key m) bits) internal
    return (record {
      key_id = m.key_id;
      plaintext = pair.0;
      blob =
          encode_ciphertext_blob json m.scheme m.key_id (metadata_backend_key m) pair.1
            aes_256_gcm96;
    })

  unfoldable pub generate_data_key : Json → DataKeyRequest → M DataKeyResponse
  generate_data_key json req = do
    checked invalid_argument (require_client_id req.client_id)
    found ← metadata_provider req.client_id req.key_id
    refuse_if (not found.1) failed_precondition
    transit_data_key json found.0 req

  -- `rotateTransitKey` and `transitProvider.RotateKey`
  unfoldable pub transit_rotate : KeyMetadata → M KeyMetadata
  transit_rotate m = do
    call bao.done (rotates (metadata_backend_key m)) internal
    info ← call bao.key_info (reads_key (metadata_backend_key m)) internal
    return
        (record m { primary_version = info.latest_version; public_key = exported_public_key info })

  unfoldable pub rotate_key : Text → Text → M KeyMetadata
  rotate_key client_id key_id = do
    checked invalid_argument (require_client_id client_id)
    found ← metadata_provider client_id key_id
    refuse_if (not found.1) unimplemented
    rotated ← transit_rotate found.0
    let updated = normalize_metadata rotated
    call bao.done (puts_metadata (tenant_namespace sha256 client_id) updated.key_id updated)
        internal
    return updated
