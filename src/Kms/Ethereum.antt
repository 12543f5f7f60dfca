-- ===== src/Kms/Ethereum.antt =====
-- plugins/pkg/plugin/kms/ethereum_provider.go: signing with an Ethereum key, with the two calls of
-- openbao.go behind it. OpenBao answers from the calls so far, newest first; the
-- Keccak hash is an argument.
pub mod Hashing
pub mod Signing
pub mod Prehashed
mod Tests
use orbitport.Base.{
  ℕ, Bool, not, List, [], ◌∷◌, ◌++◌, Option, none, some, ◌==◌, ◌||◌, if◌then◌else◌, length,
}
use orbitport.Base.Result.{Result, ok, err}
use orbitport.Base.Traced.{Traced, ◌>>=◌, ◌>>◌, return, lift}
use orbitport.Text.{Text, lit, text_eq, is_empty, strip_prefix}
use orbitport.Hex
use orbitport.Base64.Codec.{decode, std_encoding}
use orbitport.Kms.Spec.{ecc_secg_p256k1, sign_verify}
use orbitport.Kms.Calls.{
  KeyMetadata, metadata_backend_key, Status, invalid_argument, internal, failed_precondition,
}
use orbitport.Kms.Cipher.{optional_string}

abbrev pub ethereum_secp256k1 : Text
ethereum_secp256k1 = lit "ETHEREUM_SECP256K1"

abbrev pub message_raw : Text
message_raw = lit "RAW"

abbrev pub message_eip191 : Text
message_eip191 = lit "EIP191"

abbrev pub message_digest : Text
message_digest = lit "DIGEST"

abbrev pub raw_hash_method : Text
raw_hash_method = lit "raw_hash"

-- the calls, with the name of the key
pub data EthereumCall : Type 0 where
  signs_hash signs_message : Text → Text → EthereumCall

pub record EthereumSignInfo : Type 0 where
  pub signature : Text
  pub hash : Text
  pub method : Text
  pub address : Text

pub record SignRequest : Type 0 where
  pub message : Text
  pub signing_algorithm : Text
  pub message_type : Option Text

pub record SignResponse : Type 0 where
  pub key_id : Text
  pub signature : Text
  pub signing_algorithm : Text

pub data HashError : Type 0 where
  raw_not_base64 digest_not_bytes digest_length : HashError
  hash_mismatch method_mismatch : HashError

abbrev pub M : Type 0 → Type 0
M A = Traced EthereumCall Status A

-- the hash behind what the base64 decoder gives
unfoldable pub hash_of : (List ℕ → List ℕ) → Option (List ℕ) → Result HashError Text
hash_of keccak none = err raw_not_base64
hash_of keccak (some bytes) = ok (lit "0x" ++ Hex.encode (keccak bytes))

unfoldable pub raw_ethereum_hash : (List ℕ → List ℕ) → Text → Result HashError Text
raw_ethereum_hash keccak message = hash_of keccak (decode std_encoding message)

-- the bytes of a digest: in hexadecimal behind the prefix, and otherwise in base64
unfoldable pub digest_bytes : Text → Option (List ℕ)
digest_bytes message = elim (strip_prefix (lit "0x") message) [
  | some rest ↦ Hex.decode_string rest
  | none ↦ elim (strip_prefix (lit "0X") message) [
    | some rest ↦ Hex.decode_string rest
    | none ↦ decode std_encoding message
  ]
]

unfoldable pub checked_digest : Option (List ℕ) → Result HashError Text
checked_digest none = err digest_not_bytes
checked_digest (some bytes) =
    if not (length bytes == 32) then err digest_length else ok (lit "0x" ++ Hex.encode bytes)

unfoldable pub normalize_ethereum_digest : Text → Result HashError Text
normalize_ethereum_digest message = checked_digest (digest_bytes message)

unfoldable pub validate_hash_response : EthereumSignInfo → Text → Text → Result HashError (Unit {0})
validate_hash_response info hash method =
    if not (text_eq info.hash hash)
    then err hash_mismatch
    else if not (text_eq info.method method)
    then err method_mismatch
    else ok tt

-- an error of a check, reported with this status
unfoldable pub reported : {A : Type 0} → Status → Result HashError A → Result Status A
reported s (ok a) = ok a
reported s (err e) = err s

abbrev pub refuse_if : Bool → Status → M (Unit {0})
refuse_if b s h = (if b then err s else ok tt, h)

module _ (keccak : List ℕ → List ℕ) (reply : List EthereumCall → Option EthereumSignInfo) where
  abbrev pub ask : EthereumCall → M EthereumSignInfo
  ask c h = (elim (reply (c ∷ h)) [ some info ↦ ok info | none ↦ err internal ], c ∷ h)

  -- the request to sign a hash, with the check that the answer is about that hash
  unfoldable pub sign_hash : Text → Text → M Text
  sign_hash key hash = do
    info ← ask (signs_hash key hash)
    lift (reported internal (validate_hash_response info hash raw_hash_method))
    return info.signature

  unfoldable pub sign_message : Text → Text → M Text
  sign_message key message = do info ← ask (signs_message key message); return info.signature

  unfoldable pub sign_by_type : Text → Text → Text → M Text
  sign_by_type message_type key message =
      let raw =
        lift (reported invalid_argument (raw_ethereum_hash keccak message)) >>= sign_hash key in
      let digest =
        lift (reported invalid_argument (normalize_ethereum_digest message)) >>= sign_hash key in
      if is_empty message_type || text_eq message_type message_raw
      then raw
      else if text_eq message_type message_eip191
      then sign_message key message
      else if text_eq message_type message_digest
      then digest
      else lift (err invalid_argument)

  unfoldable pub sign : KeyMetadata → SignRequest → M SignResponse
  sign m req = do
    refuse_if (not (text_eq m.key_spec ecc_secg_p256k1) || not (text_eq m.key_usage sign_verify))
        failed_precondition
    refuse_if (not (text_eq req.signing_algorithm ethereum_secp256k1)) invalid_argument
    signature ← sign_by_type (optional_string req.message_type) (metadata_backend_key m) req.message
    return (record {
      key_id = m.key_id;
      signature = signature;
      signing_algorithm = req.signing_algorithm;
    })
