-- ===== src/Kms/Spec.antt =====
-- plugins/pkg/plugin/kms/mapping.go: which key specifications, usages and algorithms go together.
pub mod Usage
pub mod DataKey
use orbitport.Base.{
  ℕ, ◌*◌, Bool, true, false, not, List, [], ◌∷◌, ltb, ◌==◌, ◌||◌, ◌&&◌, if◌then◌else◌,
}
use orbitport.Base.Result.{Result, ok, err}
use orbitport.Text.{Text, text_eq, is_empty, lit}

pub data SpecError : Type 0 where
  unsupported_key_spec unsupported_scheme aes_must_encrypt asymmetric_must_sign : SpecError
  ethereum_must_use_secp256k1 ethereum_must_sign mldsa_must_sign mlkem_must_agree : SpecError
  not_a_pqc_spec unsupported_encryption_algorithm exactly_one_size unsupported_data_key_spec :
      SpecError
  unsupported_message_type ethereum_algorithm unsupported_signing_algorithm : SpecError

abbrev pub aes128 : Text
aes128 = lit "AES_128"

abbrev pub aes256 : Text
aes256 = lit "AES_256"

abbrev pub encrypt_decrypt : Text
encrypt_decrypt = lit "ENCRYPT_DECRYPT"

abbrev pub key_agreement : Text
key_agreement = lit "KEY_AGREEMENT"

abbrev pub sign_verify : Text
sign_verify = lit "SIGN_VERIFY"

abbrev pub ecc_secg_p256k1 : Text
ecc_secg_p256k1 = lit "ECC_SECG_P256K1"

abbrev pub ecdsa_p256 : Text
ecdsa_p256 = lit "ECDSA_P256"

abbrev pub ecdsa_p384 : Text
ecdsa_p384 = lit "ECDSA_P384"

abbrev pub ed25519 : Text
ed25519 = lit "ED25519"

abbrev pub rsa_4096 : Text
rsa_4096 = lit "RSA_4096"

abbrev pub aes_256_gcm96 : Text
aes_256_gcm96 = lit "AES_256_GCM96"

abbrev pub ml_kem_768 : Text
ml_kem_768 = lit "ML_KEM_768"

abbrev pub ml_kem_1024 : Text
ml_kem_1024 = lit "ML_KEM_1024"

abbrev pub ml_dsa_44 : Text
ml_dsa_44 = lit "ML_DSA_44"

abbrev pub ml_dsa_65 : Text
ml_dsa_65 = lit "ML_DSA_65"

abbrev pub ml_dsa_87 : Text
ml_dsa_87 = lit "ML_DSA_87"

abbrev pub transit : Text
transit = lit "TRANSIT"

abbrev pub ethereum : Text
ethereum = lit "ETHEREUM"

abbrev pub pqc : Text
pqc = lit "PQC"

-- a `switch` whose cases share one body
unfoldable pub one_of : Text → List Text → Bool
one_of s [] = false
one_of s (t ∷ ts) = text_eq s t || one_of s ts

abbrev pub transit_specs : List Text
transit_specs = ecdsa_p256 ∷ ecdsa_p384 ∷ ed25519 ∷ rsa_4096 ∷ aes_256_gcm96 ∷ []

unfoldable pub validate_transit_key_spec : Text → Result SpecError (Unit {0})
validate_transit_key_spec spec =
    if one_of spec transit_specs then ok tt else err unsupported_key_spec

unfoldable pub transit_key_type : Text → Result SpecError Text
transit_key_type spec = elim (validate_transit_key_spec spec) [
  | err e ↦ err e
  | ok _ ↦
      if text_eq spec aes_256_gcm96
      then ok (lit "aes256-gcm96")
      else if text_eq spec ecdsa_p256
      then ok (lit "ecdsa-p256")
      else if text_eq spec ecdsa_p384
      then ok (lit "ecdsa-p384")
      else if text_eq spec ed25519
      then ok (lit "ed25519")
      else if text_eq spec rsa_4096
      then ok (lit "rsa-4096")
      else err unsupported_key_spec
]

unfoldable pub normalize_scheme : Text → Result SpecError Text
normalize_scheme scheme =
    if is_empty scheme || text_eq scheme transit
    then ok transit
    else if text_eq scheme ethereum
    then ok ethereum
    else if text_eq scheme pqc
    then ok pqc
    else err unsupported_scheme

unfoldable pub supports_encryption : Text → Bool
supports_encryption spec = text_eq spec aes_256_gcm96

unfoldable pub supports_signing : Text → Bool
supports_signing spec =
    one_of spec (ecdsa_p256 ∷ ecdsa_p384 ∷ ed25519 ∷ rsa_4096 ∷ ecc_secg_p256k1 ∷ [])

unfoldable pub validate_transit_key_usage : Text → Text → Result SpecError (Unit {0})
validate_transit_key_usage spec usage = elim (validate_transit_key_spec spec) [
  | err e ↦ err e
  | ok _ ↦
      if text_eq spec aes_256_gcm96
      then (if text_eq usage encrypt_decrypt then ok tt else err aes_must_encrypt)
      else (if text_eq usage sign_verify then ok tt else err asymmetric_must_sign)
]

unfoldable pub validate_ethereum_key_usage : Text → Text → Result SpecError (Unit {0})
validate_ethereum_key_usage spec usage =
    if not (text_eq spec ecc_secg_p256k1)
    then err ethereum_must_use_secp256k1
    else if not (text_eq usage sign_verify)
    then err ethereum_must_sign
    else ok tt

unfoldable pub is_pqc_signing_key : Text → Bool
is_pqc_signing_key spec = one_of spec (ml_dsa_44 ∷ ml_dsa_65 ∷ ml_dsa_87 ∷ [])

unfoldable pub is_pqc_kem_key : Text → Bool
is_pqc_kem_key spec = one_of spec (ml_kem_768 ∷ ml_kem_1024 ∷ [])

unfoldable pub validate_pqc_key_usage : Text → Text → Result SpecError (Unit {0})
validate_pqc_key_usage spec usage =
    if is_pqc_signing_key spec
    then (if text_eq usage sign_verify then ok tt else err mldsa_must_sign)
    else if is_pqc_kem_key spec
    then (if text_eq usage key_agreement then ok tt else err mlkem_must_agree)
    else err not_a_pqc_spec

unfoldable pub pqc_mldsa_variant : Text → Result SpecError Text
pqc_mldsa_variant spec =
    if text_eq spec ml_dsa_44
    then ok (lit "ml-dsa-44")
    else if text_eq spec ml_dsa_65
    then ok (lit "ml-dsa-65")
    else if text_eq spec ml_dsa_87
    then ok (lit "ml-dsa-87")
    else err unsupported_key_spec

unfoldable pub pqc_mlkem_variant : Text → Result SpecError Text
pqc_mlkem_variant spec =
    if text_eq spec ml_kem_768
    then ok (lit "ml-kem-768")
    else if text_eq spec ml_kem_1024
    then ok (lit "ml-kem-1024")
    else err unsupported_key_spec

unfoldable pub normalize_encryption_algorithm : Text → Result SpecError Text
normalize_encryption_algorithm algorithm =
    if is_empty algorithm || text_eq algorithm aes_256_gcm96
    then ok aes_256_gcm96
    else err unsupported_encryption_algorithm

-- `hasSpec == hasSize`
abbrev both_or_neither : Bool → Bool → Bool
both_or_neither true b = b
both_or_neither false b = not b

-- The bits of a data key; the number of bytes is 32 bits wide, and the product fits in an `int`.
unfoldable pub data_key_bits : Text → ℕ → Result SpecError ℕ
data_key_bits spec bytes =
    if both_or_neither (not (is_empty spec)) (ltb 0 bytes)
    then err exactly_one_size
    else if is_empty spec
    then ok (bytes * 8)
    else if text_eq spec aes128
    then ok 128
    else if text_eq spec aes256
    then ok 256
    else err unsupported_data_key_spec

pub record SignMapping : Type 0 where
  pub path_algorithm : Text
  pub signature_algorithm : Text
  pub prehashed : Bool

abbrev mapping : Text → Text → Bool → Result SpecError SignMapping
mapping path signature prehashed =
    ok (record { path_algorithm = path; signature_algorithm = signature; prehashed = prehashed })

unfoldable pub signing_config : Text → Text → Result SpecError SignMapping
signing_config algorithm message_type =
    let prehashed = text_eq message_type (lit "DIGEST") in
    let kind = if is_empty message_type then lit "RAW" else message_type in
    if not (one_of kind (lit "RAW" ∷ lit "DIGEST" ∷ lit "EIP191" ∷ []))
    then err unsupported_message_type
    else if text_eq algorithm (lit "ECDSA_SHA_256")
    then mapping (lit "sha2-256") [] prehashed
    else if text_eq algorithm (lit "ECDSA_SHA_384")
    then mapping (lit "sha2-384") [] prehashed
    else if text_eq algorithm ed25519
    then mapping (lit "sha2-512") [] prehashed
    else if text_eq algorithm (lit "RSASSA_PKCS1_V1_5_SHA_256")
    then mapping (lit "sha2-256") (lit "pkcs1v15") prehashed
    else if text_eq algorithm (lit "RSASSA_PSS_SHA_256")
    then mapping (lit "sha2-256") (lit "pss") prehashed
    else if text_eq algorithm (lit "ETHEREUM_SECP256K1")
    then err ethereum_algorithm
    else err unsupported_signing_algorithm
