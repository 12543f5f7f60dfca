-- ===== src/Kms/Tests.antt =====
-- The key management plugin on concrete inputs.
use orbitport.Base.{
  ℕ, ◌≡◌, ◌≢◌, refl, List, [], ◌++◌, arith, ◌↔◌, ◌⊎◌, true, length, take, replicate, length-take,
  length-append,
}
use orbitport.Base.Result.{ok}
use orbitport.Text.{
  Text, lit, text_eq, trim_space, trim_func, trim_left, trim_right, is_space, strip_prefix,
  byte_len, split, starts_with, ends_with, utf8,
}
use orbitport.Hex
use orbitport.Kms.Spec.{
  supports_encryption, supports_signing, validate_transit_key_usage, validate_ethereum_key_usage,
  validate_pqc_key_usage, ecdsa_p256, ecc_secg_p256k1, sign_verify, encrypt_decrypt,
}
use orbitport.Kms.Spec.Usage.{validators_exclusive, validate_transit_key_usage_iff}
use orbitport.Kms.Tenant.{
  canonical_alias, canonical_key_id, resolve_key_ref, validate_alias, all_chars, is_alias_char,
  tenant_namespace, tenant_namespace_for_bytes, scoped_backend_key, has_prefix, trim_prefix,
}
use orbitport.Kms.Tenant.Canonical.{Canonical, resolve_key_ref-Canonical}
use orbitport.Kms.Tenant.Scope.{scoped_backend_key-injective}
use orbitport.Kms.KeyStore.{
  StoreClient, normalize_key_store_name, validate_segments, validate_key_store_segment,
  is_segment_char, key_store_data_path, key_store_metadata_path, owner_parts, join_path,
}
use orbitport.Kms.KeyStore.Names.{NormalName, normalize_key_store_name-NormalName}
use orbitport.Kms.KeyStore.Paths.{onto, key_store_paths-below_owner, key_store_data_path-injective}

validators_exclusive_example :
    ¬ (
      (validate_transit_key_usage ecdsa_p256 sign_verify ≡ ok tt)
      × (validate_ethereum_key_usage ecdsa_p256 sign_verify ≡ ok tt))
    × ¬ (
        (validate_transit_key_usage ecdsa_p256 sign_verify ≡ ok tt)
        × (validate_pqc_key_usage ecdsa_p256 sign_verify ≡ ok tt))
    × ¬ (
        (validate_ethereum_key_usage ecdsa_p256 sign_verify ≡ ok tt)
        × (validate_pqc_key_usage ecdsa_p256 sign_verify ≡ ok tt))
validators_exclusive_example = validators_exclusive ecdsa_p256 sign_verify

validate_transit_key_usage_iff_example :
    (validate_transit_key_usage ecdsa_p256 sign_verify ≡ ok tt) ↔ (
      ((supports_encryption ecdsa_p256 ≡ true) × (sign_verify ≡ encrypt_decrypt))
      ⊎ ((supports_signing ecdsa_p256 ≡ true)
          × (ecdsa_p256 ≢ ecc_secg_p256k1)
          × (sign_verify ≡ sign_verify)))
validate_transit_key_usage_iff_example = validate_transit_key_usage_iff ecdsa_p256 sign_verify

key_resolved : resolve_key_ref (lit " kms:my-key ") ≡ ok (lit "kms:my-key", lit "my-key")
unfolding resolve_key_ref canonical_alias validate_alias all_chars is_alias_char trim_space
    trim_func trim_left trim_right is_space strip_prefix byte_len has_prefix trim_prefix
key_resolved = refl

resolve_key_ref-Canonical_example :
    Canonical (lit "my-key")
    × (canonical_key_id (lit "my-key") ≡ ok (lit "kms:my-key"))
    × (resolve_key_ref (lit "kms:my-key") ≡ ok (lit "kms:my-key", lit "my-key"))
    × (resolve_key_ref (lit "my-key") ≡ ok (lit "kms:my-key", lit "my-key"))
resolve_key_ref-Canonical_example =
    resolve_key_ref-Canonical (lit " kms:my-key ") (lit "kms:my-key") (lit "my-key") key_resolved

-- a stand-in for SHA-256
abbrev sha256 : List ℕ → List ℕ
sha256 m = take 32 (m ++ replicate 32 0)

is_32_bytes : (m : List ℕ) → length (sha256 m) ≡ 32
is_32_bytes m =
    omega (arith, length-take 32 (m ++ replicate 32 0), length-append m (replicate 32 0))

abbrev backend_key : Text
backend_key = lit "tenant_61000000000000000000000000000000_my-key"

scoped : scoped_backend_key sha256 (lit "a") (lit "my-key") ≡ ok backend_key
unfolding scoped_backend_key tenant_namespace tenant_namespace_for_bytes canonical_alias
    validate_alias all_chars is_alias_char trim_space trim_func trim_left trim_right is_space
    strip_prefix byte_len has_prefix utf8 Hex.encode Hex.digit
scoped = refl

also_scoped : scoped_backend_key sha256 (lit " a") (lit "my-key ") ≡ ok backend_key
unfolding scoped_backend_key tenant_namespace tenant_namespace_for_bytes canonical_alias
    validate_alias all_chars is_alias_char trim_space trim_func trim_left trim_right is_space
    strip_prefix byte_len has_prefix utf8 Hex.encode Hex.digit
also_scoped = refl

scoped_backend_key-injective_example :
    (tenant_namespace sha256 (lit "a") ≡ tenant_namespace sha256 (lit " a"))
    × (canonical_alias (lit "my-key") ≡ canonical_alias (lit "my-key "))
scoped_backend_key-injective_example =
    scoped_backend_key-injective sha256 is_32_bytes (lit "a") (lit " a") (lit "my-key")
      (lit "my-key ") backend_key scoped also_scoped

name_normal : normalize_key_store_name (lit " app/db_url") ≡ ok (lit "app/db_url")
unfolding normalize_key_store_name validate_segments validate_key_store_segment is_segment_char
    all_chars trim_space trim_func trim_left trim_right is_space byte_len split starts_with
    ends_with text_eq
name_normal = refl

climbing_refused : normalize_key_store_name (lit "app/../x") ≢ ok (lit "app/../x")
unfolding normalize_key_store_name validate_segments validate_key_store_segment is_segment_char
    all_chars trim_space trim_func trim_left trim_right is_space byte_len split starts_with
    ends_with text_eq
climbing_refused = λ e. cc

normalize_key_store_name-NormalName_example : NormalName (lit "app/db_url")
normalize_key_store_name-NormalName_example =
    normalize_key_store_name-NormalName (lit " app/db_url") (lit "app/db_url") name_normal

abbrev store : StoreClient
store = record { rooted = true; base_path = []; key_store_mount = lit "keystore" }

key_store_paths-below_owner_example :
    (key_store_data_path sha256 store (lit "a") (lit "app/db_url")
      ≡ ok (
          onto
            (split b'/' (lit "app/db_url"))
            (join_path store (owner_parts sha256 store (lit "data") (lit "a")))))
    × (key_store_metadata_path sha256 store (lit "a") (lit "app/db_url")
        ≡ ok (
            onto
              (split b'/' (lit "app/db_url"))
              (join_path store (owner_parts sha256 store (lit "metadata") (lit "a")))))
key_store_paths-below_owner_example =
    key_store_paths-below_owner sha256 store (lit "a") (lit " app/db_url") (lit "app/db_url")
      name_normal

key_store_data_path-injective_example : lit "app/db_url" ≡ lit "app/db_url"
key_store_data_path-injective_example =
    key_store_data_path-injective sha256 store (lit "a") (lit " app/db_url") (lit " app/db_url")
      (lit "app/db_url") (lit "app/db_url") name_normal name_normal refl
