-- ===== src/Kms/Cipher/Tests.antt =====
-- A ciphertext that its owner decrypts, and that another client does not.
use orbitport.Base.{
  ◌∷◌, ℕ, ◌≡◌, ◌≢◌, refl, List, [], ◌++◌, ◌<◌, Bool, true, none, some, take, replicate, ltb, ◌==◌,
  ◌&&◌, if◌then◌else◌, arith,
}
use orbitport.Base.Result.{ok, err}
use orbitport.Text.{
  Text, lit, text_eq, trim_space, trim_func, trim_left, trim_right, is_space, strip_prefix,
  byte_len, utf8, split,
}
use orbitport.Hex
use orbitport.Base.All.{All}
use orbitport.Base.Int.{pos, negsuc}
use orbitport.Base64
use orbitport.Base64.Codec.{
  decode, decode_quanta, drop_breaks, value?, one_byte, two_bytes, three_bytes,
}
use orbitport.Kms.Spec.{normalize_scheme}
use orbitport.Kms.Tenant.{
  canonical_alias, resolve_key_ref, validate_alias, all_chars, is_alias_char, has_prefix,
  trim_prefix, require_client_id, tenant_namespace, tenant_namespace_for_bytes,
}
use orbitport.Kms.Blob.{
  CiphertextBlob, Json, Members, Value, integer, string, null, other, new_blob, members_of,
  omit_empty, fold_char, read_text, read_int, read_member, read_members, parse_blob, check_blob,
  blob_backend_key, normalize_blob, encode_ciphertext_blob, is_version_1, decode_ciphertext_blob,
}
use orbitport.Kms.Blob.RoundTrip.{ReadsBack, decode_ciphertext_blob-encode}
use orbitport.Kms.Calls.{
  KeyMetadata, normalize_metadata, metadata_backend_key, status_code, OpenBao,
}
use orbitport.Kms.Cipher.{
  EncryptRequest, encrypt, DecryptRequest, foreign_owner, read_metadata, provider_for_scheme,
  get_metadata, metadata_provider, transit_decrypt, check_key_id, decrypt,
}
use orbitport.Kms.Calls.{Call}
use orbitport.Kms.Cipher.{rotate_key}
use orbitport.Kms.Cipher.Encrypting
use orbitport.Kms.Cipher.Encrypting.{encrypt-Ends}
use orbitport.Kms.Cipher.Decrypting.{Ends, decrypt-Ends}

abbrev sha256 : List ℕ → List ℕ
sha256 m = take 32 (m ++ replicate 32 0)

abbrev metadata : KeyMetadata
metadata = record {
  key_id = lit "kms:k";
  client_id = lit "a";
  alias = lit "k";
  scheme = lit "TRANSIT";
  provider_key = lit "tenant_k";
  transit_key = [];
  description = [];
  key_spec = lit "AES_256_GCM96";
  key_usage = lit "ENCRYPT_DECRYPT";
  enabled = true;
  primary_version = 1;
  created_at = [];
  public_key = [];
  address = [];
  tags = [];
}

-- It answers every read with the same record.
abbrev bao : OpenBao
bao = record {
  metadata = λ h. ok metadata;
  done = λ h. ok tt;
  text = λ h. ok (lit "secret");
  data_key = λ h. err (status_code 500);
  key_info = λ h. err (status_code 500);
}

-- The members of an object one after the other, each as its name, a kind, its value and a zero byte.
abbrev write : Members → List ℕ
write [] = []
write ((key, string t) ∷ ms) = key ++ (0 ∷ b's' ∷ t) ++ (0 ∷ write ms)
write ((key, integer (pos n)) ∷ ms) = key ++ (0 ∷ b'i' ∷ n ∷ []) ++ (0 ∷ write ms)
write ((key, integer (negsuc n)) ∷ ms) = key ++ (0 ∷ b'j' ∷ n ∷ []) ++ (0 ∷ write ms)
write ((key, null) ∷ ms) = key ++ (0 ∷ b'n' ∷ []) ++ (0 ∷ write ms)
write ((key, other) ∷ ms) = key ++ (0 ∷ b'o' ∷ []) ++ (0 ∷ write ms)

abbrev value_of : Text → Value
value_of [] = other
value_of (c ∷ []) = if c == b's' then string [] else if c == b'n' then null else other
value_of (c ∷ n ∷ t) =
    if c == b's'
    then string (n ∷ t)
    else if c == b'i'
    then integer (pos n)
    else if c == b'j'
    then integer (negsuc n)
    else other

abbrev members_in : List Text → Members
members_in [] = []
members_in (key ∷ []) = []
members_in (key ∷ value ∷ parts) = (key, value_of value) ∷ members_in parts

abbrev json : Json
json = record { write = write; read = λ bytes. some (members_in (split 0 bytes)) }

abbrev blob : Text
blob =
    encode_ciphertext_blob json (lit "TRANSIT") (lit "kms:k") (lit "tenant_k") (lit "vault:v1:x")
      (lit "AES_256_GCM96")

abbrev request : Text → DecryptRequest
request client = record { client_id = client; blob = blob; key_id = some (lit "k") }

owner_decrypts :
    (decrypt sha256 bao json (request (lit "a")) []).0
    ≡ ok
        (record { plaintext = lit "secret"; key_id = lit "kms:k"; algorithm = lit "AES_256_GCM96" })
unfolding decrypt transit_decrypt check_key_id metadata_provider get_metadata read_metadata
    provider_for_scheme foreign_owner normalize_metadata metadata_backend_key normalize_scheme
    decode_ciphertext_blob encode_ciphertext_blob normalize_blob blob_backend_key is_version_1
    parse_blob check_blob members_of omit_empty read_members read_member read_text read_int
    fold_char split Base64.encode Base64.symbol decode decode_quanta drop_breaks value? one_byte
    two_bytes three_bytes require_client_id resolve_key_ref canonical_alias validate_alias all_chars
    is_alias_char has_prefix trim_prefix strip_prefix byte_len trim_space trim_func trim_left
    trim_right is_space text_eq tenant_namespace tenant_namespace_for_bytes utf8 Hex.encode
    Hex.digit
owner_decrypts = refl

decrypt-Ends_example :
    Ends sha256 bao json (request (lit "a")) [] (decrypt sha256 bao json (request (lit "a")) [])
decrypt-Ends_example = decrypt-Ends sha256 bao json (request (lit "a")) []

other_refused :
    (decrypt sha256 bao json (request (lit "b")) []).0
    ≢ ok
        (record { plaintext = lit "secret"; key_id = lit "kms:k"; algorithm = lit "AES_256_GCM96" })
unfolding decrypt transit_decrypt check_key_id metadata_provider get_metadata read_metadata
    provider_for_scheme foreign_owner normalize_metadata metadata_backend_key normalize_scheme
    decode_ciphertext_blob encode_ciphertext_blob normalize_blob blob_backend_key is_version_1
    parse_blob check_blob members_of omit_empty read_members read_member read_text read_int
    fold_char split Base64.encode Base64.symbol decode decode_quanta drop_breaks value? one_byte
    two_bytes three_bytes require_client_id resolve_key_ref canonical_alias validate_alias all_chars
    is_alias_char has_prefix trim_prefix strip_prefix byte_len trim_space trim_func trim_left
    trim_right is_space text_eq tenant_namespace tenant_namespace_for_bytes utf8 Hex.encode
    Hex.digit
other_refused = λ e. cc

abbrev are_bytes : List ℕ → Bool
are_bytes [] = true
are_bytes (b ∷ bs) = ltb b 256 && are_bytes bs

all_bytes : (bs : List ℕ) → are_bytes bs ≡ true → All (λ b. b < 256) bs
all_bytes [] h = tt
all_bytes (b ∷ bs) h = (ground arith, all_bytes bs (ground arith))

abbrev made : CiphertextBlob
made = new_blob (lit "TRANSIT") (lit "kms:k") (lit "key") (lit "c") (lit "AES")

made-ReadsBack : ReadsBack json (members_of made)
unfolding members_of omit_empty split
made-ReadsBack = record { bytes = all_bytes (write (members_of made)) refl; back = refl }

decode_ciphertext_blob-encode_example :
    decode_ciphertext_blob json
      (encode_ciphertext_blob json (lit "TRANSIT") (lit "kms:k") (lit "key") (lit "c") (lit "AES"))
    ≡ ok made
decode_ciphertext_blob-encode_example =
    decode_ciphertext_blob-encode json (lit "TRANSIT") (lit "kms:k") (lit "key") (lit "c")
      (lit "AES") made-ReadsBack (λ e. cc) (λ e. cc) (λ e. cc) (λ e. cc) (λ e. cc)

abbrev to_encrypt : EncryptRequest
to_encrypt = record {
  client_id = lit "a";
  key_id = lit "kms:k";
  plaintext = lit "secret";
  algorithm = none;
}

encrypt-Ends_example :
    Encrypting.Ends sha256 bao json to_encrypt [] (encrypt sha256 bao json to_encrypt [])
encrypt-Ends_example = encrypt-Ends sha256 bao json to_encrypt []

-- It has a second version of the key after the rotation.
abbrev rotating : OpenBao
rotating = record bao {
  key_info =
      λ h. ok (record { latest_version = 2; public_key = []; keys = (lit "2", lit "pk2") ∷ [] });
}

abbrev rotated : KeyMetadata
rotated = record metadata { primary_version = 2; public_key = lit "pk2" }

abbrev rotation_calls : List Call
rotation_calls = (rotate_key sha256 rotating (lit "a") (lit "k") []).1
