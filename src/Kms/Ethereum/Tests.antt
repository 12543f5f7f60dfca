-- ===== src/Kms/Ethereum/Tests.antt =====
-- A digest and a raw message that are signed.
use orbitport.Base.{
  ℕ, suc, zero, ◌%◌, ◌<◌, ◌≡◌, refl, true, List, [], ◌∷◌, Option, none, some, length, replicate,
  arith,
}
use orbitport.Base.Result.{ok}
use orbitport.Text.{Text, lit, text_eq}
use orbitport.Hex
use orbitport.Hex.RoundTrip.{Bytes}
use orbitport.Base64.Codec.{
  decode, decode_quanta, drop_breaks, value?, one_byte, two_bytes, three_bytes,
}
use orbitport.Kms.Calls.{KeyMetadata, metadata_backend_key}
use orbitport.Kms.Ethereum.{
  EthereumCall, signs_hash, EthereumSignInfo, SignRequest, message_raw, message_digest,
  raw_hash_method, ethereum_secp256k1, raw_ethereum_hash, hash_of, validate_hash_response, reported,
  sign_hash, sign_by_type, sign,
}
use orbitport.Kms.Ethereum.Signing.{SignEnds, sign-Ends}
use orbitport.Kms.Ethereum.Prehashed.{sign-raw_digest}

abbrev keccak : List ℕ → List ℕ
keccak m = replicate 32 (length m % 256)

abbrev two_hash : Text
two_hash = lit "0x0202020202020202020202020202020202020202020202020202020202020202"

abbrev metadata : KeyMetadata
metadata = record {
  key_id = lit "kms:e";
  client_id = lit "a";
  alias = lit "e";
  scheme = lit "ETHEREUM";
  provider_key = lit "tenant_e";
  transit_key = [];
  description = [];
  key_spec = lit "ECC_SECG_P256K1";
  key_usage = lit "SIGN_VERIFY";
  enabled = true;
  primary_version = 1;
  created_at = [];
  public_key = [];
  address = [];
  tags = [];
}

-- It signs, and names the hash it signed.
abbrev reply : List EthereumCall → Option EthereumSignInfo
reply (signs_hash key hash ∷ h) =
    some (record { signature = lit "0xs"; hash = hash; method = raw_hash_method; address = [] })
reply _ = none

abbrev raw_request : SignRequest
raw_request = record {
  message = lit "AQI=";
  signing_algorithm = ethereum_secp256k1;
  message_type = none;
}

raw_signed : sign keccak reply metadata raw_request [] ≡ (
  ok (record {
    key_id = lit "kms:e";
    signature = lit "0xs";
    signing_algorithm = ethereum_secp256k1;
  }),
  signs_hash (lit "tenant_e") two_hash ∷ [],
)
unfolding sign sign_by_type sign_hash reported validate_hash_response raw_ethereum_hash hash_of
    text_eq decode decode_quanta drop_breaks value? one_byte two_bytes three_bytes Hex.encode
    Hex.digit metadata_backend_key
raw_signed = refl

Bytes-replicate : (n b : ℕ) → b < 256 → Bytes (replicate n b)
Bytes-replicate zero b h = tt
Bytes-replicate (suc n) b h = (h, Bytes-replicate n b h)

keccak-Bytes : (bytes : List ℕ) → (length (keccak bytes) ≡ 32) × Bytes (keccak bytes)
keccak-Bytes bytes = (refl, Bytes-replicate 32 (length bytes % 256) (omega arith))

two_hashed : raw_ethereum_hash keccak (lit "AQI=") ≡ ok two_hash
unfolding raw_ethereum_hash hash_of decode decode_quanta drop_breaks value? one_byte two_bytes
    three_bytes Hex.encode Hex.digit
two_hashed = refl

sign-Ends_example :
    SignEnds keccak reply [] metadata raw_request (sign keccak reply metadata raw_request [])
sign-Ends_example = sign-Ends keccak reply [] metadata raw_request

sign-raw_digest_example :
    sign keccak reply metadata
      (record {
        message = lit "AQI=";
        signing_algorithm = ethereum_secp256k1;
        message_type = some message_raw;
      })
      []
    ≡ sign keccak reply metadata
        (record {
          message = two_hash;
          signing_algorithm = ethereum_secp256k1;
          message_type = some message_digest;
        })
        []
sign-raw_digest_example =
    sign-raw_digest keccak reply metadata (lit "AQI=") ethereum_secp256k1 two_hash [] keccak-Bytes
      two_hashed
