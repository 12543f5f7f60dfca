-- ===== src/Kms/Ethereum/Prehashed.antt =====
-- Signing a raw message and signing its hash as a digest.
use orbitport.Base.{ℕ, ◌≡◌, refl, sym, subst, List, ◌++◌, Option, some, length}
use orbitport.Base.Result.{ok}
use orbitport.Text.{Text, lit, text_eq, strip_prefix}
use orbitport.Hex
use orbitport.Hex.RoundTrip.{Bytes, decode_string-encode}
use orbitport.Base64.Codec.{decode, std_encoding}
use orbitport.Kms.Calls.{KeyMetadata}
use orbitport.Kms.Ethereum.{
  message_raw, message_digest, EthereumCall, EthereumSignInfo, raw_ethereum_hash, digest_bytes,
  checked_digest, normalize_ethereum_digest, sign_by_type, sign,
}
use orbitport.Kms.Ethereum.Hashing.{hash_of-ok}

normalize_ethereum_digest-encode :
    (bytes : List ℕ)
    → Bytes bytes
    → length bytes ≡ 32
    → normalize_ethereum_digest (lit "0x" ++ Hex.encode bytes) ≡ ok (lit "0x" ++ Hex.encode bytes)
unfolding normalize_ethereum_digest digest_bytes strip_prefix checked_digest
normalize_ethereum_digest-encode bytes b n = rw (decode_string-encode bytes b, n) refl

module _ (keccak : List ℕ → List ℕ) (reply : List EthereumCall → Option EthereumSignInfo) where
  -- Where the Keccak hash has 32 bytes, signing a raw message, and signing the hash of its bytes as a
  -- digest, come to the same: the same calls with the same end, whatever the metadata and the algorithm.
  pub sign-raw_digest :
      (m : KeyMetadata) (message algorithm hash : Text) (h : List EthereumCall)
      → ((bytes : List ℕ) → (length (keccak bytes) ≡ 32) × Bytes (keccak bytes))
      → raw_ethereum_hash keccak message ≡ ok hash
      → sign keccak reply m
          (record {
            message = message;
            signing_algorithm = algorithm;
            message_type = some message_raw;
          })
          h
        ≡ sign keccak reply m
            (record {
              message = hash;
              signing_algorithm = algorithm;
              message_type = some message_digest;
            })
            h
  unfolding sign sign_by_type raw_ethereum_hash text_eq
  sign-raw_digest m message algorithm hash h good e =
      let same = hash_of-ok keccak (decode std_encoding message) hash e in
      let digest : normalize_ethereum_digest hash ≡ ok hash =
        subst (λ t. normalize_ethereum_digest t ≡ ok t) (sym same.2)
          (normalize_ethereum_digest-encode (keccak same.0) (good same.0).1 (good same.0).0) in
      rw (e, digest) refl
