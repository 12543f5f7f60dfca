-- ===== src/Kms/Ethereum/Hashing.antt =====
-- The hashes that stand for messages, and the check of an answer.
use orbitport.Base.{
  ℕ, ◌≡◌, refl, true, List, [], ◌∷◌, ◌++◌, Option, none, some, length, Option-cases, ◌⊎◌, inl, inr,
  arith,
}
use orbitport.Base.Result.{ok}
use orbitport.Text.{Text, lit, text_eq, is_empty, strip_prefix}
use orbitport.Hex
use orbitport.Base64.Codec.{decode, std_encoding}
use orbitport.Kms.Ethereum.{
  message_raw, message_digest, EthereumSignInfo, hash_of, digest_bytes, checked_digest,
  validate_hash_response,
}

-- The bytes that a digest is written for.
pub data DigestOf (message : Text) (bytes : List ℕ) : Type 0 where
  in_hex :
      (rest : Text)
      → (message ≡ lit "0x" ++ rest) ⊎ (message ≡ lit "0X" ++ rest)
      → Hex.decode_string rest ≡ some bytes
      → DigestOf message bytes
  in_base64 : decode std_encoding message ≡ some bytes → DigestOf message bytes

-- The hash that stands for a message of this type.
pub data HashOf (keccak : List ℕ → List ℕ) (message_type message : Text) (hash : Text)
    : Type 0 where
  of_raw :
      (bytes : List ℕ)
      → (message_type ≡ []) ⊎ (message_type ≡ message_raw)
      → decode std_encoding message ≡ some bytes
      → hash ≡ lit "0x" ++ Hex.encode (keccak bytes)
      → HashOf keccak message_type message hash
  of_digest :
      (bytes : List ℕ)
      → message_type ≡ message_digest
      → DigestOf message bytes
      → length bytes ≡ 32
      → hash ≡ lit "0x" ++ Hex.encode bytes
      → HashOf keccak message_type message hash

strip_prefix-some : (p s rest : Text) → strip_prefix p s ≡ some rest → s ≡ p ++ rest
unfolding strip_prefix
strip_prefix-some [] s rest h = cc
strip_prefix-some (c ∷ p) [] rest h = cc
strip_prefix-some (c ∷ p) (d ∷ s) rest h = ground (arith, strip_prefix-some p s rest)

pub hash_of-ok :
    (keccak : List ℕ → List ℕ) (r : Option (List ℕ)) (hash : Text)
    → hash_of keccak r ≡ ok hash
    → (bytes : List ℕ) × (r ≡ some bytes) × (hash ≡ lit "0x" ++ Hex.encode (keccak bytes))
unfolding hash_of
hash_of-ok keccak none hash h = cc
hash_of-ok keccak (some bytes) hash h = (bytes, refl, cc)

pub digest_bytes-some :
    (message : Text) (bytes : List ℕ) → digest_bytes message ≡ some bytes → DigestOf message bytes
unfolding digest_bytes strip_prefix decode
digest_bytes-some message bytes h = elim (Option-cases (strip_prefix (lit "0x") message)) [
  | inr (rest, e) ↦
      let same : digest_bytes message ≡ Hex.decode_string rest = rw (e) refl in
      in_hex rest (inl (strip_prefix-some (lit "0x") message rest e)) cc
  | inl e ↦ elim (Option-cases (strip_prefix (lit "0X") message)) [
    | inr (rest, f) ↦
        let same : digest_bytes message ≡ Hex.decode_string rest = rw (e, f) refl in
        in_hex rest (inr (strip_prefix-some (lit "0X") message rest f)) cc
    | inl f ↦
        let same : digest_bytes message ≡ decode std_encoding message = rw (e, f) refl in
        in_base64 cc
  ]
]

pub is_empty-true : (s : Text) → is_empty s ≡ true → s ≡ []
is_empty-true [] h = refl
is_empty-true (c ∷ s) h = cc

pub checked_digest-ok :
    (r : Option (List ℕ)) (hash : Text)
    → checked_digest r ≡ ok hash
    → (bytes : List ℕ) × (r ≡ some bytes)
      × (length bytes ≡ 32)
      × (hash ≡ lit "0x" ++ Hex.encode bytes)
unfolding checked_digest
checked_digest-ok none hash h = cc
checked_digest-ok (some bytes) hash h = (bytes, refl, ground arith, ground arith)

pub validate_hash_response-ok :
    (info : EthereumSignInfo) (hash method : Text)
    → validate_hash_response info hash method ≡ ok tt
    → (text_eq info.hash hash ≡ true) × (text_eq info.method method ≡ true)
unfolding validate_hash_response
validate_hash_response-ok info hash method h = (ground arith, ground arith)
