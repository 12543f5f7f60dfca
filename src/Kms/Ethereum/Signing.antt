-- ===== src/Kms/Ethereum/Signing.antt =====
-- How signing with an Ethereum key ends.
use orbitport.Base.{
  ℕ, ◌≡◌, refl, List, [], ◌∷◌, Option, none, some, Bool-cases, Option-cases, ◌⊎◌, inl, inr,
}
use orbitport.Base.Result.{Result, ok, err, Result-cases}
use orbitport.Base.Traced.{◌>>=◌, lift}
use orbitport.Text.{Text, text_eq, is_empty}
use orbitport.Text.Equal.{text_eq_iff}
use orbitport.Base64.Codec.{decode, std_encoding}
use orbitport.Kms.Spec.{ecc_secg_p256k1, sign_verify}
use orbitport.Kms.Calls.{
  KeyMetadata, metadata_backend_key, Status, invalid_argument, internal, failed_precondition,
}
use orbitport.Kms.Cipher.{optional_string}
use orbitport.Kms.Ethereum.{
  ethereum_secp256k1, message_raw, message_eip191, message_digest, raw_hash_method, EthereumCall,
  signs_hash, signs_message, EthereumSignInfo, SignRequest, SignResponse, HashError,
  raw_ethereum_hash, digest_bytes, normalize_ethereum_digest, validate_hash_response, reported,
  sign_hash, sign_message, sign_by_type, sign,
}
use orbitport.Kms.Ethereum.Hashing.{
  HashOf, of_raw, of_digest, hash_of-ok, is_empty-true, checked_digest-ok, digest_bytes-some,
  validate_hash_response-ok,
}

module _ (keccak : List ℕ → List ℕ) (reply : List EthereumCall → Option EthereumSignInfo)
    (h : List EthereumCall) where
  -- How the request to sign a hash, or a message, ends.
  pub data Signed (message_type key message : Text)
      : Result Status Text × List EthereumCall → Type 0 where
    unasked : Signed message_type key message (err invalid_argument, h)
    hash_failed :
        (hash : Text)
        → HashOf keccak message_type message hash
        → Signed message_type key message (err internal, signs_hash key hash ∷ h)
    hash_signed :
        (hash : Text) (info : EthereumSignInfo)
        → HashOf keccak message_type message hash
        → reply (signs_hash key hash ∷ h) ≡ some info
        → info.hash ≡ hash
        → info.method ≡ raw_hash_method
        → Signed message_type key message (ok info.signature, signs_hash key hash ∷ h)
    message_failed :
        message_type ≡ message_eip191
        → reply (signs_message key message ∷ h) ≡ none
        → Signed message_type key message (err internal, signs_message key message ∷ h)
    message_signed :
        (info : EthereumSignInfo)
        → message_type ≡ message_eip191
        → reply (signs_message key message ∷ h) ≡ some info
        → Signed message_type key message (ok info.signature, signs_message key message ∷ h)

  module _ (message_type key message : Text) where
    sign_hash-Signed :
        (hash : Text)
        → HashOf keccak message_type message hash
        → Signed message_type key message (sign_hash keccak reply key hash h)
    unfolding sign_hash reported
    sign_hash-Signed hash of = elim (Option-cases (reply (signs_hash key hash ∷ h))) [
      | inl e ↦ rw (e) (hash_failed hash of)
      | inr (info, e) ↦ elim (Result-cases (validate_hash_response info hash raw_hash_method)) [
        | inl (u, v) ↦
            let same = validate_hash_response-ok info hash raw_hash_method v in
            rw (e, v)
              (hash_signed hash info of e ((text_eq_iff info.hash hash).0 same.0)
                ((text_eq_iff info.method raw_hash_method).0 same.1))
        | inr (x, v) ↦ rw (e, v) (hash_failed hash of)
      ]
    ]

    hashed-Signed :
        (r : Result HashError Text)
        → ((hash : Text) → r ≡ ok hash → HashOf keccak message_type message hash)
        → Signed message_type key message
            ((lift (reported invalid_argument r) >>= sign_hash keccak reply key) h)
    unfolding reported
    hashed-Signed (err e) of = unasked
    hashed-Signed (ok hash) of = sign_hash-Signed hash (of hash refl)

    sign_message-Signed :
        message_type ≡ message_eip191
        → Signed message_type key message (sign_message keccak reply key message h)
    unfolding sign_message
    sign_message-Signed t = elim (Option-cases (reply (signs_message key message ∷ h))) [
      | inl e ↦ rw (e) (message_failed t e)
      | inr (info, e) ↦ rw (e) (message_signed info t e)
    ]

    raw-Signed :
        (message_type ≡ []) ⊎ (message_type ≡ message_raw)
        → Signed message_type key message (
            (lift (reported invalid_argument (raw_ethereum_hash keccak message))
                >>= sign_hash keccak reply key)
              h)
    unfolding raw_ethereum_hash
    raw-Signed t = hashed-Signed (raw_ethereum_hash keccak message) λ hash e.
        let same = hash_of-ok keccak (decode std_encoding message) hash e in
        of_raw same.0 t same.1 same.2

    digest-Signed :
        message_type ≡ message_digest
        → Signed message_type key message (
            (lift (reported invalid_argument (normalize_ethereum_digest message))
                >>= sign_hash keccak reply key)
              h)
    unfolding normalize_ethereum_digest
    digest-Signed t = hashed-Signed (normalize_ethereum_digest message) λ hash e.
        let same = checked_digest-ok (digest_bytes message) hash e in
        of_digest same.0 t (digest_bytes-some message same.0 same.1) same.2 same.3

    sign_by_type-Signed :
        Signed message_type key message (sign_by_type keccak reply message_type key message h)
    unfolding sign_by_type
    sign_by_type-Signed = elim (Bool-cases (is_empty message_type)) [
      | inl e ↦ rw (e) (raw-Signed (inl (is_empty-true message_type e)))
      | inr e ↦ elim (Bool-cases (text_eq message_type message_raw)) [
        | inl f ↦ rw (e, f) (raw-Signed (inr ((text_eq_iff message_type message_raw).0 f)))
        | inr f ↦ elim (Bool-cases (text_eq message_type message_eip191)) [
          | inl g ↦
              rw (e, f, g) (sign_message-Signed ((text_eq_iff message_type message_eip191).0 g))
          | inr g ↦ elim (Bool-cases (text_eq message_type message_digest)) [
            | inl d ↦
                rw (e, f, g, d) (digest-Signed ((text_eq_iff message_type message_digest).0 d))
            | inr d ↦ rw (e, f, g, d) unasked
          ]
        ]
      ]
    ]

  -- Why a key may sign: it is an Ethereum key for signing, and the request names its algorithm.
  pub record Signable (m : KeyMetadata) (req : SignRequest) : Type 0 where
    pub spec : m.key_spec ≡ ecc_secg_p256k1
    pub usage : m.key_usage ≡ sign_verify
    pub algorithm : req.signing_algorithm ≡ ethereum_secp256k1

  abbrev SignedBy : KeyMetadata → SignRequest → Result Status Text × List EthereumCall → Type 0
  SignedBy m req = Signed (optional_string req.message_type) (metadata_backend_key m) req.message

  -- How the provider's signing ends: refused without a call, or as the request to OpenBao ends.
  pub data SignEnds (m : KeyMetadata) (req : SignRequest)
      : Result Status SignResponse × List EthereumCall → Type 0 where
    refused : (s : Status) → SignEnds m req (err s, h)
    failed :
        (s : Status) (k : List EthereumCall)
        → Signable m req
        → SignedBy m req (err s, k)
        → SignEnds m req (err s, k)
    signed :
        (signature : Text) (k : List EthereumCall)
        → Signable m req
        → SignedBy m req (ok signature, k)
        → SignEnds m req (
          ok (record {
            key_id = m.key_id;
            signature = signature;
            signing_algorithm = req.signing_algorithm;
          }),
          k,
        )

  Signed-Ends :
      (m : KeyMetadata) (req : SignRequest) (r : Result Status Text × List EthereumCall)
      → Signable m req
      → SignedBy m req r
      → SignEnds m req (elim (r.0) [
        | ok signature ↦ (
          ok (record {
            key_id = m.key_id;
            signature = signature;
            signing_algorithm = req.signing_algorithm;
          }),
          r.1,
        )
        | err s ↦ (err s, r.1)
      ])
  Signed-Ends m req (ok signature, k) a s = signed signature k a s
  Signed-Ends m req (err s, k) a e = failed s k a e

  -- However signing with an Ethereum key ends, OpenBao is asked at most once. It is asked only where
  -- the metadata is that of an Ethereum key for signing and the request names the algorithm: for an
  -- EIP-191 message, to sign the message; for a raw message, or one without a type, to sign the
  -- Keccak hash of the bytes in it; for a digest, to sign exactly the 32 bytes in it. A signature is
  -- answered only as OpenBao gave it, and one of a hash only where OpenBao's answer names that hash and
  -- the method for raw hashes. Every other end is an error.
  pub sign-Ends : (m : KeyMetadata) (req : SignRequest) → SignEnds m req (sign keccak reply m req h)
  unfolding sign
  sign-Ends m req = elim (Bool-cases (text_eq m.key_spec ecc_secg_p256k1)) [
    | inr e ↦ rw (e) (refused failed_precondition)
    | inl e ↦ elim (Bool-cases (text_eq m.key_usage sign_verify)) [
      | inr f ↦ rw (e, f) (refused failed_precondition)
      | inl f ↦ elim (Bool-cases (text_eq req.signing_algorithm ethereum_secp256k1)) [
        | inr g ↦ rw (e, f, g) (refused invalid_argument)
        | inl g ↦
            rw (e, f, g)
              (Signed-Ends m req
                (sign_by_type keccak reply (optional_string req.message_type)
                  (metadata_backend_key m) req.message h)
                (record {
                  spec = (text_eq_iff m.key_spec ecc_secg_p256k1).0 e;
                  usage = (text_eq_iff m.key_usage sign_verify).0 f;
                  algorithm = (text_eq_iff req.signing_algorithm ethereum_secp256k1).0 g;
                })
                (sign_by_type-Signed (optional_string req.message_type) (metadata_backend_key m)
                  req.message))
      ]
    ]
  ]
