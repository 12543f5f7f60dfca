-- ===== src/Kms/Cipher/Encrypting.antt =====
-- What a request to encrypt comes to, on every branch of the handler.
use orbitport.Base.{
  ℕ, ◌≡◌, refl, sym, ap, subst, Bool, true, false, not, List, ◌∷◌, Bool-cases, inl, inr,
}
use orbitport.Base.Traced.{◌>>=◌, ◌>>◌, return, step_ok, step_err}
use orbitport.Base.Result.{Result, ok, err, Result-cases}
use orbitport.Text.{Text, text_eq}
use orbitport.Text.Equal.{text_eq_iff}
use orbitport.Kms.Spec.{supports_encryption, encrypt_decrypt, normalize_encryption_algorithm}
use orbitport.Kms.Tenant.{resolve_key_ref, require_client_id}
use orbitport.Kms.Blob.{Json, encode_ciphertext_blob}
use orbitport.Kms.Calls.{
  KeyMetadata, normalize_metadata, metadata_backend_key, Call, encrypts, OpenBao, Status,
  invalid_argument, internal, failed_precondition, M, checked, refuse_if, call,
}
use orbitport.Kms.Cipher.{
  EncryptRequest, EncryptResponse, optional_string, foreign_owner, metadata_provider,
  transit_encrypt, encrypt,
}
use orbitport.Kms.Cipher.Guarded.{Found, unasked, refused, found, asks, metadata_provider-Found}

module _ (sha256 : List ℕ → List ℕ) (bao : OpenBao) (json : Json) (req : EncryptRequest)
    (h : List Call) where
  -- Why OpenBao may be asked to encrypt with the key of this metadata.
  pub record Usable (key : Text) (m : KeyMetadata) (algorithm : Text) : Type 0 where
    pub client : require_client_id req.client_id ≡ ok tt
    pub alias : Text
    pub resolved : resolve_key_ref req.key_id ≡ ok (key, alias)
    pub raw : KeyMetadata
    pub read : bao.metadata (asks sha256 bao req.client_id key h) ≡ ok raw
    pub normal : m ≡ normalize_metadata raw
    pub own : foreign_owner req.client_id m ≡ false
    pub spec : supports_encryption m.key_spec ≡ true
    pub usage : m.key_usage ≡ encrypt_decrypt
    pub known : normalize_encryption_algorithm (optional_string req.algorithm) ≡ ok algorithm

  -- the calls behind the request to encrypt
  abbrev pub encrypting : Text → KeyMetadata → List Call
  encrypting key m =
      encrypts (metadata_backend_key m) req.plaintext ∷ asks sha256 bao req.client_id key h

  -- How the handler ends: refused before any call, refused after reading the metadata of the client, or
  -- with the one call to encrypt, whose ciphertext goes into a blob of this key.
  pub data Ends : Result Status EncryptResponse × List Call → Type 0 where
    refused_early : (s : Status) → Ends (err s, h)
    refused_after : (s : Status) (key : Text) → Ends (err s, asks sha256 bao req.client_id key h)
    failed :
        (key algorithm : Text) (m : KeyMetadata)
        → Usable key m algorithm
        → Ends (err internal, encrypting key m)
    encrypted :
        (key algorithm ciphertext : Text) (m : KeyMetadata)
        → Usable key m algorithm
        → bao.text (encrypting key m) ≡ ok ciphertext
        → Ends (
          ok (record {
            blob =
                encode_ciphertext_blob json m.scheme m.key_id
                  (metadata_backend_key m)
                  ciphertext
                  algorithm;
            key_id = m.key_id;
            algorithm = algorithm;
          }),
          encrypting key m,
        )

  module _ (client : require_client_id req.client_id ≡ ok tt) (key alias : Text) (raw : KeyMetadata)
      (e : resolve_key_ref req.key_id ≡ ok (key, alias))
      (q : bao.metadata (asks sha256 bao req.client_id key h) ≡ ok raw)
      (own : foreign_owner req.client_id (normalize_metadata raw) ≡ false) where
    abbrev m : KeyMetadata
    m = normalize_metadata raw

    abbrev k : List Call
    k = asks sha256 bao req.client_id key h

    call-Ends :
        (algorithm : Text)
        → Usable key m algorithm
        → Ends (
            (call bao.text (encrypts (metadata_backend_key m) req.plaintext) internal
                >>= λ ciphertext. return (record {
                  blob =
                      encode_ciphertext_blob json m.scheme m.key_id
                        (metadata_backend_key m)
                        ciphertext
                        algorithm;
                  key_id = m.key_id;
                  algorithm = algorithm;
                }))
              k)
    call-Ends algorithm u = elim (Result-cases (bao.text (encrypting key m))) [
      | inl (c, t) ↦ rw (t) (encrypted key algorithm c m u t)
      | inr (x, t) ↦ rw (t) (failed key algorithm m u)
    ]

    transit-Ends : Ends (transit_encrypt sha256 bao json m req k)
    unfolding transit_encrypt
    transit-Ends =
        elim (Result-cases (normalize_encryption_algorithm (optional_string req.algorithm))) [
          | inr (x, z) ↦ rw (z, transit_encrypt) (refused_after invalid_argument key)
          | inl (algorithm, z) ↦ elim (Bool-cases (supports_encryption m.key_spec)) [
            | inr bad ↦ rw (z, bad, transit_encrypt) (refused_after failed_precondition key)
            | inl spec ↦ elim (Bool-cases (text_eq m.key_usage encrypt_decrypt)) [
              | inr bad ↦ rw (z, spec, bad, transit_encrypt) (refused_after failed_precondition key)
              | inl usage ↦
                  rw (z, spec, usage, transit_encrypt)
                    (call-Ends algorithm (record {
                      client = client;
                      alias = alias;
                      resolved = e;
                      raw = raw;
                      read = q;
                      normal = refl;
                      own = own;
                      spec = spec;
                      usage = (text_eq_iff m.key_usage encrypt_decrypt).0 usage;
                      known = z;
                    }))
            ]
          ]
        ]

  -- The handler behind the metadata.
  abbrev behind : KeyMetadata × Bool → M EncryptResponse
  behind m = refuse_if (not m.1) failed_precondition >> transit_encrypt sha256 bao json m.0 req

  Found-Ends :
      (r : Result Status (KeyMetadata × Bool) × List Call)
      → require_client_id req.client_id ≡ ok tt
      → Found sha256 bao req.client_id req.key_id h r
      → Ends (elim (r.0) [ ok m ↦ behind m r.1 | err s ↦ (err s, r.1) ])
  Found-Ends r client (unasked s) = refused_early s
  Found-Ends r client (refused s key) = refused_after s key
  Found-Ends r client (found key alias raw true e q own) = transit-Ends client key alias raw e q own
  Found-Ends r client (found key alias raw false e q own) = refused_after failed_precondition key

  -- However a request to encrypt ends, OpenBao is asked to encrypt at most once, as the last call, with
  -- the backend key of metadata that was read in the client's own namespace, has no other owner, and is
  -- of a key for encryption; and the answer, if there is one, is a blob of exactly this key with the
  -- ciphertext that OpenBao gave. Every other end is an error.
  pub encrypt-Ends : Ends (encrypt sha256 bao json req h)
  unfolding encrypt
  encrypt-Ends =
      let first = checked invalid_argument (require_client_id req.client_id) in
      let rest : M EncryptResponse =
        metadata_provider sha256 bao req.client_id req.key_id >>= behind in
      elim (Result-cases (require_client_id req.client_id)) [
        | inr (x, e) ↦
            subst Ends (sym (step_err first (λ _. rest) (ap (λ r. checked invalid_argument r h) e)))
              (refused_early invalid_argument)
        | inl (u, e) ↦
            subst Ends (sym (step_ok first (λ _. rest) (ap (λ r. checked invalid_argument r h) e)))
              (Found-Ends (metadata_provider sha256 bao req.client_id req.key_id h) e
                (metadata_provider-Found sha256 bao req.client_id h req.key_id))
      ]
