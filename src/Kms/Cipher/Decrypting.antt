-- ===== src/Kms/Cipher/Decrypting.antt =====
-- What a request to decrypt comes to, on every branch of the handler.
use orbitport.Base.{
  ℕ, ◌≡◌, refl, sym, ap, ◌∙◌, subst, Bool, false, not, List, ◌∷◌, Option, none, some, ◌||◌,
  Bool-cases, inl, inr, ◌⊎◌,
}
use orbitport.Base.Traced.{◌>>=◌, ◌>>◌, step_ok, step_err}
use orbitport.Base.Result.{Result, ok, err, Result-cases}
use orbitport.Text.{Text, text_eq}
use orbitport.Text.Equal.{text_eq_iff}
use orbitport.Kms.Tenant.{resolve_key_ref, require_client_id}
use orbitport.Kms.Blob.{CiphertextBlob, Json, blob_backend_key, decode_ciphertext_blob}
use orbitport.Kms.Calls.{
  KeyMetadata, normalize_metadata, metadata_backend_key, Call, decrypts, OpenBao, Status,
  invalid_argument, internal, permission_denied, failed_precondition, M, checked, refuse_if,
}
use orbitport.Kms.Cipher.{
  DecryptRequest, DecryptResponse, foreign_owner, metadata_provider, transit_decrypt, check_key_id,
  decrypt,
}
use orbitport.Kms.Cipher.Guarded.{Found, unasked, refused, found, asks, metadata_provider-Found}

module _ (sha256 : List ℕ → List ℕ) (bao : OpenBao) (json : Json) (req : DecryptRequest)
    (h : List Call) where
  -- Why a ciphertext may be given to OpenBao with its key.
  pub record Allowed (blob : CiphertextBlob) (key : Text) : Type 0 where
    pub client : require_client_id req.client_id ≡ ok tt
    pub decoded : decode_ciphertext_blob json req.blob ≡ ok blob
    pub named : check_key_id req.key_id blob h ≡ (ok tt, h)
    pub alias : Text
    pub resolved : resolve_key_ref blob.key_id ≡ ok (key, alias)
    pub raw : KeyMetadata
    pub read : bao.metadata (asks sha256 bao req.client_id key h) ≡ ok raw
    pub own : foreign_owner req.client_id (normalize_metadata raw) ≡ false
    pub same_id : (normalize_metadata raw).key_id ≡ blob.key_id
    pub same_key : metadata_backend_key (normalize_metadata raw) ≡ blob_backend_key blob

  -- the calls behind the request to decrypt
  abbrev pub decrypting : CiphertextBlob → Text → List Call
  decrypting blob key =
      decrypts (blob_backend_key blob) blob.ciphertext ∷ asks sha256 bao req.client_id key h

  -- How the handler ends: refused before any call, refused after reading the metadata of the client, or
  -- with the one call to decrypt, that is allowed.
  pub data Ends : Result Status DecryptResponse × List Call → Type 0 where
    refused_early : (s : Status) → Ends (err s, h)
    refused_after : (s : Status) (key : Text) → Ends (err s, asks sha256 bao req.client_id key h)
    failed :
        (blob : CiphertextBlob) (key : Text)
        → Allowed blob key
        → Ends (err internal, decrypting blob key)
    decrypted :
        (blob : CiphertextBlob) (key plaintext : Text)
        → Allowed blob key
        → bao.text (decrypting blob key) ≡ ok plaintext
        → Ends (
          ok (record { plaintext = plaintext; key_id = blob.key_id; algorithm = blob.algorithm }),
          decrypting blob key,
        )

  transit-Ends :
      (blob : CiphertextBlob) (key : Text)
      → Allowed blob key
      → Ends (transit_decrypt sha256 bao blob (asks sha256 bao req.client_id key h))
  unfolding transit_decrypt
  transit-Ends blob key a = elim (Result-cases (bao.text (decrypting blob key))) [
    | inl (t, e) ↦ rw (e, transit_decrypt) (decrypted blob key t a e)
    | inr (x, e) ↦ rw (e, transit_decrypt) (failed blob key a)
  ]

  -- The handler behind the metadata.
  abbrev behind : CiphertextBlob → KeyMetadata × Bool → M DecryptResponse
  behind blob m =
      refuse_if
        (not (text_eq m.0.key_id blob.key_id)
          || not (text_eq (metadata_backend_key m.0) (blob_backend_key blob)))
        permission_denied
      >> (refuse_if (not m.1) failed_precondition >> transit_decrypt sha256 bao blob)

  module _ (client : require_client_id req.client_id ≡ ok tt) (blob : CiphertextBlob)
      (decoded : decode_ciphertext_blob json req.blob ≡ ok blob)
      (named : check_key_id req.key_id blob h ≡ (ok tt, h)) where
    behind-Ends :
        (key alias : Text) (raw : KeyMetadata) (is_transit : Bool)
        → resolve_key_ref blob.key_id ≡ ok (key, alias)
        → bao.metadata (asks sha256 bao req.client_id key h) ≡ ok raw
        → foreign_owner req.client_id (normalize_metadata raw) ≡ false
        → Ends
            (behind blob (normalize_metadata raw, is_transit) (asks sha256 bao req.client_id key h))
    behind-Ends key alias raw is_transit e q own =
        let m : KeyMetadata = normalize_metadata raw in
        elim (Bool-cases (text_eq m.key_id blob.key_id)) [
          | inr other ↦ rw (other) (refused_after permission_denied key)
          | inl id ↦ elim (Bool-cases (text_eq (metadata_backend_key m) (blob_backend_key blob))) [
            | inr other ↦ rw (id, other) (refused_after permission_denied key)
            | inl backend ↦
                let allowed : Allowed blob key = record {
                  client = client;
                  decoded = decoded;
                  named = named;
                  alias = alias;
                  resolved = e;
                  raw = raw;
                  read = q;
                  own = own;
                  same_id = (text_eq_iff m.key_id blob.key_id).0 id;
                  same_key =
                      (text_eq_iff (metadata_backend_key m) (blob_backend_key blob)).0 backend;
                } in
                elim (Bool-cases is_transit) [
                  | inr unsupported ↦
                      rw (id, backend, unsupported) (refused_after failed_precondition key)
                  | inl transit ↦ rw (id, backend, transit) (transit-Ends blob key allowed)
                ]
          ]
        ]

    Found-Ends :
        (r : Result Status (KeyMetadata × Bool) × List Call)
        → Found sha256 bao req.client_id blob.key_id h r
        → Ends (elim (r.0) [ ok m ↦ behind blob m r.1 | err s ↦ (err s, r.1) ])
    Found-Ends r (unasked s) = refused_early s
    Found-Ends r (refused s key) = refused_after s key
    Found-Ends r (found key alias raw is_transit e q own) =
        behind-Ends key alias raw is_transit e q own

  check_key_id-cases :
      (key_ref : Option Text) (blob : CiphertextBlob)
      → (check_key_id key_ref blob h ≡ (ok tt, h))
        ⊎ ((s : Status) × (check_key_id key_ref blob h ≡ (err s, h)))
  unfolding check_key_id
  check_key_id-cases none blob = inl refl
  check_key_id-cases (some key_ref) blob = elim (Result-cases (resolve_key_ref key_ref)) [
    | inr (x, e) ↦ inr (invalid_argument, rw (e, check_key_id) refl)
    | inl (resolved, e) ↦ elim (Bool-cases (text_eq resolved.0 blob.key_id)) [
      | inl same ↦ inl (rw (e, same, check_key_id) refl)
      | inr other ↦ inr (invalid_argument, rw (e, other, check_key_id) refl)
    ]
  ]

  abbrev after_check : CiphertextBlob → M DecryptResponse
  after_check blob = metadata_provider sha256 bao req.client_id blob.key_id >>= behind blob

  abbrev after_decode : CiphertextBlob → M DecryptResponse
  after_decode blob = check_key_id req.key_id blob >> after_check blob

  abbrev decode : M CiphertextBlob
  decode = checked invalid_argument (decode_ciphertext_blob json req.blob)

  decode-Ends : require_client_id req.client_id ≡ ok tt → Ends ((decode >>= after_decode) h)
  decode-Ends client = elim (Result-cases (decode_ciphertext_blob json req.blob)) [
    | inr (x, e) ↦
        subst Ends (sym (step_err decode after_decode (ap (λ r. checked invalid_argument r h) e)))
          (refused_early invalid_argument)
    | inl (blob, e) ↦
        let decoded = step_ok decode after_decode (ap (λ r. checked invalid_argument r h) e) in
        elim (check_key_id-cases req.key_id blob) [
          | inr (s, bad) ↦
              subst Ends
                (sym
                  (decoded ∙ step_err (check_key_id req.key_id blob) (λ _. after_check blob) bad))
                (refused_early s)
          | inl named ↦
              subst Ends
                (sym
                  (decoded ∙ step_ok (check_key_id req.key_id blob) (λ _. after_check blob) named))
                (Found-Ends client blob e named
                  (metadata_provider sha256 bao req.client_id blob.key_id h)
                  (metadata_provider-Found sha256 bao req.client_id h blob.key_id))
        ]
  ]

  -- However a request to decrypt ends, OpenBao is asked to decrypt at most once, as the last call, with
  -- the ciphertext and the backend key of the blob; and only when the client is named, the blob was
  -- decoded and has the key id that the request names, if it names one, and the metadata that was read
  -- in the client's own namespace has no other owner, the blob's key id and the blob's backend key. It
  -- answers with the plaintext that OpenBao gives, or with an error where that call fails. Every other
  -- end is an error, with no call but the read of that metadata.
  pub decrypt-Ends : Ends (decrypt sha256 bao json req h)
  unfolding decrypt
  decrypt-Ends = elim (Result-cases (require_client_id req.client_id)) [
    | inr (x, e) ↦
        subst Ends
          (sym (
            step_err (checked invalid_argument (require_client_id req.client_id))
              (λ _. decode >>= after_decode) (ap (λ r. checked invalid_argument r h) e)))
          (refused_early invalid_argument)
    | inl (u, e) ↦
        subst Ends
          (sym (
            step_ok (checked invalid_argument (require_client_id req.client_id))
              (λ _. decode >>= after_decode) (ap (λ r. checked invalid_argument r h) e)))
          (decode-Ends e)
  ]
