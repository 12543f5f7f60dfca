-- ===== src/Kms/Cipher/Guarded.antt =====
-- The calls that a handler makes: metadata is read in the client's own namespace only, and a
-- ciphertext is given to OpenBao only with the key of that metadata.
use orbitport.Base.{
  ℕ, ◌≡◌, sym, ap, ◌∙◌, subst, Bool, true, false, List, ◌∷◌, if◌then◌else◌, Bool-cases, inl, inr,
}
use orbitport.Base.Traced.{◌>>=◌, return, step_ok, step_err}
use orbitport.Base.Result.{Result, ok, err, Result-cases}
use orbitport.Text.{Text}
use orbitport.Kms.Spec.{normalize_scheme}
use orbitport.Kms.Tenant.{resolve_key_ref, tenant_namespace}
use orbitport.Kms.Calls.{
  KeyMetadata, normalize_metadata, Call, gets_metadata, OpenBao, Status, internal, ApiError, M,
}
use orbitport.Kms.Cipher.{
  foreign_owner, read_status, read_metadata, provider_for_scheme, get_metadata, metadata_provider,
}

module _ (sha256 : List ℕ → List ℕ) (bao : OpenBao) where
  abbrev pub asks : Text → Text → List Call → List Call
  asks client_id key h = gets_metadata (tenant_namespace sha256 client_id) key ∷ h

  -- What a look for metadata comes to: nothing asked, a refusal, or metadata that has no owner or the
  -- client as its owner.
  pub data Found (client_id key_id : Text) (h : List Call)
      : Result Status (KeyMetadata × Bool) × List Call → Type 0 where
    unasked : (s : Status) → Found client_id key_id h (err s, h)
    refused : (s : Status) (key : Text) → Found client_id key_id h (err s, asks client_id key h)
    found :
        (key alias : Text) (raw : KeyMetadata) (is_transit : Bool)
        → resolve_key_ref key_id ≡ ok (key, alias)
        → bao.metadata (asks client_id key h) ≡ ok raw
        → foreign_owner client_id (normalize_metadata raw) ≡ false
        → Found client_id key_id h (ok (normalize_metadata raw, is_transit), asks client_id key h)

  module _ (client_id : Text) (h : List Call) where
    read_failed :
        (key : Text) {x : ApiError}
        → bao.metadata (asks client_id key h) ≡ err x
        → get_metadata sha256 bao client_id key h ≡ (err (read_status x), asks client_id key h)
    unfolding get_metadata read_metadata
    read_failed key e = ap (λ r. (read_metadata client_id r, asks client_id key h)) e

    read_foreign :
        (key : Text) {raw : KeyMetadata}
        → bao.metadata (asks client_id key h) ≡ ok raw
        → foreign_owner client_id (normalize_metadata raw) ≡ true
        → get_metadata sha256 bao client_id key h ≡ (err internal, asks client_id key h)
    unfolding get_metadata read_metadata
    read_foreign key {raw} e f =
        ap (λ r. (read_metadata client_id r, asks client_id key h)) e
        ∙ ap (λ b. (if b then err internal else ok (normalize_metadata raw), asks client_id key h))
            f

    read_own :
        (key : Text) {raw : KeyMetadata}
        → bao.metadata (asks client_id key h) ≡ ok raw
        → foreign_owner client_id (normalize_metadata raw) ≡ false
        → get_metadata sha256 bao client_id key h
          ≡ (ok (normalize_metadata raw), asks client_id key h)
    unfolding get_metadata read_metadata
    read_own key {raw} e f =
        ap (λ r. (read_metadata client_id r, asks client_id key h)) e
        ∙ ap (λ b. (if b then err internal else ok (normalize_metadata raw), asks client_id key h))
            f

    abbrev with_provider : KeyMetadata → M (KeyMetadata × Bool)
    with_provider m = provider_for_scheme m.scheme >>= λ t. return (m, t)

    abbrev look : Text × Text → M (KeyMetadata × Bool)
    look r = get_metadata sha256 bao client_id r.0 >>= with_provider

    with_provider-Found :
        (key_id key alias : Text) (raw : KeyMetadata)
        → resolve_key_ref key_id ≡ ok (key, alias)
        → bao.metadata (asks client_id key h) ≡ ok raw
        → foreign_owner client_id (normalize_metadata raw) ≡ false
        → Found client_id key_id h (with_provider (normalize_metadata raw) (asks client_id key h))
    unfolding provider_for_scheme
    with_provider-Found key_id key alias raw e q own =
        elim (Result-cases (normalize_scheme (normalize_metadata raw).scheme)) [
          | inr (x, z) ↦ rw (z, provider_for_scheme) (refused _ key)
          | inl (scheme, z) ↦ rw (z, provider_for_scheme) (found key alias raw _ e q own)
        ]

    look-Found :
        (key_id key alias : Text)
        → resolve_key_ref key_id ≡ ok (key, alias)
        → Found client_id key_id h (look (key, alias) h)
    look-Found key_id key alias e = elim (Result-cases (bao.metadata (asks client_id key h))) [
      | inr (x, q) ↦
          subst (Found client_id key_id h)
            (sym
              (step_err (get_metadata sha256 bao client_id key) with_provider (read_failed key q)))
            (refused _ key)
      | inl (raw, q) ↦ elim (Bool-cases (foreign_owner client_id (normalize_metadata raw))) [
        | inl foreign ↦
            subst (Found client_id key_id h)
              (sym (
                step_err (get_metadata sha256 bao client_id key) with_provider
                  (read_foreign key q foreign)))
              (refused _ key)
        | inr own ↦
            subst (Found client_id key_id h)
              (sym (
                step_ok (get_metadata sha256 bao client_id key) with_provider (read_own key q own)))
              (with_provider-Found key_id key alias raw e q own)
      ]
    ]

    -- A look for metadata asks for nothing but one record in the client's own namespace; it finds one
    -- only when the record has no owner, or the client as its owner.
    pub metadata_provider-Found :
        (key_id : Text) → Found client_id key_id h (metadata_provider sha256 bao client_id key_id h)
    unfolding metadata_provider
    metadata_provider-Found key_id = elim (Result-cases (resolve_key_ref key_id)) [
      | inr (x, e) ↦ rw (e) (unasked _)
      | inl ((key, alias), e) ↦ rw (e) (look-Found key_id key alias e)
    ]
