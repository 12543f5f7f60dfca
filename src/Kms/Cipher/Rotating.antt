-- ===== src/Kms/Cipher/Rotating.antt =====
-- A rotation that succeeds: what was asked of OpenBao, and what was written.
use orbitport.Base.{ℕ, ◌≡◌, Bool, false, not, List, ◌∷◌}
use orbitport.Base.Traced.{◌>>=◌, ◌>>◌, return}
use orbitport.Base.Result.{Result, ok}
use orbitport.Text.{Text}
use orbitport.Kms.Tenant.{resolve_key_ref, tenant_namespace}
use orbitport.Kms.Calls.{
  KeyMetadata, normalize_metadata, metadata_backend_key, TransitKeyInfo, exported_public_key, Call,
  puts_metadata, rotates, reads_key, OpenBao, internal, unimplemented, M, refuse_if, call,
}
use orbitport.Kms.Cipher.{foreign_owner, transit_rotate}
use orbitport.Kms.Cipher.Guarded.{asks}

module _ (sha256 : List ℕ → List ℕ) (bao : OpenBao) (client_id key_id : Text) (h : List Call) where
  -- The metadata that a look has found.
  pub record Looked (m : KeyMetadata) (k : List Call) : Type 0 where
    pub key : Text
    pub alias : Text
    pub raw : KeyMetadata
    pub resolved : resolve_key_ref key_id ≡ ok (key, alias)
    pub read : bao.metadata (asks sha256 bao client_id key h) ≡ ok raw
    pub normal : m ≡ normalize_metadata raw
    pub own : foreign_owner client_id m ≡ false
    pub calls : k ≡ asks sha256 bao client_id key h

  -- What a successful rotation has done.
  pub record Rotated (updated : KeyMetadata) (h' : List Call) : Type 0 where
    pub m : KeyMetadata
    pub k : List Call
    pub looked : Looked m k
    pub info : TransitKeyInfo
    pub told :
        bao.key_info (reads_key (metadata_backend_key m) ∷ rotates (metadata_backend_key m) ∷ k)
        ≡ ok info
    pub written :
        updated
        ≡ normalize_metadata (record m {
          primary_version = info.latest_version;
          public_key = exported_public_key info;
        })
    pub calls :
        h'
        ≡ puts_metadata (tenant_namespace sha256 client_id) updated.key_id updated
          ∷ reads_key (metadata_backend_key m)
          ∷ rotates (metadata_backend_key m)
          ∷ k

  abbrev store : KeyMetadata → M KeyMetadata
  store rotated =
      let updated = normalize_metadata rotated in
      call bao.done (puts_metadata (tenant_namespace sha256 client_id) updated.key_id updated)
        internal
      >> return updated

  abbrev behind : KeyMetadata × Bool → M KeyMetadata
  behind m = refuse_if (not m.1) unimplemented >> (transit_rotate sha256 bao m.0 >>= store)

  abbrev rotated_by : KeyMetadata → TransitKeyInfo → KeyMetadata
  rotated_by m info = record m {
    primary_version = info.latest_version;
    public_key = exported_public_key info;
  }
