-- ===== src/Kms/Tenant/Scope.antt =====
-- The name of a tenant's key in OpenBao belongs to that tenant and that alias alone.
use orbitport.Base.{
  ℕ, ◌≡◌, refl, sym, ap, ◌∙◌, List, [], ◌∷◌, ◌++◌, arith, inl, inr, length, take, min, length-take,
}
use orbitport.Base.Result.{Result, ok, err, Result-cases}
use orbitport.Text.{Text, lit, trim_space, utf8}
use orbitport.Hex.RoundTrip.{length-encode}
use orbitport.Kms.Tenant.{
  canonical_alias, tenant_namespace_for_bytes, tenant_namespace, scoped_backend_key, AliasError,
}

-- Two texts that begin with parts of one length, and are equal, have equal parts.
append-injective : (s t u v : Text) → length s ≡ length t → s ++ u ≡ t ++ v → (s ≡ t) × (u ≡ v)
append-injective [] [] u v l e = (refl, e)
append-injective [] (d ∷ t) u v l e = absurd (omega (arith, l))
append-injective (c ∷ s) [] u v l e = absurd (omega (arith, l))
append-injective (c ∷ s) (d ∷ t) u v l e =
    let head : c ≡ d = cc in
    let tails : s ++ u ≡ t ++ v = cc in
    let (same, rest) = append-injective s t u v (omega (arith, l)) tails in (cc, rest)

-- what a scoped key is made of
parts :
    (sha256 : List ℕ → List ℕ) (client_id alias key : Text)
    → scoped_backend_key sha256 client_id alias ≡ ok key
    → (a : Text) × (canonical_alias alias ≡ ok a)
      × (key ≡ tenant_namespace sha256 client_id ++ (lit "_" ++ a))
unfolding scoped_backend_key
parts sha256 client_id alias key e = elim (Result-cases (canonical_alias alias)) [
  | inl (a, good) ↦
      let made : ◌≡◌ {A = Result AliasError Text}
          (ok (tenant_namespace sha256 client_id ++ (lit "_" ++ a))) (ok key) =
        rw (good) at e in
      (a, good, cc)
  | inr (x, bad) ↦ let no : ◌≡◌ {A = Result AliasError Text} (err x) (ok key) = rw (bad) at e in cc
]

module _ (sha256 : List ℕ → List ℕ) (is_32_bytes : (m : List ℕ) → length (sha256 m) ≡ 32) where
  length-tenant_namespace : (client_id : Text) → length (tenant_namespace sha256 client_id) ≡ 39
  unfolding tenant_namespace tenant_namespace_for_bytes
  length-tenant_namespace client_id =
      let sum : List ℕ = sha256 (utf8 (trim_space client_id)) in
      let used : List ℕ = take (min 16 (length sum)) sum in
      let size : length used ≡ 16 =
        length-take (min 16 (length sum)) sum
        ∙ ap (λ l. min (min 16 l) l) (is_32_bytes (utf8 (trim_space client_id))) in
      omega (arith, length-encode used, size)

  -- Let the hash be 32 bytes long. If two clients get one backend key for two aliases, then the two
  -- aliases are the same canonical alias, and the clients have the same namespace. So a client
  -- reaches the key of another in OpenBao only if 16 bytes of their hashes collide.
  pub scoped_backend_key-injective :
      (client_id other_id alias other_alias key : Text)
      → scoped_backend_key sha256 client_id alias ≡ ok key
      → scoped_backend_key sha256 other_id other_alias ≡ ok key
      → (tenant_namespace sha256 client_id ≡ tenant_namespace sha256 other_id)
        × (canonical_alias alias ≡ canonical_alias other_alias)
  scoped_backend_key-injective c d a b key e f =
      let (x, x_is, x_key) = parts sha256 c a key e in
      let (y, y_is, y_key) = parts sha256 d b key f in
      let (spaces, rests) =
        append-injective (tenant_namespace sha256 c) (tenant_namespace sha256 d) (lit "_" ++ x)
          (lit "_" ++ y) (length-tenant_namespace c ∙ sym (length-tenant_namespace d))
          (sym x_key ∙ y_key) in
      let same : x ≡ y = cc (rests) in (spaces, x_is ∙ ap ok same ∙ sym y_is)
