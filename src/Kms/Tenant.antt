-- ===== src/Kms/Tenant.antt =====
-- plugins/pkg/plugin/kms/tenant.go, and `validateAlias` and `requireClientID` of plugin.go: how a
-- tenant's alias becomes the id of a key and the name of the key in OpenBao.
pub mod Canonical
pub mod Scope
use orbitport.Base.{
  ℕ, Bool, true, false, not, List, [], ◌∷◌, ◌++◌, Option, none, some, ltb, leb, ◌==◌, ◌||◌, ◌&&◌,
  if◌then◌else◌, take, min, length,
}
use orbitport.Base.Result.{Result, ok, err, ◌>>=◌, ◌>>◌, fail_if}
use orbitport.Text.{Text, is_empty, lit, trim_space, strip_prefix, byte_len, utf8}
use orbitport.Hex

pub data AliasError : Type 0 where
  alias_required alias_too_long alias_reserved alias_characters key_id_required : AliasError
  client_id_required : AliasError

abbrev pub key_id_prefix : Text
key_id_prefix = lit "kms:"

-- `strings.HasPrefix`
unfoldable pub has_prefix : Text → Text → Bool
has_prefix p s = elim (strip_prefix p s) [ none ↦ false | some t ↦ true ]

-- `strings.TrimPrefix`
unfoldable pub trim_prefix : Text → Text → Text
trim_prefix p s = elim (strip_prefix p s) [ none ↦ s | some t ↦ t ]

abbrev pub is_alnum : ℕ → Bool
is_alnum c = (leb b'0' c && leb c b'9') || (leb b'A' c && leb c b'Z') || (leb b'a' c && leb c b'z')

-- `[A-Za-z0-9.-]`
unfoldable pub is_alias_char : ℕ → Bool
is_alias_char c = is_alnum c || c == b'.' || c == b'-'

-- whether all code points pass
unfoldable pub all_chars : (ℕ → Bool) → Text → Bool
all_chars p [] = true
all_chars p (c ∷ s) = p c && all_chars p s

unfoldable pub validate_alias : Text → Result AliasError (Unit {0})
unfolding has_prefix
validate_alias alias =
    if is_empty alias
    then err alias_required
    else if ltb 128 (byte_len alias)
    then err alias_too_long
    else if has_prefix key_id_prefix alias
    then err alias_reserved
    else if not (all_chars is_alias_char alias)
    then err alias_characters
    else ok tt

unfoldable pub canonical_alias : Text → Result AliasError Text
unfolding validate_alias
canonical_alias alias = do let trimmed = trim_space alias; validate_alias trimmed; ok trimmed

unfoldable pub canonical_key_id : Text → Result AliasError Text
canonical_key_id alias = do normalized ← canonical_alias alias; ok (key_id_prefix ++ normalized)

-- the key id and the alias that a reference stands for
unfoldable pub resolve_key_ref : Text → Result AliasError (Text × Text)
unfolding has_prefix trim_prefix
resolve_key_ref key_ref = do
  let trimmed = trim_space key_ref
  fail_if (is_empty trimmed) key_id_required
  if has_prefix key_id_prefix trimmed
      then (canonical_alias (trim_prefix key_id_prefix trimmed) >>= λ alias.
          ok (key_id_prefix ++ alias, alias))
      else (canonical_alias trimmed >>= λ alias. ok (key_id_prefix ++ alias, alias))

unfoldable pub require_client_id : Text → Result AliasError (Unit {0})
require_client_id client_id =
    if is_empty (trim_space client_id) then err client_id_required else ok tt

module _ (sha256 : List ℕ → List ℕ) where
  unfoldable pub tenant_namespace_for_bytes : Text → ℕ → Text
  tenant_namespace_for_bytes client_id size =
      let sum = sha256 (utf8 (trim_space client_id)) in
      lit "tenant_" ++ Hex.encode (take (min size (length sum)) sum)

  unfoldable pub tenant_namespace : Text → Text
  tenant_namespace client_id = tenant_namespace_for_bytes client_id 16

  unfoldable pub scoped_backend_key : Text → Text → Result AliasError Text
  scoped_backend_key client_id alias = do
    normalized ← canonical_alias alias
    ok (tenant_namespace client_id ++ (lit "_" ++ normalized))
