-- ===== src/Kms/KeyStore.antt =====
-- plugins/pkg/plugin/kms/key_store.go and key_store_openbao.go: the names of stored secrets, and the
-- paths in OpenBao that they stand for. `path.Join` of Go's library is written out on segments.
pub mod Names
pub mod Handlers
pub mod Operations
pub mod Guarded
pub mod Retrieval
mod Tests
pub mod Paths
use orbitport.Base.{ℕ, Bool, true, false, not, List, [], ◌∷◌, ◌++◌, ltb, ◌==◌, ◌||◌, if◌then◌else◌}
use orbitport.Base.Result.{Result, ok, err, ◌>>=◌, ◌>>◌, fail_if}
use orbitport.Text.{
  Text, text_eq, is_empty, lit, trim_space, trim_slash, split, starts_with, ends_with, byte_len,
}
use orbitport.Kms.Tenant.{all_chars, is_alnum, tenant_namespace}

pub data NameError : Type 0 where
  name_required name_too_long slash_at_the_end invalid_segment unsupported_characters : NameError

-- `[A-Za-z0-9._-]`
unfoldable pub is_segment_char : ℕ → Bool
is_segment_char c = is_alnum c || c == b'.' || c == b'_' || c == b'-'

unfoldable pub validate_key_store_segment : Text → Result NameError (Unit {0})
validate_key_store_segment segment =
    if is_empty segment || text_eq segment (lit ".") || text_eq segment (lit "..")
    then err invalid_segment
    else if not (all_chars is_segment_char segment)
    then err unsupported_characters
    else ok tt

-- the loop over the segments
unfoldable pub validate_segments : List Text → Result NameError (Unit {0})
validate_segments [] = ok tt
validate_segments (s ∷ ss) = do validate_key_store_segment s; validate_segments ss

unfoldable pub normalize_key_store_name : Text → Result NameError Text
normalize_key_store_name value = do
  let name = trim_space value
  fail_if (is_empty name) name_required
  fail_if (ltb 256 (byte_len name)) name_too_long
  fail_if (starts_with b'/' name || ends_with b'/' name) slash_at_the_end
  validate_segments (split b'/' name)
  ok name

unfoldable pub normalize_key_store_prefix : Text → Result NameError Text
normalize_key_store_prefix value =
    let prefix = trim_slash (trim_space value) in
    if is_empty prefix then ok [] else do
      fail_if (ltb 256 (byte_len prefix)) name_too_long
      validate_segments (split b'/' prefix)
      ok prefix

unfoldable pub key_store_path_parts : Text → Result NameError (List Text)
key_store_path_parts value =
    let trimmed = trim_slash value in
    if is_empty trimmed
    then ok []
    else do validate_segments (split b'/' trimmed); ok (split b'/' trimmed)

unfoldable pub join_key_store_name : Text → Text → Text
join_key_store_name prefix name =
    let p = trim_slash prefix in
    let n = trim_slash name in
    if is_empty p then n else if is_empty n then p else p ++ (lit "/" ++ n)

-- One step of `path.Clean`: the segments so far, the last one first, and the next segment.
unfoldable pub clean_step : Bool → List Text → Text → List Text
clean_step rooted done segment =
    let up : List Text = elim done [
      | [] ↦ if rooted then [] else segment ∷ []
      | last ∷ before ↦ if text_eq last (lit "..") then segment ∷ last ∷ before else before
    ] in
    if is_empty segment || text_eq segment (lit ".")
    then done
    else if text_eq segment (lit "..")
    then up
    else segment ∷ done

unfoldable pub clean : Bool → List Text → List Text → List Text
clean rooted done [] = done
clean rooted done (s ∷ ss) = clean rooted (clean_step rooted done s) ss

-- the segments of the parts, each without the slashes around it
unfoldable pub part_segments : List Text → List Text
part_segments [] = []
part_segments (p ∷ ps) = split b'/' (trim_slash p) ++ part_segments ps

-- What the client is made with: the path of the base URL, and the mount of the store.
pub record StoreClient : Type 0 where
  pub rooted : Bool
  pub base_path : List Text
  pub key_store_mount : Text

-- `joinPath`: the segments of the URL's path, the last one first
unfoldable pub join_path : StoreClient → List Text → List Text
join_path c parts = clean c.rooted [] (c.base_path ++ part_segments parts)

module _ (sha256 : List ℕ → List ℕ) (c : StoreClient) where
  -- the parts in front of the name: `area` is `data` or `metadata`
  abbrev pub owner_parts : Text → Text → List Text
  owner_parts area client_id =
      lit "v1" ∷ c.key_store_mount ∷ area ∷ lit "owners" ∷ tenant_namespace sha256 client_id ∷ []

  unfoldable pub key_store_data_path : Text → Text → Result NameError (List Text)
  key_store_data_path client_id name = do
    parts ← key_store_path_parts name
    ok (join_path c (owner_parts (lit "data") client_id ++ parts))

  unfoldable pub key_store_metadata_path : Text → Text → Result NameError (List Text)
  key_store_metadata_path client_id prefix = do
    parts ← key_store_path_parts prefix
    ok (join_path c (owner_parts (lit "metadata") client_id ++ parts))
