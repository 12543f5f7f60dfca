-- ===== src/Kms/KeyStore/Tests.antt =====
-- A store whose paths keep what was written, and a client that stores a secret and reads it.
use orbitport.Base.{
  ◌≡◌, refl, Bool, true, false, List, [], ◌∷◌, ◌++◌, some, ◌&&◌, arith, inl, if◌then◌else◌,
}
use orbitport.Base.All.{All}
use orbitport.Base.Result.{Result, ok, err}
use orbitport.Text.{
  Text, lit, text_eq, is_empty, trim_space, trim_func, trim_left, trim_right, is_space, trim_slash,
  split, starts_with, ends_with, byte_len, utf8,
}
use orbitport.Text.Equal.{text_eq_iff, text_eq_refl}
use orbitport.Hex
use orbitport.Kms.Tenant.{
  require_client_id, tenant_namespace, tenant_namespace_for_bytes, all_chars, is_alnum,
}
use orbitport.Kms.KeyStore.{
  normalize_key_store_name, validate_segments, validate_key_store_segment, is_segment_char,
  key_store_data_path, key_store_path_parts, join_path, part_segments, clean, clean_step,
}
use orbitport.Kms.KeyStore.Handlers.{
  KeyStoreRecord, StoreCall, post, get, list, delete, StoreError, not_found, StoreWorld, allow,
  argument, backend_status, is_json_object, decode_secret, admit_name, authorize_key_store, call_at,
}
use orbitport.Kms.KeyStore.Operations.{
  put_entry, stored, put_secret, allowed_then, put_authorized, put_admitted, key_store_put,
  key_store_get, handle,
}
use orbitport.Kms.KeyStore.Guarded.{Guarded, handle-Guarded}
use orbitport.Kms.KeyStore.Retrieval.{IsQuiet, IsHonest, Retrieves, key_store_get-put}

abbrev path_eq : List Text → List Text → Bool
path_eq [] [] = true
path_eq [] (t ∷ ts) = false
path_eq (s ∷ ss) [] = false
path_eq (s ∷ ss) (t ∷ ts) = text_eq s t && path_eq ss ts

path_eq_refl : (p : List Text) → path_eq p p ≡ true
path_eq_refl [] = refl
path_eq_refl (s ∷ ss) = rw (text_eq_refl s, path_eq_refl ss) refl

path_eq→≡ : (p q : List Text) → path_eq p q ≡ true → p ≡ q
path_eq→≡ [] [] h = refl
path_eq→≡ [] (t ∷ ts) h = cc
path_eq→≡ (s ∷ ss) [] h = cc
path_eq→≡ (s ∷ ss) (t ∷ ts) h = ground (arith, text_eq_iff s t, path_eq→≡ ss ts)

abbrev last_written : List Text → List StoreCall → Result StoreError KeyStoreRecord
last_written path [] = err not_found
last_written path (post p r ∷ h) = if path_eq p path then ok r else last_written path h
last_written path (get p ∷ h) = last_written path h
last_written path (list p ∷ h) = last_written path h
last_written path (delete p ∷ h) = last_written path h

abbrev store : StoreWorld
store = record {
  sha256 = λ bytes. bytes;
  client = record { rooted = true; base_path = []; key_store_mount = lit "secret" };
  decide = some (λ request. allow);
  first_json = λ s. some (s, []);
  ends = λ rest. is_empty rest;
  is_json = λ s. true;
  post_reply = λ h. ok 1;
  get_reply = λ h. elim h [
    | [] ↦ err not_found
    | c ∷ l ↦ elim c [ get path ↦ last_written path l | _ ↦ err not_found ]
  ];
  exists_reply = λ h. ok tt;
  list_reply = λ h. ok [];
  delete_reply = λ h. ok tt;
  now_text = λ h. lit "now";
}

last_written-post :
    (path : List Text) (r : KeyStoreRecord) (others rest : List StoreCall)
    → All (IsQuiet path) others
    → last_written path (others ++ post path r ∷ rest) ≡ ok r
last_written-post path r [] rest q = rw (path_eq_refl path) refl
last_written-post path r (post p s ∷ os) rest (other, q) =
    ground (arith, path_eq→≡ p path, last_written-post path r os rest q)
last_written-post path r (get p ∷ os) rest (_, q) = last_written-post path r os rest q
last_written-post path r (list p ∷ os) rest (_, q) = last_written-post path r os rest q
last_written-post path r (delete p ∷ os) rest (no_deletion, q) = absurd no_deletion

store-IsHonest : IsHonest store
store-IsHonest path r others rest v posted q = inl (last_written-post path r others rest q)

handle-Guarded_example :
    Guarded store
      (lit "alice")
      (put_entry (lit " db ") (lit "{}"))
      []
      (handle store (lit "alice") (put_entry (lit " db ") (lit "{}")) []).1
handle-Guarded_example = handle-Guarded store (lit "alice") (put_entry (lit " db ") (lit "{}")) []

abbrev path : List Text
path = lit "db" ∷ lit "tenant_616c696365" ∷ lit "owners" ∷ lit "data" ∷ lit "secret" ∷ lit "v1" ∷ []

abbrev put_calls : List StoreCall
put_calls =
    post path (record {
      name = lit "db";
      owner = lit "tenant_616c696365";
      secret_json = lit "{}";
      updated_at = lit "now";
    })
    ∷ []

put :
    key_store_put store (lit "alice") (lit " db ") (lit "{}") []
    ≡ (ok (stored (lit "db") 1), put_calls)
unfolding key_store_put put_admitted put_authorized allowed_then admit_name require_client_id
    argument normalize_key_store_name trim_space trim_func trim_left trim_right is_space byte_len
    starts_with ends_with split validate_segments validate_key_store_segment text_eq all_chars
    is_segment_char is_alnum decode_secret is_json_object authorize_key_store put_secret call_at
    key_store_data_path key_store_path_parts trim_slash join_path part_segments clean clean_step
    tenant_namespace tenant_namespace_for_bytes utf8 backend_status Hex.encode Hex.digit
put = refl

key_store_get-put_example :
    Retrieves store
      (lit "alice")
      (lit "db")
      (lit "{}")
      (list path ∷ put_calls)
      (key_store_get store (lit "alice") (lit " db ") (list path ∷ put_calls)).0
unfolding decode_secret is_json_object trim_space trim_func trim_left trim_right is_space
    starts_with authorize_key_store
key_store_get-put_example =
    key_store_get-put store (lit "alice") store-IsHonest (lit " db ") (lit "{}") (lit "db")
      (lit "{}") 1 [] put_calls (list path ∷ []) put refl (λ p e. (tt, tt)) refl
