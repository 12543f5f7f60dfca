-- ===== src/Kms/KeyStore/Operations.antt =====
-- The handlers of plugins/pkg/plugin/kms/key_store.go over the calls of key_store_openbao.go.
use orbitport.Base.{ℕ, List, [], if◌then◌else◌}
use orbitport.Base.Result.{Result, ok, err}
use orbitport.Base.Traced.{◌>>=◌, return, lift}
use orbitport.Text.{Text}
use orbitport.Kms.Tenant.{tenant_namespace, require_client_id}
use orbitport.Kms.KeyStore.{
  normalize_key_store_prefix, key_store_data_path, key_store_metadata_path,
}
use orbitport.Kms.KeyStore.Handlers.{
  KeyStoreRecord, post, get, list, delete, StoreError, not_found, backend, StoreStatus,
  invalid_argument, permission_denied, internal, StoreWorld, M, action_put, action_get, action_list,
  action_delete, key_type, namespace_type, argument, backend_status, not_found_or_backend_status,
  sort_strings, listed_names, authorize_key_store, decode_secret, is_valid_record, admit_name,
  call_at,
}

pub data Operation : Type 0 where
  put_entry : Text → Text → Operation
  get_entry delete_entry : Text → Operation
  list_entries : Text → Operation

pub data Answer : Type 0 where
  stored : Text → ℕ → Answer
  fetched : Text → Text → Answer
  listed : List Text → Answer
  deleted : Text → Answer

module _ (w : StoreWorld) (client_id : Text) where
  unfoldable pub put_secret : Text → Text → M Answer
  put_secret name secret h =
      let record_of_it : KeyStoreRecord = record {
        name = name;
        owner = tenant_namespace w.sha256 client_id;
        secret_json = secret;
        updated_at = w.now_text h;
      } in
      (call_at w (key_store_data_path w.sha256 w.client client_id name)
            (λ path. post path record_of_it) w.post_reply backend_status
          >>= λ version. return (stored name version))
        h

  -- the check of a stored record, and the answer
  unfoldable pub answer_record : Text → KeyStoreRecord → M Answer
  answer_record name r = lift (
      if is_valid_record w r client_id name
      then ok (fetched name r.secret_json)
      else err permission_denied)

  unfoldable pub get_secret : Text → M Answer
  get_secret name =
      call_at w (key_store_data_path w.sha256 w.client client_id name) get w.get_reply
        not_found_or_backend_status
      >>= answer_record name

  -- how the listing is reported: a missing folder is empty
  unfoldable pub listing_status : Text → Result StoreError (List Text) → Result StoreStatus Answer
  listing_status prefix (ok keys) = ok (listed (sort_strings (listed_names prefix keys)))
  listing_status prefix (err not_found) = ok (listed [])
  listing_status prefix (err backend) = err internal

  unfoldable pub list_secrets : Text → M Answer
  list_secrets prefix =
      call_at w (key_store_metadata_path w.sha256 w.client client_id prefix) list w.list_reply
        (listing_status prefix)

  -- `deleteKeyStoreSecret`
  unfoldable pub remove_secret : Text → M Answer
  remove_secret name =
      call_at w (key_store_metadata_path w.sha256 w.client client_id name) delete w.delete_reply
        backend_status
      >>= λ _. return (deleted name)

  unfoldable pub delete_secret : Text → M Answer
  delete_secret name =
      call_at w (key_store_metadata_path w.sha256 w.client client_id name) get w.exists_reply
        not_found_or_backend_status
      >>= λ _. remove_secret name

  -- the part of a handler behind the policies
  unfoldable pub allowed_then : Result StoreStatus (Unit {0}) → M Answer → M Answer
  allowed_then allowed m = lift allowed >>= λ _. m

  unfoldable pub put_authorized : Text → Text → M Answer
  put_authorized name secret =
      allowed_then (authorize_key_store w client_id action_put key_type name [])
        (put_secret name secret)

  unfoldable pub put_admitted : Text → Text → M Answer
  put_admitted secret_json name = lift (decode_secret w secret_json) >>= put_authorized name

  -- `KeyStorePut`
  unfoldable pub key_store_put : Text → Text → M Answer
  key_store_put value secret_json = lift (admit_name w client_id value) >>= put_admitted secret_json

  unfoldable pub get_authorized : Text → M Answer
  get_authorized name =
      allowed_then (authorize_key_store w client_id action_get key_type name []) (get_secret name)

  -- `KeyStoreGet`
  unfoldable pub key_store_get : Text → M Answer
  key_store_get value = lift (admit_name w client_id value) >>= get_authorized

  unfoldable pub admit_prefix : Text → Result StoreStatus Text
  admit_prefix value = elim (require_client_id client_id) [
    | err e ↦ err invalid_argument
    | ok done ↦ argument (normalize_key_store_prefix value)
  ]

  unfoldable pub list_authorized : Text → M Answer
  list_authorized prefix =
      allowed_then (authorize_key_store w client_id action_list namespace_type [] prefix)
        (list_secrets prefix)

  -- `KeyStoreList`
  unfoldable pub key_store_list : Text → M Answer
  key_store_list value = lift (admit_prefix value) >>= list_authorized

  unfoldable pub delete_authorized : Text → M Answer
  delete_authorized name =
      allowed_then (authorize_key_store w client_id action_delete key_type name [])
        (delete_secret name)

  -- `KeyStoreDelete`
  unfoldable pub key_store_delete : Text → M Answer
  key_store_delete value = lift (admit_name w client_id value) >>= delete_authorized

  unfoldable pub handle : Operation → M Answer
  handle (put_entry name secret) = key_store_put name secret
  handle (get_entry name) = key_store_get name
  handle (list_entries prefix) = key_store_list prefix
  handle (delete_entry name) = key_store_delete name
