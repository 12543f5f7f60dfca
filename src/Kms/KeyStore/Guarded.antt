-- ===== src/Kms/KeyStore/Guarded.antt =====
-- What a handler of the key store asks of OpenBao.
use orbitport.Base.{
  ◌≡◌, refl, sym, ap, ◌∙◌, subst, List, [], ◌∷◌, ◌++◌, append_assoc, ◌⊎◌, inl, inr,
}
use orbitport.Base.All.{All, All-append}
use orbitport.Base.Result.{Result, ok, err, Result-cases}
use orbitport.Base.Traced.{◌>>=◌, return, lift}
use orbitport.Text.{Text}
use orbitport.Kms.Tenant.{tenant_namespace, require_client_id}
use orbitport.Kms.KeyStore.{
  NameError, normalize_key_store_name, normalize_key_store_prefix, key_store_data_path,
  key_store_metadata_path,
}
use orbitport.Kms.KeyStore.Handlers.{
  StoreCall, post, get, list, delete, StoreError, StoreStatus, StoreWorld, M, argument, action_put,
  action_get, action_list, action_delete, key_type, namespace_type, authorize_key_store, admit_name,
  decode_secret, call_at, backend_status, not_found_or_backend_status,
}
use orbitport.Kms.KeyStore.Operations.{
  Operation, put_entry, get_entry, delete_entry, list_entries, Answer, stored, deleted,
  answer_record, remove_secret, put_secret, get_secret, list_secrets, delete_secret, key_store_put,
  key_store_get, key_store_list, key_store_delete, admit_prefix, allowed_then, put_admitted,
  put_authorized, get_authorized, list_authorized, delete_authorized, handle,
}

module _ (w : StoreWorld) (client_id : Text) where
  abbrev data_path : Text → Result NameError (List Text)
  data_path name = key_store_data_path w.sha256 w.client client_id name

  abbrev metadata_path : Text → Result NameError (List Text)
  metadata_path name = key_store_metadata_path w.sha256 w.client client_id name

  -- The call is at the client's path of the name; what is written names the client as its owner.
  abbrev pub IsOwn : Text → StoreCall → Type 0
  IsOwn name (post path r) =
      (data_path name ≡ ok path) × (r.owner ≡ tenant_namespace w.sha256 client_id) × (r.name ≡ name)
  IsOwn name (get path) = (data_path name ≡ ok path) ⊎ (metadata_path name ≡ ok path)
  IsOwn name (list path) = metadata_path name ≡ ok path
  IsOwn name (delete path) = metadata_path name ≡ ok path

  -- The policies allow the operation on the name that the request comes to.
  abbrev pub Allowed : Operation → Text → Type 0
  Allowed (put_entry value secret) name =
      (normalize_key_store_name value ≡ ok name)
      × (authorize_key_store w client_id action_put key_type name [] ≡ ok tt)
  Allowed (get_entry value) name =
      (normalize_key_store_name value ≡ ok name)
      × (authorize_key_store w client_id action_get key_type name [] ≡ ok tt)
  Allowed (list_entries value) name =
      (normalize_key_store_prefix value ≡ ok name)
      × (authorize_key_store w client_id action_list namespace_type [] name ≡ ok tt)
  Allowed (delete_entry value) name =
      (normalize_key_store_name value ≡ ok name)
      × (authorize_key_store w client_id action_delete key_type name [] ≡ ok tt)

  -- The calls of an operation: none, or, for an allowed name, calls at the client's paths of it.
  pub data Guarded (op : Operation) (h : List StoreCall) : List StoreCall → Type 0 where
    untouched : Guarded op h h
    touched :
        (name : Text) (added : List StoreCall)
        → Allowed op name
        → All (IsOwn name) added
        → Guarded op h (added ++ h)

  -- calls at the client's paths of a name
  record Touch (name : Text) (h k : List StoreCall) : Type 0 where
    added : List StoreCall
    whole : k ≡ added ++ h
    own : All (IsOwn name) added

  Touch-refl : (name : Text) (h : List StoreCall) → Touch name h h
  Touch-refl name h = record { added = []; whole = refl; own = tt }

  Touch-trans :
      (name : Text) (h k l : List StoreCall) → Touch name h k → Touch name k l → Touch name h l
  Touch-trans name h k l a b = record {
    added = b.added ++ a.added;
    whole = b.whole ∙ ap (λ t. b.added ++ t) a.whole ∙ sym (append_assoc b.added a.added h);
    own = All-append (IsOwn name) b.added a.added b.own a.own;
  }

  -- what comes after a result
  abbrev then_with :
      {A B : Type 0}
      → Result StoreStatus A × List StoreCall
      → (A → M B)
      → Result StoreStatus B × List StoreCall
  then_with r f = elim (r.0) [ ok a ↦ f a r.1 | err e ↦ (err e, r.1) ]

  Touch-then :
      {A B : Type 0} (name : Text) (h : List StoreCall) (r : Result StoreStatus A × List StoreCall)
      (f : A → M B)
      → Touch name h r.1
      → ((a : A) (k : List StoreCall) → Touch name k (f a k).1)
      → Touch name h (then_with r f).1
  Touch-then name h (ok a, k) f t g = Touch-trans name h k (f a k).1 t (g a k)
  Touch-then name h (err e, k) f t g = t

  call_at-Touch :
      {A B : Type 0} (name : Text) (h : List StoreCall) (target : Result NameError (List Text))
      (call : List Text → StoreCall) (reply : List StoreCall → Result StoreError A)
      (report : Result StoreError A → Result StoreStatus B)
      → ((path : List Text) → target ≡ ok path → IsOwn name (call path))
      → Touch name h (call_at w target call reply report h).1
  unfolding call_at
  call_at-Touch name h (err e) call reply report f = Touch-refl name h
  call_at-Touch name h (ok path) call reply report f = record {
    added = call path ∷ [];
    whole = refl;
    own = (f path refl, tt);
  }

  touched-Guarded :
      (op : Operation) (name : Text) (h k : List StoreCall)
      → Allowed op name
      → Touch name h k
      → Guarded op h k
  touched-Guarded op name h k a t =
      subst (Guarded op h) (sym t.whole) (touched name t.added a t.own)

  -- a check that makes no call
  lift-Guarded :
      {A B : Type 0} (op : Operation) (h : List StoreCall) (r : Result StoreStatus A) (f : A → M B)
      → ((a : A) → r ≡ ok a → Guarded op h (f a h).1)
      → Guarded op h ((lift r >>= f) h).1
  lift-Guarded op h (ok a) f g = g a refl
  lift-Guarded op h (err e) f g = untouched

  allowed_then-Guarded :
      (op : Operation) (name : Text) (h : List StoreCall) (r : Result StoreStatus (Unit {0}))
      (m : M Answer)
      → (r ≡ ok tt → Allowed op name)
      → Touch name h (m h).1
      → Guarded op h (allowed_then w client_id r m h).1
  unfolding allowed_then
  allowed_then-Guarded op name h (ok tt) m f t = touched-Guarded op name h (m h).1 (f refl) t
  allowed_then-Guarded op name h (err e) m f t = untouched

  argument-ok : {E A : Type 0} (r : Result E A) (a : A) → argument r ≡ ok a → r ≡ ok a
  unfolding argument
  argument-ok (ok b) a e = cc
  argument-ok (err x) a e = cc

  admit_name-ok :
      (value name : Text)
      → admit_name w client_id value ≡ ok name
      → normalize_key_store_name value ≡ ok name
  unfolding admit_name
  admit_name-ok value name = elim (Result-cases (require_client_id client_id)) [
    | inl (done, e) ↦ rw (e, admit_name) (argument-ok (normalize_key_store_name value) name)
    | inr (x, e) ↦ rw (e, admit_name) (λ h. cc)
  ]

  admit_prefix-ok :
      (value name : Text)
      → admit_prefix w client_id value ≡ ok name
      → normalize_key_store_prefix value ≡ ok name
  unfolding admit_prefix
  admit_prefix-ok value name = elim (Result-cases (require_client_id client_id)) [
    | inl (done, e) ↦ rw (e, admit_prefix) (argument-ok (normalize_key_store_prefix value) name)
    | inr (x, e) ↦ rw (e, admit_prefix) (λ h. cc)
  ]

  put_secret-Touch :
      (name secret : Text) (h : List StoreCall)
      → Touch name h (put_secret w client_id name secret h).1
  unfolding put_secret
  put_secret-Touch name secret h =
      Touch-then name h (call_at w (data_path name) _ w.post_reply _ h)
        (λ version. return (stored name version))
        (call_at-Touch name h (data_path name) _ w.post_reply _ (λ path e. (e, refl, refl)))
        (λ version k. Touch-refl name k)

  get_secret-Touch :
      (name : Text) (h : List StoreCall) → Touch name h (get_secret w client_id name h).1
  unfolding get_secret answer_record
  get_secret-Touch name h =
      Touch-then name h (call_at w (data_path name) get w.get_reply _ h)
        (answer_record w client_id name)
        (call_at-Touch name h (data_path name) get w.get_reply _ (λ path e. inl e))
        (λ r k. Touch-refl name k)

  list_secrets-Touch :
      (name : Text) (h : List StoreCall) → Touch name h (list_secrets w client_id name h).1
  unfolding list_secrets
  list_secrets-Touch name h =
      call_at-Touch name h (metadata_path name) list w.list_reply _ (λ path e. e)

  remove_secret-Touch :
      (name : Text) (h : List StoreCall) → Touch name h (remove_secret w client_id name h).1
  unfolding remove_secret
  remove_secret-Touch name h =
      Touch-then name h (call_at w (metadata_path name) delete w.delete_reply backend_status h)
        (λ _. return (deleted name))
        (call_at-Touch name h (metadata_path name) delete w.delete_reply backend_status
          (λ path e. e))
        (λ done k. Touch-refl name k)

  delete_secret-Touch :
      (name : Text) (h : List StoreCall) → Touch name h (delete_secret w client_id name h).1
  unfolding delete_secret
  delete_secret-Touch name h =
      Touch-then name h
        (call_at w (metadata_path name) get w.exists_reply not_found_or_backend_status h)
        (λ _. remove_secret w client_id name)
        (call_at-Touch name h (metadata_path name) get w.exists_reply not_found_or_backend_status
          (λ path e. inr e))
        (λ done k. remove_secret-Touch name k)

  -- Whatever operation of the key store a client asks for and however it ends, OpenBao is asked nothing,
  -- or only at the client's own paths of the name that the request comes to once it is trimmed and
  -- checked, and only after the policies have allowed this action of this client on this name; a record
  -- that is written names the client as its owner.
  pub handle-Guarded :
      (op : Operation) (h : List StoreCall) → Guarded op h (handle w client_id op h).1
  unfolding handle key_store_put put_admitted put_authorized key_store_get get_authorized
      key_store_list list_authorized key_store_delete delete_authorized
  handle-Guarded (put_entry value json) h =
      let op = put_entry value json in
      lift-Guarded op h (admit_name w client_id value) (put_admitted w client_id json) (λ name e.
        lift-Guarded op h (decode_secret w json) (put_authorized w client_id name) (λ secret d.
          allowed_then-Guarded op name h
            (authorize_key_store w client_id action_put key_type name [])
            (put_secret w client_id name secret) (λ a. (admit_name-ok value name e, a))
            (put_secret-Touch name secret h)))
  handle-Guarded (get_entry value) h =
      let op = get_entry value in
      lift-Guarded op h (admit_name w client_id value) (get_authorized w client_id) (λ name e.
        allowed_then-Guarded op name h (authorize_key_store w client_id action_get key_type name [])
          (get_secret w client_id name) (λ a. (admit_name-ok value name e, a))
          (get_secret-Touch name h))
  handle-Guarded (list_entries value) h =
      let op = list_entries value in
      lift-Guarded op h (admit_prefix w client_id value) (list_authorized w client_id) (λ name e.
        allowed_then-Guarded op name h
          (authorize_key_store w client_id action_list namespace_type [] name)
          (list_secrets w client_id name) (λ a. (admit_prefix-ok value name e, a))
          (list_secrets-Touch name h))
  handle-Guarded (delete_entry value) h =
      let op = delete_entry value in
      lift-Guarded op h (admit_name w client_id value) (delete_authorized w client_id) (λ name e.
        allowed_then-Guarded op name h
          (authorize_key_store w client_id action_delete key_type name [])
          (delete_secret w client_id name) (λ a. (admit_name-ok value name e, a))
          (delete_secret-Touch name h))
