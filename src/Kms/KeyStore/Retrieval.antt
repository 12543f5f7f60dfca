-- ===== src/Kms/KeyStore/Retrieval.antt =====
-- What was stored is retrieved.
use orbitport.Base.{
  ℕ, ◌≡◌, ◌≢◌, refl, ap, ◌∙◌, subst, true, false, sym, ◌⊎◌, List, [], ◌∷◌, ◌++◌, ◌&&◌, Bool-cases,
  Option-cases, inl, inr,
}
use orbitport.Base.All.{All}
use orbitport.Base.Result.{Result, ok, err}
use orbitport.Base.Traced.{return, lift, lift-ok, >>=-ok, step_ok, step_err}
use orbitport.Text.{Text, is_empty, trim_space, starts_with}
use orbitport.Text.Equal.{text_eq_refl}
use orbitport.Kms.Tenant.{tenant_namespace}
use orbitport.Kms.KeyStore.{NameError, key_store_data_path}
use orbitport.Kms.KeyStore.Handlers.{
  KeyStoreRecord, StoreCall, post, get, list, delete, StoreError, backend, StoreStatus, internal,
  StoreWorld, action_put, action_get, key_type, authorize_key_store, admit_name, is_json_object,
  decode_secret, call_at, is_valid_record, backend_status, not_found_or_backend_status,
}
use orbitport.Kms.KeyStore.Operations.{
  Answer, stored, fetched, answer_record, put_secret, get_secret, allowed_then, put_authorized,
  put_admitted, key_store_put, get_authorized, key_store_get,
}

-- The call leaves what is stored at the path as it is. A path is deleted under another name, that of its
-- metadata; so any deletion is excluded.
abbrev pub IsQuiet : List Text → StoreCall → Type 0
IsQuiet path (post p r) = p ≢ path
IsQuiet path (get p) = Unit
IsQuiet path (list p) = Unit
IsQuiet path (delete p) = ⊥

-- Where a record was written to a path, which OpenBao has answered with a version, a read of the path
-- gives that record or fails, as long as nothing else is written to the path and nothing is deleted.
abbrev pub IsHonest : StoreWorld → Type 0
IsHonest w =
    (path : List Text) (r : KeyStoreRecord) (others rest : List StoreCall)
    → (v : ℕ) → w.post_reply (post path r ∷ rest) ≡ ok v
    → All (IsQuiet path) others
    → (w.get_reply (get path ∷ (others ++ post path r ∷ rest)) ≡ ok r)
      ⊎ (w.get_reply (get path ∷ (others ++ post path r ∷ rest)) ≡ err backend)

module _ (w : StoreWorld) (client_id : Text) where
  -- what a successful put has done
  record Stored (value json name : Text) (h k : List StoreCall) : Type 0 where
    secret : Text
    path : List Text
    written : KeyStoreRecord
    admitted : admit_name w client_id value ≡ ok name
    decoded : decode_secret w json ≡ ok secret
    at_path : key_store_data_path w.sha256 w.client client_id name ≡ ok path
    owner : written.owner ≡ tenant_namespace w.sha256 client_id
    named : written.name ≡ name
    kept : written.secret_json ≡ secret
    version : ℕ
    confirmed : w.post_reply (post path written ∷ h) ≡ ok version
    calls : k ≡ post path written ∷ h

  call_at-ok :
      {A B : Type 0} (target : Result NameError (List Text)) (call : List Text → StoreCall)
      (reply : List StoreCall → Result StoreError A)
      (report : Result StoreError A → Result StoreStatus B) (h k : List StoreCall) (b : B)
      → call_at w target call reply report h ≡ (ok b, k)
      → (path : List Text) × (target ≡ ok path)
        × (k ≡ call path ∷ h)
        × (report (reply (call path ∷ h)) ≡ ok b)
  unfolding call_at
  call_at-ok (ok path) call reply report h k b e =
      (path, refl, ap (λ p. p.1) (sym e), ap (λ p. p.0) e)
  call_at-ok (err x) call reply report h k b e = cc

  backend_status-ok :
      {A : Type 0} (r : Result StoreError A) (a : A) → backend_status r ≡ ok a → r ≡ ok a
  unfolding backend_status
  backend_status-ok (ok b) a e = cc
  backend_status-ok (err x) a e = cc

  put_secret-Stored :
      (value json name secret : Text) (h k : List StoreCall) (a : Answer)
      → admit_name w client_id value ≡ ok name
      → decode_secret w json ≡ ok secret
      → put_secret w client_id name secret h ≡ (ok a, k)
      → Stored value json name h k × ((v : ℕ) × (a ≡ stored name v))
  unfolding put_secret
  put_secret-Stored value json name secret h k a admitted decoded e =
      let written : KeyStoreRecord = record {
        name = name;
        owner = tenant_namespace w.sha256 client_id;
        secret_json = secret;
        updated_at = w.now_text h;
      } in
      let target = key_store_data_path w.sha256 w.client client_id name in
      let (v, k1, e1, rest) =
        >>=-ok (call_at w target (λ path. post path written) w.post_reply backend_status)
          (λ version. return (stored name version)) h k e in
      let (path, at_path, k1_is, reported) =
        call_at-ok target (λ path. post path written) w.post_reply backend_status h k1 v e1 in
      let (same, k_is) = lift-ok (ok (stored name v)) rest in
      (
        record {
          secret = secret;
          path = path;
          written = written;
          admitted = admitted;
          decoded = decoded;
          at_path = at_path;
          owner = refl;
          named = refl;
          kept = refl;
          version = v;
          confirmed = backend_status-ok (w.post_reply (post path written ∷ h)) v reported;
          calls = k_is ∙ k1_is;
        },
        (v, cc),
      )

  key_store_put-Stored :
      (value json name : Text) (v : ℕ) (h k : List StoreCall)
      → key_store_put w client_id value json h ≡ (ok (stored name v), k)
      → Stored value json name h k
  unfolding key_store_put put_admitted put_authorized allowed_then
  key_store_put-Stored value json name v h k e =
      let (name', k1, e1, rest1) =
        >>=-ok (lift (admit_name w client_id value)) (put_admitted w client_id json) h k e in
      let (admitted, k1_is) = lift-ok (admit_name w client_id value) e1 in
      let (secret, k2, e2, rest2) =
        >>=-ok (lift (decode_secret w json)) (put_authorized w client_id name') k1 k rest1 in
      let (decoded, k2_is) = lift-ok (decode_secret w json) e2 in
      let (done, k3, e3, rest3) =
        >>=-ok (lift (authorize_key_store w client_id action_put key_type name' []))
          (λ _. put_secret w client_id name' secret) k2 k rest2 in
      let (allowed, k3_is) =
        lift-ok (authorize_key_store w client_id action_put key_type name' []) e3 in
      let h_is : k3 ≡ h = k3_is ∙ k2_is ∙ k1_is in
      let put : put_secret w client_id name' secret h ≡ (ok (stored name v), k) =
        subst (λ l. put_secret w client_id name' secret l ≡ (ok (stored name v), k)) h_is rest3 in
      let (s, (v', same)) =
        put_secret-Stored value json name' secret h k (stored name v) admitted decoded put in
      let same_name : name' ≡ name = cc in subst (λ n. Stored value json n h k) same_name s

  starts_with-full : (c : ℕ) (s : Text) → starts_with c s ≡ true → is_empty s ≡ false
  unfolding starts_with
  starts_with-full c [] h = cc
  starts_with-full c (d ∷ s) h = refl

  decode_secret-object :
      (json secret : Text)
      → decode_secret w json ≡ ok secret
      → (is_json_object w secret ≡ true) × (is_empty (trim_space secret) ≡ false)
  unfolding decode_secret is_json_object
  decode_secret-object json secret = elim (Option-cases (w.first_json json)) [
    | inl none_there ↦ rw (none_there, decode_secret) (λ e. cc)
    | inr ((first, rest), f) ↦ elim (Bool-cases (starts_with b'{' (trim_space first))) [
      | inr other ↦ rw (f, other, decode_secret, is_json_object) (λ e. cc)
      | inl braced ↦ elim (Bool-cases (w.is_json (trim_space first))) [
        | inr bad ↦ rw (f, braced, bad, decode_secret, is_json_object) (λ e. cc)
        | inl good ↦ elim (Bool-cases (w.ends rest)) [
          | inr more ↦ rw (f, braced, good, more, decode_secret, is_json_object) (λ e. cc)
          | inl whole ↦
              rw (f, braced, good, whole, decode_secret, is_json_object)
                (λ e.
                  let same : first ≡ secret = cc in
                  subst
                    (λ t.
                      ((starts_with b'{' (trim_space t) && w.is_json (trim_space t)) ≡ true)
                      × (is_empty (trim_space t) ≡ false))
                    same (rw (braced, good) refl, starts_with-full b'{' (trim_space first) braced))
        ]
      ]
    ]
  ]

  Stored-is_valid_record :
      (value json name : Text) (h k : List StoreCall) (s : Stored value json name h k)
      → is_valid_record w s.written client_id name ≡ true
  unfolding is_valid_record
  Stored-is_valid_record value json name h k s =
      let (object, full) = decode_secret-object json s.secret s.decoded in
      rw
        (
          s.owner,
          s.named,
          s.kept,
          text_eq_refl (tenant_namespace w.sha256 client_id),
          text_eq_refl name,
          full,
          object,
        )
        refl

  call_at-get :
      (name : Text) (path : List Text) (l : List StoreCall) (r : KeyStoreRecord)
      → key_store_data_path w.sha256 w.client client_id name ≡ ok path
      → w.get_reply (get path ∷ l) ≡ ok r
      → call_at w
          (key_store_data_path w.sha256 w.client client_id name)
          get
          w.get_reply
          not_found_or_backend_status
          l
        ≡ (ok r, get path ∷ l)
  unfolding call_at not_found_or_backend_status
  call_at-get name path l r at_path got =
      rw (at_path, got, call_at, not_found_or_backend_status) refl

  answer_record-valid :
      (name : Text) (r : KeyStoreRecord) (l : List StoreCall)
      → is_valid_record w r client_id name ≡ true
      → (answer_record w client_id name r l).0 ≡ ok (fetched name r.secret_json)
  unfolding answer_record
  answer_record-valid name r l valid = rw (valid, answer_record) refl

  call_at-failed :
      (name : Text) (path : List Text) (l : List StoreCall)
      → key_store_data_path w.sha256 w.client client_id name ≡ ok path
      → w.get_reply (get path ∷ l) ≡ err backend
      → call_at w
          (key_store_data_path w.sha256 w.client client_id name)
          get
          w.get_reply
          not_found_or_backend_status
          l
        ≡ (err internal, get path ∷ l)
  unfolding call_at not_found_or_backend_status
  call_at-failed name path l at_path failed =
      rw (at_path, failed, call_at, not_found_or_backend_status) refl

  -- How a retrieval ends after the calls `l`: with this secret, or with an internal error because OpenBao
  -- failed the read.
  abbrev pub Retrieves : Text → Text → List StoreCall → Result StoreStatus Answer → Type 0
  Retrieves name secret l r =
      (r ≡ ok (fetched name secret))
      ⊎ ((r ≡ err internal)
          × ((path : List Text) × (key_store_data_path w.sha256 w.client client_id name ≡ ok path)
              × (w.get_reply (get path ∷ l) ≡ err backend)))

  -- a retrieval that the policies allow is what the read behind it comes to
  key_store_get-allowed :
      (value name : Text) (l : List StoreCall)
      → admit_name w client_id value ≡ ok name
      → authorize_key_store w client_id action_get key_type name [] ≡ ok tt
      → key_store_get w client_id value l ≡ get_secret w client_id name l
  unfolding key_store_get get_authorized allowed_then
  key_store_get-allowed value name l admitted allowed =
      step_ok (lift (admit_name w client_id value)) (get_authorized w client_id)
        (ap (λ r. (r, l)) admitted)
      ∙ step_ok (lift (authorize_key_store w client_id action_get key_type name []))
          (λ _. get_secret w client_id name) (ap (λ r. (r, l)) allowed)

  get_secret-Retrieves :
      (value json name : Text) (h k : List StoreCall) (s : Stored value json name h k)
      (l : List StoreCall)
      → (w.get_reply (get s.path ∷ l) ≡ ok s.written) ⊎ (w.get_reply (get s.path ∷ l) ≡ err backend)
      → Retrieves name s.secret l (get_secret w client_id name l).0
  unfolding get_secret
  get_secret-Retrieves value json name h k s l got =
      let read =
        call_at w (key_store_data_path w.sha256 w.client client_id name) get w.get_reply
          not_found_or_backend_status in
      elim got [
        | inl found ↦
            let same =
              step_ok read (answer_record w client_id name)
                (call_at-get name s.path l s.written s.at_path found) in
            let answered =
              answer_record-valid name s.written (get s.path ∷ l)
                (Stored-is_valid_record value json name h k s) in
            inl (ap (λ r. r.0) same ∙ answered ∙ ap (λ t. ok (fetched name t)) s.kept)
        | inr failed ↦
            let same =
              step_err read (answer_record w client_id name)
                (call_at-failed name s.path l s.at_path failed) in
            inr (ap (λ r. r.0) same, (s.path, s.at_path, failed))
      ]

  -- What a client stores under a name is what it retrieves under that name, or the retrieval is an
  -- internal error because OpenBao failed the read, whatever else was asked of OpenBao in between that
  -- neither writes at this path nor deletes, when the policies allow the retrieval, and when a read of a
  -- path that a record was written to, with OpenBao's confirmation, gives that record or fails.
  pub key_store_get-put :
      IsHonest w
      → (value json name secret : Text) (v : ℕ) (h k others : List StoreCall)
      → key_store_put w client_id value json h ≡ (ok (stored name v), k)
      → decode_secret w json ≡ ok secret
      → ((path : List Text)
          → key_store_data_path w.sha256 w.client client_id name ≡ ok path
          → All (IsQuiet path) others)
      → authorize_key_store w client_id action_get key_type name [] ≡ ok tt
      → Retrieves name secret (others ++ k) (key_store_get w client_id value (others ++ k)).0
  key_store_get-put honest value json name secret v h k others put decoded quiet allowed =
      let s = key_store_put-Stored value json name v h k put in
      let same : s.secret ≡ secret = cc in
      let l : List StoreCall = others ++ k in
      let whole : others ++ post s.path s.written ∷ h ≡ l = ap (λ k. others ++ k) (sym s.calls) in
      let got =
        subst
          (λ l.
            (w.get_reply (get s.path ∷ l) ≡ ok s.written)
            ⊎ (w.get_reply (get s.path ∷ l) ≡ err backend))
          whole (honest s.path s.written others h s.version s.confirmed (quiet s.path s.at_path)) in
      subst (λ t. Retrieves name t l (key_store_get w client_id value l).0) same
        (subst (λ r. Retrieves name s.secret l r.0)
          (sym (key_store_get-allowed value name l s.admitted allowed))
          (get_secret-Retrieves value json name h k s l got))
