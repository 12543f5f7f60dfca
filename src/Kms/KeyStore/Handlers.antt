-- ===== src/Kms/KeyStore/Handlers.antt =====
-- The handlers of plugins/pkg/plugin/kms/key_store.go, with key_store_authorizer.go and
-- key_store_openbao.go. OpenBao answers from the calls so far, newest first; Cedar and JSON are
-- arguments.
use orbitport.Base.{
  ℕ, Bool, true, false, not, List, [], ◌∷◌, ◌++◌, Option, none, some, ltb, ◌==◌, ◌&&◌, ◌||◌,
  if◌then◌else◌,
}
use orbitport.Base.Result.{Result, ok, err}
use orbitport.Base.Traced.{Traced}
use orbitport.Text.{
  Text, text_eq, is_empty, lit, trim_space, starts_with, ends_with, byte_len, cut_suffix,
}
use orbitport.Kms.Tenant.{tenant_namespace, require_client_id}
use orbitport.Kms.KeyStore.{
  NameError, validate_key_store_segment, normalize_key_store_name, join_key_store_name, StoreClient,
}

pub record KeyStoreRecord : Type 0 where
  pub name : Text
  pub owner : Text
  pub secret_json : Text
  pub updated_at : Text

-- a path is the list of its segments, the last one first
pub data StoreCall : Type 0 where
  post : List Text → KeyStoreRecord → StoreCall
  get list delete : List Text → StoreCall

pub data StoreError : Type 0 where
  not_found backend : StoreError

pub data StoreStatus : Type 0 where
  invalid_argument permission_denied entry_not_found internal : StoreStatus

pub record Entity : Type 0 where
  pub entity_type : Text
  pub id : Text
  pub attributes : List (Text × Text)

-- what is put to Cedar, with the two entities
pub record CedarRequest : Type 0 where
  pub principal : Entity
  pub action : Text
  pub resource : Entity
  pub context : List (Text × Text)

pub data Decision : Type 0 where
  allow deny evaluation_errors : Decision

-- `first_json` gives the first JSON value of a text and what follows it; `ends` tells whether nothing
-- but white space follows. `decide` is missing where there are no policies.
pub record StoreWorld : Type 0 where
  pub sha256 : List ℕ → List ℕ
  pub client : StoreClient
  pub decide : Option (CedarRequest → Decision)
  pub first_json : Text → Option (Text × Text)
  pub ends : Text → Bool
  pub is_json : Text → Bool
  pub post_reply : List StoreCall → Result StoreError ℕ
  pub get_reply : List StoreCall → Result StoreError KeyStoreRecord
  pub exists_reply : List StoreCall → Result StoreError (Unit {0})
  pub list_reply : List StoreCall → Result StoreError (List Text)
  pub delete_reply : List StoreCall → Result StoreError (Unit {0})
  pub now_text : List StoreCall → Text

abbrev pub M : Type 0 → Type 0
M A = Traced StoreCall StoreStatus A

-- an attribute that is left out where it is empty
abbrev optional_attribute : Text → Text → List (Text × Text)
optional_attribute key value = if is_empty value then [] else (key, value) ∷ []

unfoldable pub key_store_resource_id : Text → Text → Text → Text
key_store_resource_id owner name prefix =
    if not (is_empty name)
    then lit "owners/" ++ (owner ++ (lit "/" ++ name))
    else if not (is_empty prefix)
    then lit "owners/" ++ (owner ++ (lit "/" ++ prefix))
    else lit "owners/" ++ owner

abbrev pub action_put : Text
action_put = lit "kms_keystore.Put"

abbrev pub action_get : Text
action_get = lit "kms_keystore.Get"

abbrev pub action_list : Text
action_list = lit "kms_keystore.List"

abbrev pub action_delete : Text
action_delete = lit "kms_keystore.Delete"

abbrev pub key_type : Text
key_type = lit "KeyStoreKey"

abbrev pub namespace_type : Text
namespace_type = lit "KeyStoreNamespace"

-- how a refused name is reported
unfoldable pub argument : {E A : Type 0} → Result E A → Result StoreStatus A
argument (ok a) = ok a
argument (err e) = err invalid_argument

-- `keyStoreBackendStatus` and `keyStoreNotFoundOrBackendStatus`
unfoldable pub backend_status : {A : Type 0} → Result StoreError A → Result StoreStatus A
backend_status (ok a) = ok a
backend_status (err e) = err internal

unfoldable pub not_found_or_backend_status :
    {A : Type 0} → Result StoreError A → Result StoreStatus A
not_found_or_backend_status (ok a) = ok a
not_found_or_backend_status (err not_found) = err entry_not_found
not_found_or_backend_status (err backend) = err internal

-- `sort.Strings`
unfoldable pub text_le : Text → Text → Bool
text_le [] t = true
text_le (c ∷ s) [] = false
text_le (c ∷ s) (d ∷ t) = ltb c d || (c == d && text_le s t)

unfoldable pub insert_text : Text → List Text → List Text
insert_text s [] = s ∷ []
insert_text s (t ∷ ts) = let rest = insert_text s ts in if text_le s t then s ∷ t ∷ ts else t ∷ rest

unfoldable pub sort_strings : List Text → List Text
sort_strings [] = []
sort_strings (s ∷ ss) = insert_text s (sort_strings ss)

-- `strings.TrimSuffix(key, "/")`
abbrev trim_folder : Text → Text
trim_folder key = elim (cut_suffix (lit "/") key) [ none ↦ key | some segment ↦ segment ]

-- the name of one key that OpenBao lists, where it is not passed over
unfoldable pub listed_name : Text → Text → Option Text
listed_name prefix key =
    let segment = trim_folder key in
    let name = join_key_store_name prefix segment in
    elim (validate_key_store_segment segment) [
      | err e ↦ none
      | ok done ↦
          if ltb 256 (byte_len name)
          then none
          else if ends_with b'/' key
          then some (name ++ lit "/")
          else some name
    ]

unfoldable pub listed_names : Text → List Text → List Text
listed_names prefix [] = []
listed_names prefix (key ∷ keys) =
    let rest = listed_names prefix keys in
    elim (listed_name prefix key) [ none ↦ rest | some name ↦ name ∷ rest ]

module _ (w : StoreWorld) where
  unfoldable pub cedar_request : Text → Text → Text → Text → Text → CedarRequest
  cedar_request client_id action resource_type name prefix =
      let owner = tenant_namespace w.sha256 client_id in
      let named =
        optional_attribute (lit "name") name ++ optional_attribute (lit "prefix") prefix in
      record {
        principal = record {
          entity_type = lit "KmsClient";
          id = owner;
          attributes = (lit "owner", owner) ∷ (lit "client_id", client_id) ∷ [];
        };
        action = action;
        resource = record {
          entity_type = resource_type;
          id = key_store_resource_id owner name prefix;
          attributes = (lit "owner", owner) ∷ named;
        };
        context = (lit "client_id", client_id) ∷ (lit "owner", owner) ∷ named;
      }

  -- `authorize`
  unfoldable pub authorize_key_store :
      Text → Text → Text → Text → Text → Result StoreStatus (Unit {0})
  authorize_key_store client_id action resource_type name prefix = elim (w.decide) [
    | none ↦ err permission_denied
    | some decide ↦ elim (decide (cedar_request client_id action resource_type name prefix)) [
      | allow ↦ ok tt
      | deny ↦ err permission_denied
      | evaluation_errors ↦ err permission_denied
    ]
  ]

  -- `isKeyStoreJSONObject`
  unfoldable pub is_json_object : Text → Bool
  is_json_object value =
      let trimmed = trim_space value in starts_with b'{' trimmed && w.is_json trimmed

  -- `decodeKeyStoreSecretJSON`
  unfoldable pub decode_secret : Text → Result StoreStatus Text
  decode_secret value = elim (w.first_json value) [
    | none ↦ err invalid_argument
    | some (secret, rest) ↦
        if is_json_object secret && w.ends rest then ok secret else err invalid_argument
  ]

  -- `isValidKeyStoreRecord`
  unfoldable pub is_valid_record : KeyStoreRecord → Text → Text → Bool
  is_valid_record r client_id name =
      text_eq r.owner (tenant_namespace w.sha256 client_id)
      && text_eq r.name name
      && not (is_empty (trim_space r.secret_json))
      && is_json_object r.secret_json

  -- the checks of a request for one entry
  unfoldable pub admit_name : Text → Text → Result StoreStatus Text
  admit_name client_id value = elim (require_client_id client_id) [
    | err e ↦ err invalid_argument
    | ok done ↦ argument (normalize_key_store_name value)
  ]

  -- one call at a path, reported by its kind
  unfoldable pub call_at :
      {A B : Type 0}
      → Result NameError (List Text)
      → (List Text → StoreCall)
      → (List StoreCall → Result StoreError A)
      → (Result StoreError A → Result StoreStatus B)
      → M B
  call_at target call reply report h = elim target [
    | err e ↦ (err internal, h)
    | ok path ↦ (report (reply (call path ∷ h)), call path ∷ h)
  ]
