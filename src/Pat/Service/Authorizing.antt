-- ===== src/Pat/Service/Authorizing.antt =====
-- Exactly when a service token is accepted.
use mathlib.Core.List.{Memᴰ}
use orbitport.Base.{
  ◌≡◌, ◌≢◌, refl, sym, subst, true, false, List, [], ◌∷◌, ◌++◌, Option, none, some, arith, ◌↔◌,
  Bool-cases, inl, inr, Option-cases,
}
use orbitport.Base.All.{All}
use orbitport.Base.Result.{Result, ok, Result-cases}
use orbitport.Text.{Text, text_eq, is_empty, lit, fields, cut_suffix, contains}
use orbitport.Text.Equal.{text_eq_iff}
use orbitport.Text.Suffix.{cut_suffix_iff}
use orbitport.Pat.Auth.{Plugin}
use orbitport.Pat.Service.{
  ServiceClaims, ValidatedClaims, Auth0Error, keys_unavailable, refused, has_required_scopes,
  has_client_credentials_grant, is_positive, claims_suffice, authorize, validate_service_token,
}

contains→ : (s : Text) (ts : List Text) → contains s ts ≡ true → Memᴰ s ts
unfolding contains
contains→ s [] = λ e. cc
contains→ s (t ∷ ts) = elim (Bool-cases (text_eq t s)) [
  | inl same ↦ rw (same) (λ e. Memᴰ.head (sym ((text_eq_iff t s).0 same)))
  | inr other ↦ rw (other) (λ e. Memᴰ.tail (contains→ s ts e))
]

contains← : (s : Text) (ts : List Text) → Memᴰ s ts → contains s ts ≡ true
unfolding contains
contains← s [] m = elim m [ ]
contains← s (t ∷ ts) (Memᴰ.head e) = rw ((text_eq_iff t s).1 (sym e)) refl
contains← s (t ∷ ts) (Memᴰ.tail m) = let rest = contains← s ts m in ground arith

has_required_scopes→ :
    (scopes required : List Text)
    → has_required_scopes scopes required ≡ true
    → All (λ s. Memᴰ s scopes) required
unfolding has_required_scopes
has_required_scopes→ scopes [] = λ e. tt
has_required_scopes→ scopes (s ∷ required) = elim (Bool-cases (contains s scopes)) [
  | inl there ↦ rw (there) (λ e. (contains→ s scopes there, has_required_scopes→ scopes required e))
  | inr missing ↦ rw (missing) (λ e. cc)
]

has_required_scopes← :
    (scopes required : List Text)
    → All (λ s. Memᴰ s scopes) required
    → has_required_scopes scopes required ≡ true
unfolding has_required_scopes
has_required_scopes← scopes [] h = refl
has_required_scopes← scopes (s ∷ required) (m, h) =
    rw (contains← s scopes m, has_required_scopes← scopes required h) refl

-- When a service token is accepted, and for which client: the validator accepts it, it expires, its
-- subject is the client with "@clients" behind it, the client is on the list, and the token was given
-- for client credentials with each of the required scopes.
pub record Authorized (validator : Text → Result Auth0Error ValidatedClaims) (p : Plugin)
    (token : Text) (required : List Text) (client_id : Text) : Type 0 where
  pub claims : ValidatedClaims
  pub custom : ServiceClaims
  pub named : required ≢ []
  pub validated : validator token ≡ ok claims
  pub expires : is_positive claims.expiry ≡ true
  pub subject : claims.subject ≡ client_id ++ lit "@clients"
  pub client : client_id ≢ []
  pub listed : Memᴰ client_id p.service_client_ids
  pub has_custom : claims.custom_claims ≡ some custom
  pub grant : custom.grant_type ≡ lit "client-credentials"
  pub scopes : All (λ s. Memᴰ s (fields custom.scope)) required

-- what the checks behind the validator have found
record Checked (p : Plugin) (required : List Text) (claims : ValidatedClaims) (client_id : Text)
    : Type 0 where
  expires : is_positive claims.expiry ≡ true
  cut : cut_suffix (lit "@clients") claims.subject ≡ some client_id
  client : is_empty client_id ≡ false
  listed : contains client_id p.service_client_ids ≡ true
  suffice : claims_suffice claims.custom_claims required ≡ true

authorize→ :
    (p : Plugin) (required : List Text) (claims : ValidatedClaims) (client_id : Text)
    → authorize p required claims ≡ ok client_id
    → Checked p required claims client_id
unfolding authorize
authorize→ p required claims id = elim (Bool-cases (is_positive claims.expiry)) [
  | inr never ↦ rw (never) (λ e. cc)
  | inl expires ↦ elim (Option-cases (cut_suffix (lit "@clients") claims.subject)) [
    | inl other ↦ rw (expires, other) (λ e. cc)
    | inr (c, cut) ↦ elim (Bool-cases (is_empty c)) [
      | inl empty ↦ rw (expires, cut, empty) (λ e. cc)
      | inr client ↦ elim (Bool-cases (contains c p.service_client_ids)) [
        | inr unknown ↦ rw (expires, cut, client, unknown) (λ e. cc)
        | inl listed ↦ elim (Bool-cases (claims_suffice claims.custom_claims required)) [
          | inr few ↦ rw (expires, cut, client, listed, few) (λ e. cc)
          | inl suffice ↦
              rw (expires, cut, client, listed, suffice)
                (λ e.
                  let same : c ≡ id = cc in
                  subst (Checked p required claims) same (record {
                    expires = expires;
                    cut = cut;
                    client = client;
                    listed = listed;
                    suffice = suffice;
                  }))
        ]
      ]
    ]
  ]
]

authorize← :
    (p : Plugin) (required : List Text) (claims : ValidatedClaims) (client_id : Text)
    → Checked p required claims client_id
    → authorize p required claims ≡ ok client_id
unfolding authorize
authorize← p required claims id c = rw (c.expires, c.cut, c.client, c.listed, c.suffice) refl

claims_suffice→ :
    (custom : Option ServiceClaims) (required : List Text)
    → claims_suffice custom required ≡ true
    → (c : ServiceClaims) × (custom ≡ some c)
      × (c.grant_type ≡ lit "client-credentials")
      × All (λ s. Memᴰ s (fields c.scope)) required
unfolding claims_suffice has_client_credentials_grant
claims_suffice→ none required = λ e. cc
claims_suffice→ (some c) required =
    elim (Bool-cases (text_eq c.grant_type (lit "client-credentials"))) [
      | inr other ↦ rw (other) (λ e. cc)
      | inl same ↦ rw (same) (λ e. (
        c,
        refl,
        (text_eq_iff c.grant_type (lit "client-credentials")).0 same,
        has_required_scopes→ (fields c.scope) required e,
      ))
    ]

claims_suffice← :
    (custom : Option ServiceClaims) (required : List Text) (c : ServiceClaims)
    → custom ≡ some c
    → c.grant_type ≡ lit "client-credentials"
    → All (λ s. Memᴰ s (fields c.scope)) required
    → claims_suffice custom required ≡ true
unfolding claims_suffice has_client_credentials_grant
claims_suffice← custom required c e g h =
    rw
      (
        e,
        (text_eq_iff c.grant_type (lit "client-credentials")).1 g,
        has_required_scopes← (fields c.scope) required h,
      )
      refl

is_empty-ne : {A : Type 0} (xs : List A) → is_empty xs ≡ false → xs ≢ []
is_empty-ne xs e n = cc

ne-is_empty : {A : Type 0} (xs : List A) → xs ≢ [] → is_empty xs ≡ false
ne-is_empty [] n = absurd (n refl)
ne-is_empty (x ∷ xs) n = refl

module _ (validator : Text → Result Auth0Error ValidatedClaims) (p : Plugin) (token : Text)
    (required : List Text) where
  accepted→ :
      (client_id : Text)
      → validate_service_token validator p token required ≡ ok client_id
      → Authorized validator p token required client_id
  unfolding validate_service_token
  accepted→ id = elim (Bool-cases (is_empty required)) [
    | inl none_named ↦ rw (none_named) (λ e. cc)
    | inr named ↦ elim (Result-cases (validator token)) [
      | inr (keys_unavailable, v) ↦ rw (named, v) (λ e. cc)
      | inr (refused, v) ↦ rw (named, v) (λ e. cc)
      | inl (claims, v) ↦
          rw (named, v)
            (λ e.
              let c = authorize→ p required claims id e in
              let (custom, has_custom, grant, scopes) =
                claims_suffice→ claims.custom_claims required c.suffice in
              record {
                claims = claims;
                custom = custom;
                named = is_empty-ne required named;
                validated = v;
                expires = c.expires;
                subject = (cut_suffix_iff (lit "@clients") claims.subject id).0 c.cut;
                client = is_empty-ne id c.client;
                listed = contains→ id p.service_client_ids c.listed;
                has_custom = has_custom;
                grant = grant;
                scopes = scopes;
              })
    ]
  ]

  accepted← :
      (client_id : Text)
      → Authorized validator p token required client_id
      → validate_service_token validator p token required ≡ ok client_id
  unfolding validate_service_token
  accepted← id a =
      let suffice =
        claims_suffice← a.claims.custom_claims required a.custom a.has_custom a.grant a.scopes in
      rw (ne-is_empty required a.named, a.validated)
        (authorize← p required a.claims id (record {
          expires = a.expires;
          cut = (cut_suffix_iff (lit "@clients") a.claims.subject id).1 a.subject;
          client = ne-is_empty id a.client;
          listed = contains← id p.service_client_ids a.listed;
          suffice = suffice;
        }))

  -- A service token is accepted for a client exactly when the required scopes are named, the validator
  -- accepts the token, and its claims expire, have the client with "@clients" behind it as the subject,
  -- this client on the list of the plugin, the grant for client credentials, and each required scope
  -- among the fields of their scope.
  pub validate_service_token_iff :
      (client_id : Text)
      → (validate_service_token validator p token required ≡ ok client_id)
        ↔ Authorized validator p token required client_id
  validate_service_token_iff id = (accepted→ id, accepted← id)
