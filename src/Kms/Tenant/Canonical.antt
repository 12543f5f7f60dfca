-- ===== src/Kms/Tenant/Canonical.antt =====
-- The canonical forms of an alias and of a key id.
use orbitport.Base.{
  ℕ, ◌≡◌, ◌≢◌, refl, sym, ap, ◌∙◌, subst, Bool, true, false, [], ◌∷◌, ◌++◌, some, arith, ltb,
  Bool-cases, inl, inr, ◌≤◌,
}
use orbitport.Base.Result.{Result, ok, err, ◌>>=◌, Result-cases}
use orbitport.Text.{Text, is_empty, trim_space, strip_prefix, byte_len, is_space}
use orbitport.Text.Trim.{trim_space-NoCut, NoCut}
use orbitport.Kms.Tenant.{
  has_prefix, trim_prefix, key_id_prefix, is_alias_char, all_chars, validate_alias, canonical_alias,
  canonical_key_id, resolve_key_ref, AliasError, key_id_required,
}

-- A canonical alias: not empty, short, of the allowed characters, without the prefix of key ids.
pub record Canonical (alias : Text) : Type 0 where
  pub named : alias ≢ []
  pub short : byte_len alias ≤ 128
  pub clean : all_chars is_alias_char alias ≡ true
  pub bare : has_prefix key_id_prefix alias ≡ false

alias_char-not_space : (c : ℕ) → is_alias_char c ≡ true → is_space c ≡ false
unfolding is_alias_char is_space
alias_char-not_space c e = ground arith

all_chars_cons :
    (p : ℕ → Bool) (c : ℕ) (s : Text)
    → all_chars p (c ∷ s) ≡ true
    → (p c ≡ true) × (all_chars p s ≡ true)
unfolding all_chars
all_chars_cons p c s e = ground arith

clean-NoCut : (s : Text) → all_chars is_alias_char s ≡ true → NoCut is_space s
clean-NoCut [] e = tt
clean-NoCut (c ∷ s) e =
    let (this, others) = all_chars_cons is_alias_char c s e in
    (alias_char-not_space c this, clean-NoCut s others)

-- The guards that a valid alias has passed.
guards :
    (s : Text)
    → validate_alias s ≡ ok tt
    → (is_empty s ≡ false)
      × (ltb 128 (byte_len s) ≡ false)
      × (has_prefix key_id_prefix s ≡ false)
      × (all_chars is_alias_char s ≡ true)
unfolding validate_alias
guards s e = ground arith

validate_alias-Canonical : (s : Text) → validate_alias s ≡ ok tt → Canonical s
validate_alias-Canonical s e =
    let (named, short, bare, clean) = guards s e in
    record {
      named = λ none. let bad : is_empty s ≡ true = ap is_empty none in cc;
      short = ground (arith, short);
      clean = clean;
      bare = bare;
    }

Canonical-validate_alias : (s : Text) → Canonical s → validate_alias s ≡ ok tt
unfolding validate_alias
Canonical-validate_alias [] h = absurd (h.named refl)
Canonical-validate_alias (c ∷ s) h =
    let short : ltb 128 (byte_len (c ∷ s)) ≡ false = ground (arith, h.short) in
    rw (short, h.bare, h.clean) refl

canonical_alias-Canonical : (s alias : Text) → canonical_alias s ≡ ok alias → Canonical alias
unfolding canonical_alias
canonical_alias-Canonical s alias e = elim (Result-cases (validate_alias (trim_space s))) [
  | inl (u, good) ↦
      let same : trim_space s ≡ alias = cc (rw (good) at e) in
      subst Canonical same (validate_alias-Canonical (trim_space s) good)
  | inr (x, bad) ↦ let no : err x ≡ ok alias = rw (bad) at e in cc
]

Canonical-canonical_alias : (s : Text) → Canonical s → canonical_alias s ≡ ok s
unfolding canonical_alias
Canonical-canonical_alias s h =
    rw (trim_space-NoCut s (clean-NoCut s h.clean), Canonical-validate_alias s h) refl

strip_prefix-append : (p s : Text) → strip_prefix p (p ++ s) ≡ some s
unfolding strip_prefix
strip_prefix-append [] s = refl
strip_prefix-append (c ∷ p) s = ground (arith, strip_prefix-append p s)

has_prefix-append : (p s : Text) → has_prefix p (p ++ s) ≡ true
unfolding has_prefix
has_prefix-append p s = rw (strip_prefix-append p s, has_prefix) refl

trim_prefix-append : (p s : Text) → trim_prefix p (p ++ s) ≡ s
unfolding trim_prefix
trim_prefix-append p s = rw (strip_prefix-append p s, trim_prefix) refl

key_id_trimmed : (s : Text) → Canonical s → trim_space (key_id_prefix ++ s) ≡ key_id_prefix ++ s
unfolding is_space
key_id_trimmed s h =
    trim_space-NoCut (key_id_prefix ++ s) (refl, (refl, (refl, (refl, clean-NoCut s h.clean))))

abbrev with_id : Text → Result AliasError (Text × Text)
with_id t = canonical_alias t >>= λ alias. ok (key_id_prefix ++ alias, alias)

with_id-Canonical :
    (t id alias : Text)
    → with_id t ≡ ok (id, alias)
    → Canonical alias × (id ≡ key_id_prefix ++ alias)
with_id-Canonical t id alias e = elim (Result-cases (canonical_alias t)) [
  | inl (a, good) ↦
      let both : ◌≡◌ {A = Result AliasError (Text × Text)} (ok (key_id_prefix ++ a, a))
          (ok (id, alias)) =
        rw (good) at e in
      let same : a ≡ alias = cc in
      let spelled : key_id_prefix ++ a ≡ id = cc in
      (
        subst Canonical same (canonical_alias-Canonical t a good),
        sym spelled ∙ ap (λ x. key_id_prefix ++ x) same,
      )
  | inr (x, bad) ↦
      let no : ◌≡◌ {A = Result AliasError (Text × Text)} (err x) (ok (id, alias)) = rw (bad) at e in
      cc
]

-- What a reference resolves to: a canonical alias, and the id of the key with this alias.
resolved :
    (key_ref id alias : Text)
    → resolve_key_ref key_ref ≡ ok (id, alias)
    → Canonical alias × (id ≡ key_id_prefix ++ alias)
unfolding resolve_key_ref
resolved key_ref id alias e = elim (Bool-cases (is_empty (trim_space key_ref))) [
  | inl empty ↦
      let no : ◌≡◌ {A = Result AliasError (Text × Text)} (err key_id_required) (ok (id, alias)) =
        rw (empty) at e in
      cc
  | inr some_text ↦ elim (Bool-cases (has_prefix key_id_prefix (trim_space key_ref))) [
    | inl prefixed ↦
        with_id-Canonical (trim_prefix key_id_prefix (trim_space key_ref)) id alias
          (rw (some_text, prefixed) at e)
    | inr bare ↦ with_id-Canonical (trim_space key_ref) id alias (rw (some_text, bare) at e)
  ]
]

-- A key id and its alias are references to themselves.
id_resolves :
    (s : Text) → Canonical s → resolve_key_ref (key_id_prefix ++ s) ≡ ok (key_id_prefix ++ s, s)
unfolding resolve_key_ref
id_resolves s h =
    rw
      (
        key_id_trimmed s h,
        has_prefix-append key_id_prefix s,
        trim_prefix-append key_id_prefix s,
        Canonical-canonical_alias s h,
      )
      refl

alias_resolves : (s : Text) → Canonical s → resolve_key_ref s ≡ ok (key_id_prefix ++ s, s)
unfolding resolve_key_ref
alias_resolves [] h = absurd (h.named refl)
alias_resolves (c ∷ s) h =
    rw
      (
        trim_space-NoCut (c ∷ s) (clean-NoCut (c ∷ s) h.clean),
        h.bare,
        Canonical-canonical_alias (c ∷ s) h,
      )
      refl

-- A reference that resolves gives a canonical alias and its key id; and both of these, taken as
-- references, resolve to the same again. So the two spellings of a key never differ.
pub resolve_key_ref-Canonical :
    (key_ref id alias : Text)
    → resolve_key_ref key_ref ≡ ok (id, alias)
    → Canonical alias
      × (canonical_key_id alias ≡ ok id)
      × (resolve_key_ref id ≡ ok (id, alias))
      × (resolve_key_ref alias ≡ ok (id, alias))
unfolding canonical_key_id
resolve_key_ref-Canonical key_ref id alias e =
    let (canonical, spelled) = resolved key_ref id alias e in
    (
      canonical,
      rw (Canonical-canonical_alias alias canonical, spelled) refl,
      subst (λ t. resolve_key_ref t ≡ ok (t, alias)) (sym spelled) (id_resolves alias canonical),
      subst (λ t. resolve_key_ref alias ≡ ok (t, alias)) (sym spelled)
          (alias_resolves alias canonical),
    )
