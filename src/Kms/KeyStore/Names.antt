-- ===== src/Kms/KeyStore/Names.antt =====
-- What a normalized name is.
use orbitport.Base.{
  ◌≡◌, ◌≢◌, ◌≤◌, refl, sym, ap, subst, true, false, List, [], ◌∷◌, arith, ltb, inl, inr,
}
use orbitport.Base.All.{All}
use orbitport.Base.Result.{Result, ok, err, Result-cases}
use orbitport.Text.{
  Text, text_eq, is_empty, lit, trim_space, split, starts_with, ends_with, byte_len,
}
use orbitport.Text.Trim.{trim_space_idem}
use orbitport.Kms.Tenant.{all_chars}
use orbitport.Kms.KeyStore.{
  NameError, is_segment_char, validate_key_store_segment, validate_segments,
  normalize_key_store_name,
}

-- A segment of a path that names something below, of the allowed characters.
pub record Segment (s : Text) : Type 0 where
  pub named : is_empty s ≡ false
  pub not_here : text_eq s (lit ".") ≡ false
  pub not_up : text_eq s (lit "..") ≡ false
  pub clean : all_chars is_segment_char s ≡ true

segment_tests :
    (s : Text)
    → validate_key_store_segment s ≡ ok tt
    → (is_empty s ≡ false)
      × (text_eq s (lit ".") ≡ false)
      × (text_eq s (lit "..") ≡ false)
      × (all_chars is_segment_char s ≡ true)
unfolding validate_key_store_segment
segment_tests s e = ground arith

validate-Segment : (s : Text) → validate_key_store_segment s ≡ ok tt → Segment s
validate-Segment s e =
    let (named, not_here, not_up, clean) = segment_tests s e in
    record { named = named; not_here = not_here; not_up = not_up; clean = clean }

pub validate_segments-All : (ss : List Text) → validate_segments ss ≡ ok tt → All Segment ss
unfolding validate_segments
validate_segments-All [] e = tt
validate_segments-All (s ∷ ss) e = elim (Result-cases (validate_key_store_segment s)) [
  | inl (u, good) ↦ (validate-Segment s good, validate_segments-All ss (rw (good) at e))
  | inr (x, bad) ↦
      let no : ◌≡◌ {A = Result NameError (Unit {0})} (err x) (ok tt) = rw (bad) at e in cc
]

Segment-validate : (s : Text) → Segment s → validate_key_store_segment s ≡ ok tt
unfolding validate_key_store_segment
Segment-validate s h = rw (h.named, h.not_here, h.not_up, h.clean) refl

pub All-validate_segments : (ss : List Text) → All Segment ss → validate_segments ss ≡ ok tt
unfolding validate_segments
All-validate_segments [] a = refl
All-validate_segments (s ∷ ss) a = rw (Segment-validate s a.0) (All-validate_segments ss a.1)

-- A normalized name: trimmed, not empty, short, and all its parts between slashes are segments.
pub record NormalName (name : Text) : Type 0 where
  pub named : name ≢ []
  pub short : byte_len name ≤ 256
  pub edges : (starts_with b'/' name ≡ false) × (ends_with b'/' name ≡ false)
  pub segments : All Segment (split b'/' name)
  pub again : normalize_key_store_name name ≡ ok name

name_tests :
    (value name : Text)
    → normalize_key_store_name value ≡ ok name
    → (name ≡ trim_space value)
      × (is_empty (trim_space value) ≡ false)
      × (ltb 256 (byte_len (trim_space value)) ≡ false)
      × (starts_with b'/' (trim_space value) ≡ false)
      × (ends_with b'/' (trim_space value) ≡ false)
      × (validate_segments (split b'/' (trim_space value)) ≡ ok tt)
unfolding normalize_key_store_name
name_tests value name e = ground arith

name_accepted :
    (name : Text)
    → (trim_space name ≡ name)
    → (is_empty name ≡ false)
    → (ltb 256 (byte_len name) ≡ false)
    → (starts_with b'/' name ≡ false)
    → (ends_with b'/' name ≡ false)
    → (validate_segments (split b'/' name) ≡ ok tt)
    → normalize_key_store_name name ≡ ok name
unfolding normalize_key_store_name
name_accepted name t a b c d e = rw (t, a, b, c, d, e) refl

-- A name that is accepted is trimmed, not empty, and at most 256 bytes long; it has no slash at its
-- ends, and each part between its slashes has only allowed characters and is not `.` or `..`.
-- Normalizing it again gives it back.
pub normalize_key_store_name-NormalName :
    (value name : Text) → normalize_key_store_name value ≡ ok name → NormalName name
normalize_key_store_name-NormalName value name e =
    let (same, a, b, c, d, f) = name_tests value name e in
    let here : NormalName (trim_space value) = record {
      named = λ none. let bad : is_empty (trim_space value) ≡ true = ap is_empty none in cc;
      short = ground (arith, b);
      edges = (c, d);
      segments = validate_segments-All (split b'/' (trim_space value)) f;
      again = name_accepted (trim_space value) (trim_space_idem value) a b c d f;
    } in
    subst NormalName (sym same) here
