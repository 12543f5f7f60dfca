-- ===== src/Text/Suffix.antt =====
-- What is left when a suffix is cut.
use orbitport.Base.{
  ℕ, ◌≡◌, refl, ap, ◌∙◌, false, [], ◌∷◌, ◌++◌, some, arith, length, length-append, ◌↔◌, Bool-cases,
  inl, inr, Option-cases,
}
use orbitport.Text.{Text, text_eq, cut_suffix}
use orbitport.Text.Equal.{text_eq_refl, text_eq→≡}

longer-ne : (c : ℕ) (t s : Text) → text_eq (c ∷ t ++ s) s ≡ false
longer-ne c t s = elim (Bool-cases (text_eq (c ∷ t ++ s) s)) [
  | inr other ↦ other
  | inl same ↦
      let lengths = ap length (text_eq→≡ (c ∷ t ++ s) s same) in
      absurd (omega (arith, length-append t s, lengths))
]

cut_suffix-append : (suffix t : Text) → cut_suffix suffix (t ++ suffix) ≡ some t
unfolding cut_suffix
cut_suffix-append [] [] = rw (text_eq_refl []) refl
cut_suffix-append (c ∷ s) [] = rw (text_eq_refl (c ∷ s)) refl
cut_suffix-append suffix (c ∷ t) = rw (longer-ne c t suffix, cut_suffix-append suffix t) refl

cut_suffix→ : (suffix s t : Text) → cut_suffix suffix s ≡ some t → s ≡ t ++ suffix
unfolding cut_suffix
cut_suffix→ suffix [] t = ground (arith, text_eq→≡ [] suffix)
cut_suffix→ suffix (c ∷ s) t = elim (Bool-cases (text_eq (c ∷ s) suffix)) [
  | inl same ↦ rw (same) (λ e.
      let whole = text_eq→≡ (c ∷ s) suffix same in
      let none_left : t ≡ [] = cc in rw (none_left) whole)
  | inr other ↦ elim (Option-cases (cut_suffix suffix s)) [
    | inl missing ↦ rw (other, missing) (λ e. cc)
    | inr (u, found) ↦
        rw (other, found)
          (λ e.
            let ih = cut_suffix→ suffix s u found in
            let head : t ≡ c ∷ u = cc in rw (head, ih) refl)
  ]
]

pub cut_suffix_iff : (suffix s t : Text) → (cut_suffix suffix s ≡ some t) ↔ (s ≡ t ++ suffix)
cut_suffix_iff suffix s t =
    (cut_suffix→ suffix s t, λ e. ap (cut_suffix suffix) e ∙ cut_suffix-append suffix t)
