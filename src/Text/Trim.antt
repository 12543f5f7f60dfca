-- ===== src/Text/Trim.antt =====
-- Trimming leaves a text with no cut code point at either end, and leaves such a text alone.
use orbitport.Base.{
  ℕ, ◌≡◌, refl, ap, Bool, true, false, [], ◌∷◌, arith, ◌==◌, Bool-cases, inl, inr, ◌∙◌,
}
use orbitport.Text.{
  Text, trim_left, trim_right, trim_func, trim_space, keep, is_space, trim_slash, starts_with,
  ends_with,
}

trim_left_idem : (cut : ℕ → Bool) (s : Text) → trim_left cut (trim_left cut s) ≡ trim_left cut s
unfolding trim_left
trim_left_idem cut [] = refl
trim_left_idem cut (c ∷ s) = ground (arith, trim_left_idem cut s)

keep_idem :
    (cut : ℕ → Bool) (b : Bool) (c : ℕ) (t : Text)
    → cut c ≡ b
    → trim_right cut t ≡ t
    → trim_right cut (keep b c t) ≡ keep b c t
unfolding trim_right
keep_idem cut true c [] e h = refl
keep_idem cut true c (d ∷ t) e h = rw (e, h)
keep_idem cut false c t e h = rw (e, h)

trim_right_idem : (cut : ℕ → Bool) (s : Text) → trim_right cut (trim_right cut s) ≡ trim_right cut s
unfolding trim_right
trim_right_idem cut [] = refl
trim_right_idem cut (c ∷ s) =
    keep_idem cut (cut c) c (trim_right cut s) refl (trim_right_idem cut s)

-- The first code point, if there is one, is not cut.
CleanStart : (ℕ → Bool) → Text → Type 0
CleanStart cut [] = Unit
CleanStart cut (c ∷ s) = cut c ≡ false

trim_left-CleanStart : (cut : ℕ → Bool) (s : Text) → CleanStart cut (trim_left cut s)
unfolding trim_left CleanStart
trim_left-CleanStart cut [] = tt
trim_left-CleanStart cut (c ∷ s) = elim (Bool-cases (cut c)) [
  | inl e ↦ rw e (trim_left-CleanStart cut s)
  | inr e ↦ rw e e
]

trim_left-clean : (cut : ℕ → Bool) (s : Text) → CleanStart cut s → trim_left cut s ≡ s
unfolding trim_left CleanStart
trim_left-clean cut [] h = refl
trim_left-clean cut (c ∷ s) h = rw h

trim_right-CleanStart :
    (cut : ℕ → Bool) (s : Text) → CleanStart cut s → CleanStart cut (trim_right cut s)
unfolding trim_right CleanStart
trim_right-CleanStart cut [] h = tt
trim_right-CleanStart cut (c ∷ s) h = rw (h, keep) h

-- Trimming twice is trimming once.
pub trim_func_idem : (cut : ℕ → Bool) (s : Text) → trim_func cut (trim_func cut s) ≡ trim_func cut s
unfolding trim_func
trim_func_idem cut s =
    let clean : CleanStart cut (trim_right cut (trim_left cut s)) =
      trim_right-CleanStart cut (trim_left cut s) (trim_left-CleanStart cut s) in
    ap (trim_right cut) (trim_left-clean cut (trim_right cut (trim_left cut s)) clean)
    ∙ trim_right_idem cut (trim_left cut s)

pub trim_space_idem : (s : Text) → trim_space (trim_space s) ≡ trim_space s
unfolding trim_space
trim_space_idem s = trim_func_idem is_space s

-- A text none of whose code points is cut stays as it is.
abbrev pub NoCut : (ℕ → Bool) → Text → Type 0
NoCut cut [] = Unit
NoCut cut (c ∷ s) = (cut c ≡ false) × NoCut cut s

trim_right-NoCut : (cut : ℕ → Bool) (s : Text) → NoCut cut s → trim_right cut s ≡ s
unfolding trim_right
trim_right-NoCut cut [] h = refl
trim_right-NoCut cut (c ∷ s) h = rw (h.0, trim_right-NoCut cut s h.1, keep)

pub trim_space-NoCut : (s : Text) → NoCut is_space s → trim_space s ≡ s
unfolding trim_space trim_func trim_left
trim_space-NoCut [] h = trim_right-NoCut is_space [] h
trim_space-NoCut (c ∷ s) h = rw h.0 (trim_right-NoCut is_space (c ∷ s) h)

keep-ne_nil : (b : Bool) (c d : ℕ) (t : Text) → keep b c (d ∷ t) ≡ c ∷ d ∷ t
keep-ne_nil true c d t = refl
keep-ne_nil false c d t = refl

trim_right-bare : (x : ℕ) (s : Text) → ends_with x s ≡ false → trim_right (λ c. c == x) s ≡ s
unfolding trim_right ends_with
trim_right-bare x [] h = refl
trim_right-bare x (c ∷ []) h = rw (h, keep) refl
trim_right-bare x (c ∷ d ∷ t) h =
    ap (keep (c == x) c) (trim_right-bare x (d ∷ t) h) ∙ keep-ne_nil (c == x) c d t

-- A text without slashes at its ends stays as it is.
pub trim_slash-bare :
    (s : Text) → starts_with b'/' s ≡ false → ends_with b'/' s ≡ false → trim_slash s ≡ s
unfolding trim_slash trim_func trim_left starts_with
trim_slash-bare [] a b = trim_right-bare b'/' [] b
trim_slash-bare (c ∷ s) a b = rw a (trim_right-bare b'/' (c ∷ s) b)
