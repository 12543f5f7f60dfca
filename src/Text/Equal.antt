-- ===== src/Text/Equal.antt =====
-- The comparison of texts decides their equality.
use orbitport.Base.{◌≡◌, ◌≢◌, refl, subst, true, false, [], ◌∷◌, arith, ◌↔◌}
use orbitport.Text.{Text, text_eq}

pub text_eq_refl : (s : Text) → text_eq s s ≡ true
unfolding text_eq
text_eq_refl [] = refl
text_eq_refl (c ∷ s) = ground (arith, text_eq_refl s)

pub text_eq→≡ : (s t : Text) → text_eq s t ≡ true → s ≡ t
unfolding text_eq
text_eq→≡ [] [] h = refl
text_eq→≡ [] (d ∷ t) h = cc
text_eq→≡ (c ∷ s) [] h = cc
text_eq→≡ (c ∷ s) (d ∷ t) h = ground (arith, text_eq→≡ s t)

pub text_eq_iff : (s t : Text) → (text_eq s t ≡ true) ↔ (s ≡ t)
text_eq_iff s t = (text_eq→≡ s t, λ e. subst (λ u. text_eq s u ≡ true) e (text_eq_refl s))

pub text_eq→≢ : (s t : Text) → text_eq s t ≡ false → s ≢ t
text_eq→≢ s t h e = let same : text_eq s t ≡ true = (text_eq_iff s t).1 e in cc
