-- ===== src/Text/Split.antt =====
-- Splitting and joining at a separator.
use orbitport.Base.{ℕ, ◌≡◌, ◌≢◌, refl, List, [], ◌∷◌, ◌++◌, arith}
use orbitport.Base.All.{All}
use orbitport.Text.{Text, split, cons_part}

-- `strings.Join(parts, sep)`
pub join : ℕ → List Text → Text
join sep [] = []
join sep (p ∷ []) = p
join sep (p ∷ q ∷ ps) = p ++ sep ∷ join sep (q ∷ ps)

join-nil_part : (sep : ℕ) (ps : List Text) → ps ≢ [] → join sep ([] ∷ ps) ≡ sep ∷ join sep ps
unfolding join
join-nil_part sep [] h = absurd (h refl)
join-nil_part sep (p ∷ ps) h = refl

join-cons_part :
    (sep c : ℕ) (ps : List Text) → ps ≢ [] → join sep (cons_part c ps) ≡ c ∷ join sep ps
unfolding join
join-cons_part sep c [] h = absurd (h refl)
join-cons_part sep c (p ∷ []) h = refl
join-cons_part sep c (p ∷ q ∷ ps) h = refl

cons_part-ne-nil : (c : ℕ) (ps : List Text) → cons_part c ps ≢ []
cons_part-ne-nil c [] = λ e. cc
cons_part-ne-nil c (p ∷ ps) = λ e. cc

split-ne-nil : (sep : ℕ) (s : Text) → split sep s ≢ []
unfolding split
split-ne-nil sep [] = λ e. cc
split-ne-nil sep (c ∷ s) = ground (arith, cons_part-ne-nil c (split sep s))

-- Joining what was split gives the text back.
pub join-split : (sep : ℕ) (s : Text) → join sep (split sep s) ≡ s
unfolding split
join-split sep [] = unfold join in refl
join-split sep (c ∷ s) = ground (
  arith,
  join-split sep s,
  join-nil_part sep (split sep s) (split-ne-nil sep s),
  join-cons_part sep c (split sep s) (split-ne-nil sep s),
)

-- A part without the separator comes first.
pub split-part :
    (sep : ℕ) (p rest : Text)
    → All (λ c. c ≢ sep) p
    → split sep (p ++ sep ∷ rest) ≡ p ∷ split sep rest
unfolding split
split-part sep [] rest h = ground arith
split-part sep (c ∷ p) rest (d, h) = rw (split-part sep p rest h) (ground arith)

pub split-last : (sep : ℕ) (p : Text) → All (λ c. c ≢ sep) p → split sep p ≡ p ∷ []
unfolding split
split-last sep [] h = refl
split-last sep (c ∷ p) (d, h) = rw (split-last sep p h) (ground arith)
