-- ===== src/Base/All.antt =====
-- A predicate on every member of a list, by recursion, so that the tactics read it as a tuple.
use Prim.Native.Nat.{ℕ, zero, suc, ◌<◌}
use mathlib.Core.List.{List, [], ◌∷◌, ◌++◌}
use native.Mathlib.Omega.{arith}
use orbitport.Base.Lists.{length, get_or, set, drop}

abbrev pub All {ℓ κ} : {A : Type ℓ} → (A → Type κ) → List A → Type κ
All P [] = Unit
All P (x ∷ xs) = P x × All P xs

module _ {ℓ κ} {A : Type ℓ} (P : A → Type κ) where
  pub All-append : (xs ys : List A) → All P xs → All P ys → All P (xs ++ ys)
  All-append [] ys h k = k
  All-append (x ∷ xs) ys h k = (h.0, All-append xs ys h.1 k)

  pub All-drop_one : (xs : List A) → All P xs → All P (drop 1 xs)
  All-drop_one [] h = tt
  All-drop_one (x ∷ xs) h = h.1

  pub All-set : (xs : List A) (i : ℕ) (v : A) → All P xs → P v → All P (set xs i v)
  All-set [] i v h p = tt
  All-set (x ∷ xs) zero v h p = (p, h.1)
  All-set (x ∷ xs) (suc i) v h p = (h.0, All-set xs i v h.1 p)

  pub All-get_or : (xs : List A) (i : ℕ) (d : A) → i < length xs → All P xs → P (get_or xs i d)
  All-get_or [] i d lt h = absurd (omega arith)
  All-get_or (x ∷ xs) zero d lt h = h.0
  All-get_or (x ∷ xs) (suc i) d lt h = All-get_or xs i d (omega arith) h.1

  pub All-map {ι} : (Q : A → Type ι) (f : (x : A) → P x → Q x) (xs : List A) → All P xs → All Q xs
  All-map Q f [] h = tt
  All-map Q f (x ∷ xs) h = (f x h.0, All-map Q f xs h.1)

  pub All-zip {ι κ'} :
      (Q : A → Type ι) (R : A → Type κ')
      → ((x : A) → P x → Q x → R x)
      → (xs : List A) → All P xs
      → All Q xs
      → All R xs
  All-zip Q R f [] h k = tt
  All-zip Q R f (x ∷ xs) h k = (f x h.0 k.0, All-zip Q R f xs h.1 k.1)
