-- ===== src/Base/Traced.antt =====
-- Code that calls other programs: from the calls so far, newest first, to its result and the calls
-- then. A failed part ends the whole, with the calls that were made.
use mathlib.Core.Path.{◌≡◌, refl, sym, ap}
use mathlib.Core.List.{List}
use orbitport.Base.Result.{Result, ok, err}

abbrev pub Traced : Type 0 → Type 0 → Type 0 → Type 0
Traced C E A = List C → Result E A × List C

infixl 5 ◌>>=◌ ◌>>◌
abbrev pub ◌>>=◌ : {C E A B : Type 0} → Traced C E A → (A → Traced C E B) → Traced C E B
◌>>=◌ m f h = elim ((m h).0) [ ok a ↦ f a (m h).1 | err e ↦ (err e, (m h).1) ]

abbrev pub ◌>>◌ : {C E B : Type 0} → Traced C E (Unit {0}) → Traced C E B → Traced C E B
m >> k = m >>= λ _. k

abbrev pub return : {C E A : Type 0} → A → Traced C E A
return a h = (ok a, h)

-- a result that needs no call
abbrev pub lift : {C E A : Type 0} → Result E A → Traced C E A
lift r h = (r, h)

pub lift-ok :
    {C E A : Type 0} (r : Result E A) {h k : List C} {a : A}
    → lift r h ≡ (ok a, k)
    → (r ≡ ok a) × (k ≡ h)
lift-ok r e = (ap (λ p. p.0) e, ap (λ p. p.1) (sym e))

module _ {C E A B : Type 0} (m : Traced C E A) (f : A → Traced C E B) where
  abbrev next : Result E A × List C → Result E B × List C
  next r = elim (r.0) [ ok a ↦ f a r.1 | err e ↦ (err e, r.1) ]

  -- a step whose first part is known
  pub step_ok : {h k : List C} {a : A} → m h ≡ (ok a, k) → (m >>= f) h ≡ f a k
  step_ok e = ap next e

  pub step_err : {h k : List C} {x : E} → m h ≡ (err x, k) → (m >>= f) h ≡ (err x, k)
  step_err e = ap next e

  -- a successful step
  pub >>=-ok :
      (h h' : List C) {b : B}
      → (m >>= f) h ≡ (ok b, h')
      → (a : A) × (k : List C) × (m h ≡ (ok a, k)) × (f a k ≡ (ok b, h'))
  >>=-ok h h' {b} e = from (m h) e
    where
      from :
          (r : Result E A × List C)
          → next r ≡ (ok b, h')
          → (a : A) × (k : List C) × (r ≡ (ok a, k)) × (f a k ≡ (ok b, h'))
      from (ok a, k) e = (a, k, refl, e)
      from (err x, k) e = cc
