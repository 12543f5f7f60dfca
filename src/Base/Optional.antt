-- ===== src/Base/Optional.antt =====
-- Go's `(value, ok)` pairs in chains.
use mathlib.Core.Option.{Option, none, some}

infixl 5 ◌>>=◌
abbrev pub ◌>>=◌ {ℓ} : {A B : Type ℓ} → Option A → (A → Option B) → Option B
some a >>= f = f a
none >>= f = none
