-- ===== src/Base/Bits.antt =====
-- What `bit_or` does to a shifted word and a word below the shift.
use Prim.Native.Nat.{
  ℕ, zero, suc, ◌+◌, ◌*◌, ◌/◌, ◌%◌, ◌^◌, ◌≤◌, ◌<◌, max, bit_or, digits, bit_or-bitwise,
}
use mathlib.Core.Path.{◌≡◌, refl}
use native.Mathlib.Omega.{arith}
use native.Mathlib.Nat.{pow-suc}

abbrev or_digits : ℕ → ℕ → ℕ → ℕ
or_digits n a b = digits (λ b. b) max n a b

or_digits_fuel : (n m a b : ℕ) → a ≤ n → a ≤ m → or_digits n a b ≡ or_digits m a b
or_digits_fuel zero zero a b p q = refl
or_digits_fuel zero (suc m) zero b p q = refl
or_digits_fuel zero (suc m) (suc a) b p q = absurd (omega arith)
or_digits_fuel (suc n) zero zero b p q = refl
or_digits_fuel (suc n) zero (suc a) b p q = absurd (omega arith)
or_digits_fuel (suc n) (suc m) zero b p q = refl
or_digits_fuel (suc n) (suc m) (suc a) b p q =
    omega (arith, or_digits_fuel n m (suc a / 2) (b / 2) (omega arith) (omega arith))

zero-bit_or : (b : ℕ) → bit_or 0 b ≡ b
zero-bit_or b = bit_or-bitwise 0 b

bit_or_step : (a b : ℕ) → bit_or a b ≡ bit_or (a / 2) (b / 2) * 2 + max (a % 2) (b % 2)
bit_or_step zero b = omega (arith, zero-bit_or b, zero-bit_or (b / 2))
bit_or_step (suc a) b = omega (
  arith,
  bit_or-bitwise (suc a) b,
  bit_or-bitwise (suc a / 2) (b / 2),
  or_digits_fuel a (suc a / 2) (suc a / 2) (b / 2) (omega arith) (omega arith),
)

bit_or-zero_fuel : (n a : ℕ) → a ≤ n → bit_or a 0 ≡ a
bit_or-zero_fuel n zero h = refl
bit_or-zero_fuel zero (suc a) h = absurd (omega arith)
bit_or-zero_fuel (suc n) (suc a) h =
    omega (arith, bit_or_step (suc a) 0, bit_or-zero_fuel n (suc a / 2) (omega arith))

-- A word shifted by `k` and a word below `2 ^ k` have no digit in common.
pub bit_or_shift : (k hi lo : ℕ) → lo < 2 ^ k → bit_or (hi * 2 ^ k) lo ≡ hi * 2 ^ k + lo
bit_or_shift zero hi lo h =
    let none_left : lo ≡ 0 = omega arith in
    rw none_left (omega (arith, bit_or-zero_fuel (hi * 2 ^ 0) (hi * 2 ^ 0) (omega arith)))
bit_or_shift (suc k) hi lo h =
    let power : 2 ^ suc k ≡ 2 * 2 ^ k = simp pow-suc (omega arith) in
    let half : bit_or (hi * 2 ^ k) (lo / 2) ≡ hi * 2 ^ k + lo / 2 =
      bit_or_shift k hi (lo / 2) (omega arith) in
    let shifted : hi * 2 ^ suc k ≡ 2 * (hi * 2 ^ k) = rw power (omega arith) in
    let halved : hi * 2 ^ suc k / 2 ≡ hi * 2 ^ k = omega arith in
    rw (bit_or_step (hi * 2 ^ suc k) lo, halved, half) (omega arith)
