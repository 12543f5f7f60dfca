-- ===== src/Text/Number.antt =====
-- Decimal numbers: `strconv.Itoa` and `strconv.Atoi`.
use orbitport.Base.{
  ℕ, zero, suc, ◌+◌, ◌-◌, ◌*◌, ◌/◌, ◌%◌, ◌^◌, ◌<◌, ◌≡◌, refl, false, [], ◌∷◌, ◌++◌, Option, none,
  some, ltb, leb, ◌==◌, ◌&&◌, if◌then◌else◌, arith, Bool-cases, inl, inr, ltb→lt, ltb→le,
}
use orbitport.Base.Int.{ℤ, pos, negsuc}
use orbitport.Base.Optional.{◌>>=◌}
use orbitport.Text.{Text, is_empty}

-- The decimal digits; the fuel is more than the number.
unfoldable pub digits : ℕ → ℕ → Text
digits zero n = []
digits (suc fuel) n =
    let high = digits fuel (n / 10) in
    if ltb n 10 then (b'0' + n) ∷ [] else high ++ (b'0' + n % 10) ∷ []

-- `strconv.Itoa`
unfoldable pub itoa : ℤ → Text
itoa (pos n) = digits (suc n) n
itoa (negsuc n) = b'-' ∷ digits (suc (suc n)) (suc n)

-- what the digits stand for, behind those already read
unfoldable pub read_digits : ℕ → Text → Option ℕ
read_digits n [] = some n
read_digits n (c ∷ s) =
    if leb b'0' c && leb c b'9' then read_digits (n * 10 + (c - b'0')) s else none

-- the number of at least one digit
unfoldable pub read_number : Text → Option ℕ
read_number s = if is_empty s then none else read_digits 0 s

abbrev negated : ℕ → Option ℤ
negated zero = some (pos 0)
negated (suc n) = if ltb n (2 ^ 63) then some (negsuc n) else none

-- `strconv.Atoi`, for an int of 64 bits
unfoldable pub atoi : Text → Option ℤ
atoi [] = none
atoi (c ∷ s) =
    let unsigned = read_number (c ∷ s) in
    let rest = read_number s in
    if c == b'-' then (rest >>= negated) else do
      n ← (if c == b'+' then rest else unsigned)
      if ltb n (2 ^ 63) then some (pos n) else none

read_digits-append :
    (n : ℕ) (s : Text) (d : ℕ)
    → d < 10
    → read_digits n (s ++ (b'0' + d) ∷ []) ≡ (read_digits n s >>= λ m. some (m * 10 + d))
unfolding read_digits
read_digits-append n [] d h = ground arith
read_digits-append n (c ∷ s) d h = ground (arith, read_digits-append (n * 10 + (c - b'0')) s d h)

read_digits-digits : (fuel n : ℕ) → n < fuel → read_digits 0 (digits fuel n) ≡ some n
unfolding digits
read_digits-digits zero n h = absurd (omega arith)
read_digits-digits (suc fuel) n h = elim (Bool-cases (ltb n 10)) [
  | inl small ↦ let lt = ltb→lt n 10 small in rw (small) (unfold read_digits in ground arith)
  | inr large ↦
      let le = ltb→le n 10 large in
      let whole : n / 10 * 10 + n % 10 ≡ n = omega arith in
      rw (
        large,
        read_digits-append 0 (digits fuel (n / 10)) (n % 10) (omega arith),
        read_digits-digits fuel (n / 10) (omega arith),
        whole,
      )
]

read_digits-minus : (s : Text) → read_digits 0 (b'-' ∷ s) ≡ none
unfolding read_digits
read_digits-minus s = refl

-- Different numbers have different texts.
pub itoa-injective : (m n : ℤ) → itoa m ≡ itoa n → m ≡ n
unfolding itoa
itoa-injective (pos m) (pos n) e =
    let left = read_digits-digits (suc m) m (omega arith) in
    let right = read_digits-digits (suc n) n (omega arith) in cc
itoa-injective (pos m) (negsuc n) e =
    let left = read_digits-digits (suc m) m (omega arith) in
    let right = read_digits-minus (digits (suc (suc n)) (suc n)) in cc
itoa-injective (negsuc m) (pos n) e =
    let left = read_digits-minus (digits (suc (suc m)) (suc m)) in
    let right = read_digits-digits (suc n) n (omega arith) in cc
itoa-injective (negsuc m) (negsuc n) e =
    let left = read_digits-digits (suc (suc m)) (suc m) (omega arith) in
    let right = read_digits-digits (suc (suc n)) (suc n) (omega arith) in cc

is_empty-snoc : (s : Text) (c : ℕ) → is_empty (s ++ c ∷ []) ≡ false
is_empty-snoc [] c = refl
is_empty-snoc (d ∷ s) c = refl

is_empty-digits : (fuel n : ℕ) → is_empty (digits (suc fuel) n) ≡ false
unfolding digits
is_empty-digits fuel n = elim (Bool-cases (ltb n 10)) [
  | inl small ↦ rw (small) refl
  | inr large ↦ rw (large) (is_empty-snoc (digits fuel (n / 10)) (b'0' + n % 10))
]

pub is_empty-itoa : (n : ℤ) → is_empty (itoa n) ≡ false
unfolding itoa
is_empty-itoa (pos n) = is_empty-digits n n
is_empty-itoa (negsuc n) = refl
