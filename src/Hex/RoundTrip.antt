-- ===== src/Hex/RoundTrip.antt =====
-- Decoding what was encoded.
use orbitport.Base.{ℕ, ◌+◌, ◌*◌, ◌/◌, ◌%◌, ◌<◌, ◌≡◌, refl, List, [], ◌∷◌, some, arith, length}
use orbitport.Hex.{digit, encode, value?, decode_string}

-- Every member of the list is a byte.
abbrev pub Bytes : List ℕ → Type 0
Bytes [] = Unit
Bytes (b ∷ bs) = (b < 256) × Bytes bs

value?-digit : (d : ℕ) → d < 16 → value? (digit d) ≡ some d
unfolding value? digit
value?-digit d h = ground arith

pub decode_string-encode : (bs : List ℕ) → Bytes bs → decode_string (encode bs) ≡ some bs
unfolding encode decode_string
decode_string-encode [] h = refl
decode_string-encode (b ∷ bs) h =
    let whole : b / 16 * 16 + b % 16 ≡ b = omega arith in
    rw (
      value?-digit (b / 16) (omega (arith, h.0)),
      value?-digit (b % 16) (omega arith),
      decode_string-encode bs h.1,
      whole,
    )

pub length-encode : (bs : List ℕ) → length (encode bs) ≡ 2 * length bs
unfolding encode
length-encode [] = refl
length-encode (b ∷ bs) = omega (arith, length-encode bs)
