-- ===== src/Base64/Padded.antt =====
-- Decoding what was encoded with padding.
use orbitport.Base.{
  ℕ, ◌+◌, ◌*◌, ◌/◌, ◌%◌, ◌<◌, ◌≡◌, ◌≢◌, refl, Bool, true, false, List, [], ◌∷◌, some, arith, ◌==◌,
  ◌&&◌,
}
use orbitport.Base.All.{All}
use orbitport.Base64.{symbol, encode}
use orbitport.Base64.Codec.{
  std_encoding, value?, drop_breaks, one_byte, two_bytes, three_bytes, decode_quanta, decode,
}

value?-symbol : (v : ℕ) → v < 64 → value? std_encoding (symbol v) ≡ some v
unfolding value? symbol
value?-symbol v h = ground arith

-- no line break
abbrev Unbroken : ℕ → Type 0
Unbroken c = (c ≢ 10) × (c ≢ 13)

symbol-Unbroken : (v : ℕ) → Unbroken (symbol v)
unfolding symbol
symbol-Unbroken v = (ground arith, ground arith)

-- no symbol is the padding
symbol-unpadded : (v : ℕ) → (symbol v == b'=') ≡ false
unfolding symbol
symbol-unpadded v = ground arith

pad-Unbroken : Unbroken (b'=')
pad-Unbroken = (omega arith, omega arith)

encode-Unbroken : (bs : List ℕ) → All Unbroken (encode bs)
unfolding encode
encode-Unbroken [] = tt
encode-Unbroken (a ∷ []) =
    (symbol-Unbroken (a / 4), (symbol-Unbroken (a % 4 * 16), (pad-Unbroken, (pad-Unbroken, tt))))
encode-Unbroken (a ∷ b ∷ []) = (
  symbol-Unbroken (a / 4),
  (symbol-Unbroken (a % 4 * 16 + b / 16), (symbol-Unbroken (b % 16 * 4), (pad-Unbroken, tt))),
)
encode-Unbroken (a ∷ b ∷ c ∷ bs) = (
  symbol-Unbroken (a / 4),
  (
    symbol-Unbroken (a % 4 * 16 + b / 16),
    (symbol-Unbroken (b % 16 * 4 + c / 64), (symbol-Unbroken (c % 64), encode-Unbroken bs)),
  ),
)

drop_breaks-Unbroken : (s : List ℕ) → All Unbroken s → drop_breaks s ≡ s
unfolding drop_breaks
drop_breaks-Unbroken [] h = refl
drop_breaks-Unbroken (c ∷ s) (p, h) = let rest = drop_breaks-Unbroken s h in ground arith

and_false : (b : Bool) → (b && false) ≡ false
and_false true = refl
and_false false = refl

decode_quanta-encode :
    (bs : List ℕ) → All (λ b. b < 256) bs → decode_quanta std_encoding (encode bs) ≡ some bs
unfolding encode decode_quanta one_byte two_bytes three_bytes
decode_quanta-encode [] h = refl
decode_quanta-encode (a ∷ []) (ha, _) =
    let whole : a / 4 * 4 + a % 4 * 16 / 16 ≡ a = omega arith in
    rw (value?-symbol (a / 4) (omega arith), value?-symbol (a % 4 * 16) (omega arith), whole)
decode_quanta-encode (a ∷ b ∷ []) (ha, (hb, _)) =
    let first : a / 4 * 4 + (a % 4 * 16 + b / 16) / 16 ≡ a = omega arith in
    let second : (a % 4 * 16 + b / 16) % 16 * 16 + b % 16 * 4 / 4 ≡ b = omega arith in
    rw (
      symbol-unpadded (b % 16 * 4),
      value?-symbol (a / 4) (omega arith),
      value?-symbol (a % 4 * 16 + b / 16) (omega arith),
      value?-symbol (b % 16 * 4) (omega arith),
      first,
      second,
    )
decode_quanta-encode (a ∷ b ∷ c ∷ bs) (ha, (hb, (hc, h))) =
    let first : a / 4 * 4 + (a % 4 * 16 + b / 16) / 16 ≡ a = omega arith in
    let second : (a % 4 * 16 + b / 16) % 16 * 16 + (b % 16 * 4 + c / 64) / 4 ≡ b = omega arith in
    let third : (b % 16 * 4 + c / 64) % 4 * 64 + c % 64 ≡ c = omega arith in
    rw (
      symbol-unpadded (c % 64),
      and_false _,
      decode_quanta-encode bs h,
      value?-symbol (a / 4) (omega arith),
      value?-symbol (a % 4 * 16 + b / 16) (omega arith),
      value?-symbol (b % 16 * 4 + c / 64) (omega arith),
      value?-symbol (c % 64) (omega arith),
      first,
      second,
      third,
    )

-- Bytes that are encoded with padding are decoded to themselves.
pub decode-encode :
    (bs : List ℕ) → All (λ b. b < 256) bs → decode std_encoding (encode bs) ≡ some bs
unfolding decode
decode-encode bs h =
    rw (drop_breaks-Unbroken (encode bs) (encode-Unbroken bs)) (decode_quanta-encode bs h)
