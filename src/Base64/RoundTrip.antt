-- ===== src/Base64/RoundTrip.antt =====
-- Decoding what was encoded.
use orbitport.Base.{ℕ, ◌+◌, ◌*◌, ◌/◌, ◌%◌, ◌<◌, ◌≡◌, ◌≢◌, refl, List, [], ◌∷◌, some, arith}
use orbitport.Base.All.{All}
use orbitport.Base64.Codec.{
  raw_url_encoding, symbol_in, value?, encode_raw, drop_breaks, one_byte, two_bytes, three_bytes,
  decode_quanta, decode,
}

value?-symbol_in :
    (v : ℕ) → v < 64 → value? raw_url_encoding (symbol_in raw_url_encoding v) ≡ some v
unfolding value? symbol_in
value?-symbol_in v h = ground arith

-- neither a line break nor the dot between the parts of a token
abbrev pub Plain : ℕ → Type 0
Plain c = (c ≢ 10) × (c ≢ 13) × (c ≢ b'.')

symbol_in-Plain : (v : ℕ) → Plain (symbol_in raw_url_encoding v)
unfolding symbol_in
symbol_in-Plain v = (ground arith, ground arith, ground arith)

pub encode_raw-Plain : (bs : List ℕ) → All Plain (encode_raw bs)
unfolding encode_raw
encode_raw-Plain [] = tt
encode_raw-Plain (a ∷ []) = (symbol_in-Plain (a / 4), (symbol_in-Plain (a % 4 * 16), tt))
encode_raw-Plain (a ∷ b ∷ []) = (
  symbol_in-Plain (a / 4),
  (symbol_in-Plain (a % 4 * 16 + b / 16), (symbol_in-Plain (b % 16 * 4), tt)),
)
encode_raw-Plain (a ∷ b ∷ c ∷ bs) = (
  symbol_in-Plain (a / 4),
  (
    symbol_in-Plain (a % 4 * 16 + b / 16),
    (symbol_in-Plain (b % 16 * 4 + c / 64), (symbol_in-Plain (c % 64), encode_raw-Plain bs)),
  ),
)

drop_breaks-Plain : (s : List ℕ) → All Plain s → drop_breaks s ≡ s
unfolding drop_breaks
drop_breaks-Plain [] h = refl
drop_breaks-Plain (c ∷ s) (p, h) = let rest = drop_breaks-Plain s h in ground arith

one_byte-symbols :
    (a : ℕ)
    → a < 256
    → one_byte raw_url_encoding
        (symbol_in raw_url_encoding (a / 4))
        (symbol_in raw_url_encoding (a % 4 * 16))
      ≡ some (a ∷ [])
unfolding one_byte
one_byte-symbols a h =
    let whole : a / 4 * 4 + a % 4 * 16 / 16 ≡ a = omega arith in
    rw (value?-symbol_in (a / 4) (omega arith), value?-symbol_in (a % 4 * 16) (omega arith), whole)

two_bytes-symbols :
    (a b : ℕ)
    → a < 256
    → b < 256
    → two_bytes raw_url_encoding
        (symbol_in raw_url_encoding (a / 4))
        (symbol_in raw_url_encoding (a % 4 * 16 + b / 16))
        (symbol_in raw_url_encoding (b % 16 * 4))
      ≡ some (a ∷ b ∷ [])
unfolding two_bytes
two_bytes-symbols a b ha hb =
    let first : a / 4 * 4 + (a % 4 * 16 + b / 16) / 16 ≡ a = omega arith in
    let second : (a % 4 * 16 + b / 16) % 16 * 16 + b % 16 * 4 / 4 ≡ b = omega arith in
    rw (
      value?-symbol_in (a / 4) (omega arith),
      value?-symbol_in (a % 4 * 16 + b / 16) (omega arith),
      value?-symbol_in (b % 16 * 4) (omega arith),
      first,
      second,
    )

three_bytes-symbols :
    (a b c : ℕ) (rest : List ℕ)
    → a < 256
    → b < 256
    → c < 256
    → three_bytes raw_url_encoding
        (symbol_in raw_url_encoding (a / 4))
        (symbol_in raw_url_encoding (a % 4 * 16 + b / 16))
        (symbol_in raw_url_encoding (b % 16 * 4 + c / 64))
        (symbol_in raw_url_encoding (c % 64))
        rest
      ≡ some (a ∷ b ∷ c ∷ rest)
unfolding three_bytes
three_bytes-symbols a b c rest ha hb hc =
    let first : a / 4 * 4 + (a % 4 * 16 + b / 16) / 16 ≡ a = omega arith in
    let second : (a % 4 * 16 + b / 16) % 16 * 16 + (b % 16 * 4 + c / 64) / 4 ≡ b = omega arith in
    let third : (b % 16 * 4 + c / 64) % 4 * 64 + c % 64 ≡ c = omega arith in
    rw (
      value?-symbol_in (a / 4) (omega arith),
      value?-symbol_in (a % 4 * 16 + b / 16) (omega arith),
      value?-symbol_in (b % 16 * 4 + c / 64) (omega arith),
      value?-symbol_in (c % 64) (omega arith),
      first,
      second,
      third,
    )

decode_quanta-encode_raw :
    (bs : List ℕ) → All (λ b. b < 256) bs → decode_quanta raw_url_encoding (encode_raw bs) ≡ some bs
unfolding encode_raw decode_quanta
decode_quanta-encode_raw [] h = refl
decode_quanta-encode_raw (a ∷ []) (ha, _) = one_byte-symbols a ha
decode_quanta-encode_raw (a ∷ b ∷ []) (ha, (hb, _)) = two_bytes-symbols a b ha hb
decode_quanta-encode_raw (a ∷ b ∷ c ∷ bs) (ha, (hb, (hc, h))) =
    rw (decode_quanta-encode_raw bs h) (three_bytes-symbols a b c bs ha hb hc)

-- Bytes that are encoded without padding are decoded to themselves.
pub decode-encode_raw :
    (bs : List ℕ) → All (λ b. b < 256) bs → decode raw_url_encoding (encode_raw bs) ≡ some bs
unfolding decode
decode-encode_raw bs h =
    rw (drop_breaks-Plain (encode_raw bs) (encode_raw-Plain bs)) (decode_quanta-encode_raw bs h)
