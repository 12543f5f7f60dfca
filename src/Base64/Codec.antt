-- ===== src/Base64/Codec.antt =====
-- encoding/base64: decoding with each of the four encodings, and encoding with the URL alphabet and no
-- padding.
use orbitport.Base.{
  ℕ, ◌+◌, ◌-◌, ◌*◌, ◌/◌, ◌%◌, Bool, true, false, List, [], ◌∷◌, Option, none, some, ltb, leb, ◌==◌,
  ◌&&◌, ◌||◌, if◌then◌else◌,
}
use orbitport.Base.Optional.{◌>>=◌}

-- the last two characters of the alphabet, and whether there is padding
pub record Encoding : Type 0 where
  pub char62 : ℕ
  pub char63 : ℕ
  pub padded : Bool

abbrev pub std_encoding : Encoding
std_encoding = record { char62 = b'+'; char63 = b'/'; padded = true }

abbrev pub url_encoding : Encoding
url_encoding = record { char62 = b'-'; char63 = b'_'; padded = true }

abbrev pub raw_std_encoding : Encoding
raw_std_encoding = record { char62 = b'+'; char63 = b'/'; padded = false }

abbrev pub raw_url_encoding : Encoding
raw_url_encoding = record { char62 = b'-'; char63 = b'_'; padded = false }

-- the character of six bits
unfoldable pub symbol_in : Encoding → ℕ → ℕ
symbol_in enc v =
    if ltb v 26
    then b'A' + v
    else if ltb v 52
    then b'a' + (v - 26)
    else if ltb v 62
    then b'0' + (v - 52)
    else if v == 62
    then enc.char62
    else enc.char63

-- the six bits of a character
unfoldable pub value? : Encoding → ℕ → Option ℕ
value? enc c =
    if leb b'A' c && leb c b'Z'
    then some (c - b'A')
    else if leb b'a' c && leb c b'z'
    then some (c - b'a' + 26)
    else if leb b'0' c && leb c b'9'
    then some (c - b'0' + 52)
    else if c == enc.char62
    then some 62
    else if c == enc.char63
    then some 63
    else none

abbrev is_empty : List ℕ → Bool
is_empty [] = true
is_empty (c ∷ s) = false

-- `base64.RawURLEncoding.EncodeToString`
unfoldable pub encode_raw : List ℕ → List ℕ
encode_raw [] = []
encode_raw (a ∷ []) =
    symbol_in raw_url_encoding (a / 4) ∷ symbol_in raw_url_encoding (a % 4 * 16) ∷ []
encode_raw (a ∷ b ∷ []) =
    symbol_in raw_url_encoding (a / 4)
    ∷ symbol_in raw_url_encoding (a % 4 * 16 + b / 16)
    ∷ symbol_in raw_url_encoding (b % 16 * 4)
    ∷ []
encode_raw (a ∷ b ∷ c ∷ bs) =
    symbol_in raw_url_encoding (a / 4)
    ∷ symbol_in raw_url_encoding (a % 4 * 16 + b / 16)
    ∷ symbol_in raw_url_encoding (b % 16 * 4 + c / 64)
    ∷ symbol_in raw_url_encoding (c % 64)
    ∷ encode_raw bs

-- The decoder passes over line breaks.
unfoldable pub drop_breaks : List ℕ → List ℕ
drop_breaks [] = []
drop_breaks (c ∷ s) = if c == 10 || c == 13 then drop_breaks s else c ∷ drop_breaks s

-- the bytes of two, three and four characters
unfoldable pub one_byte : Encoding → ℕ → ℕ → Option (List ℕ)
one_byte enc c d = do v ← value? enc c; w ← value? enc d; some ((v * 4 + w / 16) ∷ [])

unfoldable pub two_bytes : Encoding → ℕ → ℕ → ℕ → Option (List ℕ)
two_bytes enc c d e = do
  v ← value? enc c
  w ← value? enc d
  x ← value? enc e
  some ((v * 4 + w / 16) ∷ (w % 16 * 16 + x / 4) ∷ [])

unfoldable pub three_bytes : Encoding → ℕ → ℕ → ℕ → ℕ → List ℕ → Option (List ℕ)
three_bytes enc c d e f rest = do
  v ← value? enc c
  w ← value? enc d
  x ← value? enc e
  y ← value? enc f
  some ((v * 4 + w / 16) ∷ (w % 16 * 16 + x / 4) ∷ (x % 4 * 64 + y) ∷ rest)

unfoldable pub decode_quanta : Encoding → List ℕ → Option (List ℕ)
decode_quanta enc [] = some []
decode_quanta enc (c ∷ []) = none
decode_quanta enc (c ∷ d ∷ []) = if enc.padded then none else one_byte enc c d
decode_quanta enc (c ∷ d ∷ e ∷ []) = if enc.padded then none else two_bytes enc c d e
decode_quanta enc (c ∷ d ∷ e ∷ f ∷ s) =
    let rest = decode_quanta enc s in
    let last = enc.padded && is_empty s && f == b'=' in
    if last && e == b'='
    then one_byte enc c d
    else if last
    then two_bytes enc c d e
    else (rest >>= three_bytes enc c d e f)

-- `enc.DecodeString`
unfoldable pub decode : Encoding → List ℕ → Option (List ℕ)
decode enc s = decode_quanta enc (drop_breaks s)
