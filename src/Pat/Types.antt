-- ===== src/Pat/Types.antt =====
-- The claims and keys of tokens. A JSON text stands for what it parses as.
use orbitport.Base.{
  ℕ, ◌+◌, ◌-◌, ◌*◌, ◌%◌, ◌^◌, Bool, List, [], ◌∷◌, ◌++◌, Option, none, some, ltb, ◌==◌, ◌&&◌,
  length, take, drop, if◌then◌else◌,
}
use orbitport.Base.Int.{ℤ}
use orbitport.Text.{Text}

-- Claims of a token; one that is missing or of another type is `none`. `iat` and `exp` are in seconds.
pub record Claims : Type 0 where
  pub iss : Option Text
  pub aud : List Text
  pub sub : Option Text
  pub jti : Option Text
  pub kms_tenant : Option Text
  pub iat : Option ℤ
  pub exp : Option ℤ

pub record JwsHeader : Type 0 where
  pub alg : Text
  pub typ : Text
  pub kid : Text

-- A key of a JWK set. `usage` is its "use".
pub record Jwk : Type 0 where
  pub kty : Text
  pub crv : Text
  pub usage : Text
  pub alg : Text
  pub kid : Text
  pub x : Text
  pub y : Text

-- A point of P-256: its coordinates, 32 bytes each.
pub record PublicKey : Type 0 where
  pub x : List ℕ
  pub y : List ℕ

-- `PublicKey.Bytes`: the uncompressed point
abbrev pub point_of : PublicKey → List ℕ
point_of k = 4 ∷ k.x ++ k.y

unfoldable pub big_endian : ℕ → List ℕ → ℕ
big_endian n [] = n
big_endian n (b ∷ bs) = big_endian (n * 256 + b) bs

abbrev prime : ℕ
prime = 2 ^ 256 - 2 ^ 224 + 2 ^ 192 + 2 ^ 96 - 1

abbrev curve_b : ℕ
curve_b = 0x5ac635d8aa3a93e7b3ebbd55769886bc651d06b0cc53b0f63bce3c3e27d2604b

-- y² = x³ - 3x + b modulo the prime
unfoldable pub on_curve : ℕ → ℕ → Bool
on_curve x y =
    ltb x prime && ltb y prime && y * y % prime == (x * x * x + (prime - 3) * x + curve_b) % prime

-- `ecdsa.ParseUncompressedPublicKey` for P-256
unfoldable pub parse_uncompressed : List ℕ → Option PublicKey
parse_uncompressed [] = none
parse_uncompressed (c ∷ bs) =
    let x = take 32 bs in
    let y = drop 32 bs in
    if c == 4 && length bs == 64 && on_curve (big_endian 0 x) (big_endian 0 y)
    then some (record { x = x; y = y })
    else none
