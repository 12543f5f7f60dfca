-- ===== src/ChaCha20/Stream.antt =====
-- The keystream of a key, byte by byte, and what it means for a generator to stand at a position.
use orbitport.Base.{
  ℕ, zero, suc, ◌+◌, ◌*◌, ◌/◌, ◌%◌, ◌^◌, ◌≤◌, ◌≡◌, refl, ap, List, [], ◌∷◌, arith, length, get_or,
  ◌++◌, sym, ◌∙◌, length-append, length-set, take, drop,
}
use orbitport.ChaCha20.{
  ChaCha20Rng, quarter_round, double_round, double_rounds, feed_forward, put_uint32, serialize,
  block_bytes,
}

pub record Key : Type 0 where
  pub k0 : ℕ
  pub k1 : ℕ
  pub k2 : ℕ
  pub k3 : ℕ
  pub k4 : ℕ
  pub k5 : ℕ
  pub k6 : ℕ
  pub k7 : ℕ

-- The state in front of block `c`: the constants, the key, the counter modulo 2 ^ 64 in two words,
-- and the stream id 0.
abbrev pub state_at : Key → ℕ → List ℕ
state_at k c =
    0x61707865
    ∷ 0x3320646e
    ∷ 0x79622d32
    ∷ 0x6b206574
    ∷ k.k0
    ∷ k.k1
    ∷ k.k2
    ∷ k.k3
    ∷ k.k4
    ∷ k.k5
    ∷ k.k6
    ∷ k.k7
    ∷ c % 2 ^ 32
    ∷ c / 2 ^ 32 % 2 ^ 32
    ∷ 0
    ∷ 0
    ∷ []

unfoldable pub block : Key → ℕ → List ℕ
block k c = block_bytes (state_at k c)

pub stream_byte : Key → ℕ → ℕ
stream_byte k p = get_or (block k (p / 64)) (p % 64) 0

-- the `n` bytes of the keystream from position `p` on
unfoldable pub stream : Key → ℕ → ℕ → List ℕ
stream k p zero = []
stream k p (suc n) = stream_byte k p ∷ stream k (suc p) n

pub data Represents (k : Key) (p : ℕ) (r : ChaCha20Rng) : Type 0 where
  aligned : (q : ℕ) → r.state ≡ state_at k q → r.buf_pos ≡ 64 → p ≡ 64 * q → Represents k p r
  within :
      (q : ℕ)
      → r.state ≡ state_at k (suc q)
      → r.buf ≡ block k q
      → r.buf_pos ≤ 64
      → p ≡ 64 * q + r.buf_pos
      → Represents k p r

length-quarter_round : (x : List ℕ) (a b c d : ℕ) → length (quarter_round x a b c d) ≡ length x
unfolding quarter_round
length-quarter_round x a b c d = simp length-set

length-double_round : (x : List ℕ) → length (double_round x) ≡ length x
unfolding double_round
length-double_round x = simp length-quarter_round

length-double_rounds : (n : ℕ) (x : List ℕ) → length (double_rounds n x) ≡ length x
unfolding double_rounds
length-double_rounds zero x = refl
length-double_rounds (suc n) x =
    omega (arith, length-double_rounds n (double_round x), length-double_round x)

length-feed_forward : (x s : List ℕ) → length (feed_forward x s) ≡ length x
unfolding feed_forward
length-feed_forward [] s = refl
length-feed_forward (x ∷ xs) [] = refl
length-feed_forward (x ∷ xs) (s ∷ ss) = ap suc (length-feed_forward xs ss)

length-serialize : (ws : List ℕ) → length (serialize ws) ≡ 4 * length ws
unfolding serialize
length-serialize [] = refl
length-serialize (w ∷ ws) =
    omega (arith, length-append (put_uint32 w) (serialize ws), length-serialize ws)

pub length-block : (k : Key) (c : ℕ) → length (block k c) ≡ 64
unfolding block block_bytes
length-block k c = omega (
  arith,
  length-serialize (feed_forward (double_rounds 10 (state_at k c)) (state_at k c)),
  length-feed_forward (double_rounds 10 (state_at k c)) (state_at k c),
  length-double_rounds 10 (state_at k c),
)

-- The bytes of `xs` from `p` on, read one by one.
pub slice : List ℕ → ℕ → ℕ → List ℕ
slice xs p zero = []
slice xs p (suc m) = get_or xs p 0 ∷ slice xs (suc p) m

slice-cons : (x : ℕ) (xs : List ℕ) (p m : ℕ) → slice (x ∷ xs) (suc p) m ≡ slice xs p m
unfolding slice
slice-cons x xs p zero = refl
slice-cons x xs p (suc m) = ap (◌∷◌ (get_or xs p 0)) (slice-cons x xs (suc p) m)

pub take-drop : (xs : List ℕ) (p m : ℕ) → p + m ≤ length xs → take m (drop p xs) ≡ slice xs p m
unfolding slice
take-drop [] p zero h = refl
take-drop [] p (suc m) h = absurd (omega arith)
take-drop (x ∷ xs) zero zero h = refl
take-drop (x ∷ xs) zero (suc m) h =
    ap (◌∷◌ x) (take-drop xs 0 m (omega arith) ∙ sym (slice-cons x xs 0 m))
take-drop (x ∷ xs) (suc p) m h = take-drop xs p m (omega arith) ∙ sym (slice-cons x xs p m)

-- Inside one block the keystream is the block.
pub slice-stream :
    (k : Key) (q p m : ℕ) → p + m ≤ 64 → slice (block k q) p m ≡ stream k (64 * q + p) m
unfolding slice stream stream_byte
slice-stream k q p zero h = refl
slice-stream k q p (suc m) h =
    let same_block : (64 * q + p) / 64 ≡ q = omega arith in
    let offset : (64 * q + p) % 64 ≡ p = omega arith in
    let next : 64 * q + suc p ≡ suc (64 * q + p) = omega arith in
    rw (same_block, offset)
      (ap (◌∷◌ (get_or (block k q) p 0))
        (slice-stream k q (suc p) m (omega arith) ∙ ap (λ t. stream k t m) next))

-- Reading on is reading the rest.
pub stream-append : (k : Key) (p m n : ℕ) → stream k p (m + n) ≡ stream k p m ++ stream k (p + m) n
unfolding stream
stream-append k p zero n =
    let from : p ≡ p + 0 = omega arith in let count : 0 + n ≡ n = omega arith in rw (count, ← from)
stream-append k p (suc m) n =
    let from : p + suc m ≡ suc p + m = omega arith in
    let count : suc m + n ≡ suc (m + n) = omega arith in
    rw (from, count) (ap (◌∷◌ (stream_byte k p)) (stream-append k (suc p) m n))

pub length-stream : (k : Key) (p n : ℕ) → length (stream k p n) ≡ n
unfolding stream
length-stream k p zero = refl
length-stream k p (suc n) = ap suc (length-stream k (suc p) n)
