-- ===== src/ChaCha20.antt =====
-- plugins/pkg/chacha20/chacha20_rng.go: the generator, word by word. A uint32 is a number below
-- 2 ^ 32, and every addition and shift writes its wrap-around out; an array is a list of its size.
pub mod Stream
pub mod Refill
pub mod Position
mod Tests
use orbitport.Base.{
  ℕ, zero, suc, ◌+◌, ◌-◌, ◌*◌, ◌/◌, ◌%◌, ◌^◌, Bool, List, [], ◌∷◌, ◌++◌, bit_or, bit_xor, ltb, ◌==◌,
  if◌then◌else◌, length, get_or, set, take, drop, replicate, min,
}

pub record ChaCha20Rng : Type 0 where
  pub state : List ℕ
  pub buf : List ℕ
  pub buf_pos : ℕ

-- `len(r.buf)`
abbrev pub block_len : ℕ
block_len = 64

abbrev pub u32_mod : ℕ
u32_mod = 2 ^ 32

abbrev pub u64_mod : ℕ
u64_mod = 2 ^ 64

pub add32 : ℕ → ℕ → ℕ
add32 a b = (a + b) % u32_mod

pub rotl32 : ℕ → ℕ → ℕ
rotl32 v n = bit_or (v * 2 ^ n % u32_mod) (v / 2 ^ (32 - n))

-- `x[i] += x[j]`
pub add_to : List ℕ → ℕ → ℕ → List ℕ
unfolding add32
add_to x i j = set x i (add32 (get_or x i 0) (get_or x j 0))

-- `x[i] ^= x[j]; x[i] = rotl32(x[i], n)`
pub xor_rotate : List ℕ → ℕ → ℕ → ℕ → List ℕ
unfolding rotl32
xor_rotate x i j n = set x i (rotl32 (bit_xor (get_or x i 0) (get_or x j 0)) n)

pub quarter_round : List ℕ → ℕ → ℕ → ℕ → ℕ → List ℕ
unfolding add_to xor_rotate
quarter_round x a b c d =
    let x1 = xor_rotate (add_to x a b) d a 16 in
    let x2 = xor_rotate (add_to x1 c d) b c 12 in
    let x3 = xor_rotate (add_to x2 a b) d a 8 in xor_rotate (add_to x3 c d) b c 7

-- one turn of the loop of `refillBlock`: four columns, then four diagonals
pub double_round : List ℕ → List ℕ
unfolding quarter_round
double_round x =
    let x0 = quarter_round x 0 4 8 12 in
    let x1 = quarter_round x0 1 5 9 13 in
    let x2 = quarter_round x1 2 6 10 14 in
    let x3 = quarter_round x2 3 7 11 15 in
    let x4 = quarter_round x3 0 5 10 15 in
    let x5 = quarter_round x4 1 6 11 12 in
    let x6 = quarter_round x5 2 7 8 13 in quarter_round x6 3 4 9 14

pub double_rounds : ℕ → List ℕ → List ℕ
double_rounds zero x = x
double_rounds (suc n) x = double_rounds n (double_round x)

-- `x[i] += r.state[i]` for every i
pub feed_forward : List ℕ → List ℕ → List ℕ
unfolding add32
feed_forward [] state = []
feed_forward (x ∷ xs) [] = x ∷ xs
feed_forward (x ∷ xs) (s ∷ state) = add32 x s ∷ feed_forward xs state

-- `binary.LittleEndian.PutUint32`
abbrev pub put_uint32 : ℕ → List ℕ
put_uint32 w = w % 256 ∷ w / 2 ^ 8 % 256 ∷ w / 2 ^ 16 % 256 ∷ w / 2 ^ 24 % 256 ∷ []

pub serialize : List ℕ → List ℕ
serialize [] = []
serialize (w ∷ ws) = put_uint32 w ++ serialize ws

-- the 64 bytes that `refillBlock` writes into `r.buf`
pub block_bytes : List ℕ → List ℕ
unfolding double_round double_rounds feed_forward serialize
block_bytes state = serialize (feed_forward (double_rounds 10 state) state)

pub increment_counter : List ℕ → List ℕ
increment_counter state =
    let low = (get_or state 12 0 + 1) % u32_mod in
    let state' = set state 12 low in
    if low == 0 then set state' 13 ((get_or state' 13 0 + 1) % u32_mod) else state'

pub refill_block : ChaCha20Rng → ChaCha20Rng
refill_block r = record {
  state = increment_counter r.state;
  buf = block_bytes r.state;
  buf_pos = 0;
}

-- `binary.LittleEndian.Uint32(seed[at : at+4])`
abbrev pub uint32_at : List ℕ → ℕ → ℕ
uint32_at b at =
    get_or b at 0
    + get_or b (at + 1) 0 * 2 ^ 8
    + get_or b (at + 2) 0 * 2 ^ 16
    + get_or b (at + 3) 0 * 2 ^ 24

-- the loop over the key words, from `i` on for `n` turns
pub load_key : ℕ → ℕ → List ℕ → List ℕ → List ℕ
load_key zero i seed state = state
load_key (suc n) i seed state = load_key n (i + 1) seed (set state (4 + i) (uint32_at seed (i * 4)))

pub new : List ℕ → ChaCha20Rng
unfolding load_key
new seed = record { state = keyed; buf = replicate 64 0; buf_pos = block_len }
  where
    consts : List ℕ
    consts =
        set (set (set (set (replicate 16 0) 0 0x61707865) 1 0x3320646e) 2 0x79622d32) 3 0x6b206574

    keyed : List ℕ
    keyed = set (set (set (set (load_key 8 0 seed consts) 12 0) 13 0) 14 0) 15 0

-- One turn of `FillBytes` for each unit of fuel; the list is what was copied into `dst`, whose
-- remaining length is `n`.
pub fill_loop : ℕ → ChaCha20Rng → ℕ → List ℕ × ChaCha20Rng
fill_loop zero r n = ([], r)
fill_loop (suc fuel) r n =
    let r' = if r.buf_pos == block_len then refill_block r else r in
    let k = min (block_len - r'.buf_pos) n in
    let rest = fill_loop fuel (record r' { buf_pos = r'.buf_pos + k }) (n - k) in
    if n == 0 then ([], r) else (take k (drop r'.buf_pos r'.buf) ++ rest.0, rest.1)

-- Every turn copies a byte at least, so the length of `dst` is fuel enough.
pub fill_bytes : ChaCha20Rng → ℕ → List ℕ × ChaCha20Rng
unfolding fill_loop
fill_bytes r n = fill_loop n r n

pub counter : ChaCha20Rng → ℕ
counter r = bit_or (get_or r.state 13 0 * 2 ^ 32) (get_or r.state 12 0)

pub set_counter : ChaCha20Rng → ℕ → ChaCha20Rng
set_counter r c = record r {
  state = set (set r.state 12 (c % u32_mod)) 13 (c / 2 ^ 32 % u32_mod);
  buf_pos = block_len;
}

-- the part of `DiscardBytesFast` behind the buffered bytes
pub discard_blocks : ChaCha20Rng → ℕ → ChaCha20Rng
discard_blocks r n =
    let blocks = n / 64 in
    let rem = n % 64 in
    let r' = if ltb 0 blocks then set_counter r ((counter r + blocks) % u64_mod) else r in
    if ltb 0 rem then record (refill_block r') { buf_pos = rem } else r'

pub discard_bytes_fast : ChaCha20Rng → ℕ → ChaCha20Rng
discard_bytes_fast r n =
    let avail = block_len - r.buf_pos in
    if n == 0
    then r
    else if ltb r.buf_pos block_len
    then if ltb n avail
      then record r { buf_pos = r.buf_pos + n }
      else discard_blocks (record r { buf_pos = block_len }) (n - avail)
    else discard_blocks r n
