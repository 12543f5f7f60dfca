-- ===== src/ChaCha20/Position.antt =====
-- `FillBytes` and `DiscardBytesFast` against the keystream.
use orbitport.Base.{
  ℕ, zero, suc, ◌+◌, ◌-◌, ◌*◌, ◌/◌, ◌%◌, ◌≤◌, ◌<◌, ◌≡◌, refl, sym, ap, ap₂, ◌∙◌, List, ◌++◌, inl,
  inr, arith, min, subst, false, take, drop, ◌==◌, ltb, if◌then◌else◌, Bool-cases,
}
use orbitport.ChaCha20.{
  ChaCha20Rng, block_len, refill_block, fill_loop, fill_bytes, counter, set_counter, discard_blocks,
  discard_bytes_fast, u64_mod, new, uint32_at,
}
use orbitport.ChaCha20.Stream.{
  Key, state_at, block, stream, Represents, within, aligned, take-drop, slice-stream, length-block,
  stream-append,
}
use orbitport.ChaCha20.Refill.{increment_counter-state_at, skip-state_at, set_counter-buf_pos}

-- A refill in front of block `q` gives block `q`, and the state behind it.
pub refill_block-state_at :
    (k : Key) (q : ℕ) (r : ChaCha20Rng)
    → r.state ≡ state_at k q
    → ((refill_block r).state ≡ state_at k (suc q))
      × ((refill_block r).buf ≡ block k q)
      × ((refill_block r).buf_pos ≡ 0)
unfolding refill_block block
refill_block-state_at k q r e = (rw e (increment_counter-state_at k q), rw e, refl)

-- A generator with bytes left in its buffer.
record Ready (k : Key) (q : ℕ) (r : ChaCha20Rng) : Type 0 where
  next_state : r.state ≡ state_at k (suc q)
  current : r.buf ≡ block k q
  bytes_left : r.buf_pos < 64

refilled : ChaCha20Rng → ChaCha20Rng
refilled r = if r.buf_pos == block_len then refill_block r else r

-- The first statement of a turn of `FillBytes` makes bytes available at the same position.
refilled-Ready :
    (k : Key) (p : ℕ) (r : ChaCha20Rng)
    → Represents k p r
    → (q : ℕ) × Ready k q (refilled r) × (p ≡ 64 * q + (refilled r).buf_pos)
unfolding refilled
refilled-Ready k p r (aligned q s b e) = (
  q,
  ground (arith, refill_block-state_at k q r s),
  ground (arith, refill_block-state_at k q r s),
)
refilled-Ready k p r (within q s bl b e) = elim (Bool-cases (r.buf_pos == block_len)) [
  | inl full ↦ (
    suc q,
    ground (arith, refill_block-state_at k (suc q) r s),
    ground (arith, refill_block-state_at k (suc q) r s),
  )
  | inr left ↦ (q, ground arith, ground arith)
]

-- What one turn copies from the buffer is the next part of the keystream.
copied-stream :
    (k : Key) (q m : ℕ) (r : ChaCha20Rng)
    → Ready k q r
    → r.buf_pos + m ≤ 64
    → take m (drop r.buf_pos r.buf) ≡ stream k (64 * q + r.buf_pos) m
copied-stream k q m r ready h =
    take-drop r.buf r.buf_pos m (rw (ready.current) (omega (arith, length-block k q)))
    ∙ (rw (ready.current) (slice-stream k q r.buf_pos m h))

-- What is copied, followed by what the later turns copy, is the keystream from `p` on.
turn-stream :
    (k : Key) (p q n : ℕ) (r' : ChaCha20Rng) (rest : List ℕ)
    → Ready k q r'
    → p ≡ 64 * q + r'.buf_pos
    → let m = min (64 - r'.buf_pos) n in
      rest ≡ stream k (p + m) (n - m) → take m (drop r'.buf_pos r'.buf) ++ rest ≡ stream k p n
turn-stream k p q n r' rest ready e ih =
    let m : ℕ = min (64 - r'.buf_pos) n in
    let all : m + (n - m) ≡ n = omega arith in
    let inside : r'.buf_pos + m ≤ 64 = omega (arith, ready.bytes_left) in
    ap₂ ◌++◌ (copied-stream k q m r' ready inside ∙ ap (λ t. stream k t m) (sym e)) ih
    ∙ sym (stream-append k p m (n - m))
    ∙ ap (stream k p) all

advanced-Represents :
    (k : Key) (p q m : ℕ) (r' : ChaCha20Rng)
    → Ready k q r'
    → p ≡ 64 * q + r'.buf_pos
    → r'.buf_pos + m ≤ 64
    → Represents k (p + m) (record r' { buf_pos = r'.buf_pos + m })
advanced-Represents k p q m r' ready e h = within q ready.next_state ready.current h (omega arith)

fill_loop_lem :
    (fuel n p : ℕ) (k : Key) (r : ChaCha20Rng)
    → n ≤ fuel
    → Represents k p r
    → ((fill_loop fuel r n).0 ≡ stream k p n) × Represents k (p + n) (fill_loop fuel r n).1
unfolding fill_loop refilled stream
fill_loop_lem zero zero p k r h rep = (refl, subst (λ t. Represents k t r) (omega arith) rep)
fill_loop_lem zero (suc n) p k r h rep = absurd (omega arith)
fill_loop_lem (suc fuel) n p k r h rep = elim (Bool-cases (n == 0)) [
  | inl e ↦
      let none_left : n ≡ 0 = ground arith in
      rw (none_left) (refl, subst (λ t. Represents k t r) (omega arith) rep)
  | inr e ↦
      let (q, ready, at) = refilled-Ready k p r rep in
      let r' : ChaCha20Rng = refilled r in
      let m : ℕ = min (64 - r'.buf_pos) n in
      let next : ChaCha20Rng = record r' { buf_pos = r'.buf_pos + m } in
      let later : ((fill_loop fuel next (n - m)).0 ≡ stream k (p + m) (n - m))
          × Represents k (p + m + (n - m)) (fill_loop fuel next (n - m)).1 =
        fill_loop_lem fuel (n - m) (p + m) k next (ground (arith, ready.bytes_left))
          (advanced-Represents k p q m r' ready at (omega (arith, ready.bytes_left))) in
      let total : p + m + (n - m) ≡ p + n = omega arith in
      rw e (
        turn-stream k p q n r' (fill_loop fuel next (n - m)).0 ready at later.0,
        subst (λ t. Represents k t (fill_loop fuel next (n - m)).1) total later.1,
      )
]

-- From a generator at position `p`, `FillBytes` copies the `n` keystream bytes from `p` on, and
-- leaves the generator at `p + n`; the length of `dst` is fuel enough.
pub fill_bytes-stream :
    (n p : ℕ) (k : Key) (r : ChaCha20Rng)
    → Represents k p r
    → ((fill_bytes r n).0 ≡ stream k p n) × Represents k (p + n) (fill_bytes r n).1
unfolding fill_bytes
fill_bytes-stream n p k r rep = fill_loop_lem n n p k r (omega arith) rep

-- The counter part of a discard stands at the block boundary.
skipped : ChaCha20Rng → ℕ → ChaCha20Rng
skipped r n = if ltb 0 (n / 64) then set_counter r ((counter r + n / 64) % u64_mod) else r

skipped-state_at :
    (k : Key) (q n : ℕ) (r : ChaCha20Rng)
    → r.state ≡ state_at k q
    → r.buf_pos ≡ 64
    → ((skipped r n).state ≡ state_at k (q + n / 64)) × ((skipped r n).buf_pos ≡ 64)
unfolding skipped
skipped-state_at k q n r s full = elim (Bool-cases (ltb 0 (n / 64))) [
  | inl e ↦ rw e (skip-state_at k q (n / 64) r s, set_counter-buf_pos r _)
  | inr e ↦ let same : q + n / 64 ≡ q = ground arith in rw (e, same) (s, full)
]

discard_blocks-Represents :
    (k : Key) (q n : ℕ) (r : ChaCha20Rng)
    → r.state ≡ state_at k q
    → r.buf_pos ≡ 64
    → Represents k (64 * q + n) (discard_blocks r n)
unfolding discard_blocks skipped
discard_blocks-Represents k q n r s full =
    let (s', full') = skipped-state_at k q n r s full in
    let (next, current, _) = refill_block-state_at k (q + n / 64) (skipped r n) s' in
    elim (Bool-cases (ltb 0 (n % 64))) [
      | inl e ↦ rw e (within (q + n / 64) next current (omega arith) (omega arith))
      | inr e ↦ rw e (aligned (q + n / 64) s' full' (ground arith))
    ]

-- With `left` bytes in the buffer: a short discard stays in it, a longer one empties it first.
discard_buffered :
    (k : Key) (q n : ℕ) (r : ChaCha20Rng)
    → r.state ≡ state_at k (suc q)
    → r.buf ≡ block k q
    → r.buf_pos < 64
    → Represents k (64 * q + r.buf_pos + n) (
        if ltb n (64 - r.buf_pos)
        then record r { buf_pos = r.buf_pos + n }
        else discard_blocks (record r { buf_pos = 64 }) (n - (64 - r.buf_pos)))
discard_buffered k q n r s bl left = elim (Bool-cases (ltb n (64 - r.buf_pos))) [
  | inl e ↦ rw e (within q s bl (ground arith) (omega arith))
  | inr e ↦
      let end : ChaCha20Rng = discard_blocks (record r { buf_pos = 64 }) (n - (64 - r.buf_pos)) in
      let total : 64 * suc q + (n - (64 - r.buf_pos)) ≡ 64 * q + r.buf_pos + n = ground arith in
      rw e (
        subst (λ t. Represents k t end) total
          (discard_blocks-Represents k (suc q) (n - (64 - r.buf_pos)) (record r { buf_pos = 64 }) s
            refl))
]

-- `DiscardBytesFast` moves a generator on by `n` bytes: from position `p` to `p + n`, whether
-- the bytes are still buffered or not.
pub discard_bytes_fast-Represents :
    (n p : ℕ) (k : Key) (r : ChaCha20Rng)
    → Represents k p r
    → Represents k (p + n) (discard_bytes_fast r n)
unfolding discard_bytes_fast
discard_bytes_fast-Represents n p k r (aligned q s b e) = elim (Bool-cases (n == 0)) [
  | inl z ↦ rw z (aligned q s b (ground arith))
  | inr z ↦
      let full : ltb r.buf_pos block_len ≡ false = ground arith in
      rw (z, full)
        (subst (λ t. Represents k t (discard_blocks r n)) (omega arith)
          (discard_blocks-Represents k q n r s b))
]
discard_bytes_fast-Represents n p k r (within q s bl b e) = elim (Bool-cases (n == 0)) [
  | inl z ↦ rw z (within q s bl b (ground arith))
  | inr z ↦ elim (Bool-cases (ltb r.buf_pos block_len)) [
    | inl left ↦ rw (z, left, e) (discard_buffered k q n r s bl (ground arith))
    | inr full ↦
        let total : 64 * suc q + n ≡ p + n = ground arith in
        rw (z, full)
          (subst (λ t. Represents k t (discard_blocks r n)) total
            (discard_blocks-Represents k (suc q) n r s (ground arith)))
  ]
]

-- The key words that `New` reads from the seed.
unfoldable pub seed_key : List ℕ → Key
seed_key seed = record {
  k0 = uint32_at seed 0;
  k1 = uint32_at seed 4;
  k2 = uint32_at seed 8;
  k3 = uint32_at seed 12;
  k4 = uint32_at seed 16;
  k5 = uint32_at seed 20;
  k6 = uint32_at seed 24;
  k7 = uint32_at seed 28;
}

-- `New` stands at the start of the keystream of its seed.
pub new-Represents : (seed : List ℕ) → Represents (seed_key seed) 0 (new seed)
unfolding new seed_key
new-Represents seed = aligned 0 refl refl refl

-- A new generator that skips `off` bytes and then copies `n` copies what a new generator copies
-- behind its first `off` bytes.
pub fill_bytes-discard_bytes_fast :
    (seed : List ℕ) (off n : ℕ)
    → (fill_bytes (new seed) (off + n)).0
      ≡ (fill_bytes (new seed) off).0 ++ (fill_bytes (discard_bytes_fast (new seed) off) n).0
fill_bytes-discard_bytes_fast seed off n =
    let start : Represents (seed_key seed) 0 (new seed) = new-Represents seed in
    (fill_bytes-stream (off + n) 0 (seed_key seed) (new seed) start).0
    ∙ stream-append (seed_key seed) 0 off n
    ∙ sym (
        ap₂ ◌++◌ (fill_bytes-stream off 0 (seed_key seed) (new seed) start).0
          (fill_bytes-stream n (0 + off) (seed_key seed) _
            (discard_bytes_fast-Represents off 0 (seed_key seed) (new seed) start)).0)
