-- ===== src/ChaCha20/Refill.antt =====
-- The counter: what one refill does to a generator that stands at a position, and what the
-- 64-bit counter reads and writes.
use orbitport.Base.{ℕ, suc, ◌+◌, ◌/◌, ◌%◌, ◌^◌, ◌≡◌, refl, arith, bit_or_shift}
use orbitport.ChaCha20.{ChaCha20Rng, increment_counter, counter, set_counter, u64_mod}
use orbitport.ChaCha20.Stream.{Key, state_at}

-- `incrementCounter` carries from the low word into the high one, and wraps at 2 ^ 64.
pub increment_counter-state_at :
    (k : Key) (c : ℕ) → increment_counter (state_at k c) ≡ state_at k (suc c)
unfolding increment_counter
increment_counter-state_at k c = ground arith

-- `Counter` reads the block number back, modulo 2 ^ 64.
pub counter-state_at :
    (k : Key) (c : ℕ) (r : ChaCha20Rng) → r.state ≡ state_at k c → counter r ≡ c % u64_mod
unfolding counter
counter-state_at k c r e =
    rw e (omega (arith, bit_or_shift 32 (c / 2 ^ 32 % 2 ^ 32) (c % 2 ^ 32) (omega arith)))

pub set_counter-state_at :
    (k : Key) (c d : ℕ) (r : ChaCha20Rng)
    → r.state ≡ state_at k c
    → (set_counter r (d % u64_mod)).state ≡ state_at k d
unfolding set_counter
set_counter-state_at k c d r e = rw e (ground arith)

-- `r.SetCounter(r.Counter() + blocks)` moves the counter on, modulo 2 ^ 64.
pub skip-state_at :
    (k : Key) (q blocks : ℕ) (r : ChaCha20Rng)
    → r.state ≡ state_at k q
    → (set_counter r ((counter r + blocks) % u64_mod)).state ≡ state_at k (q + blocks)
skip-state_at k q blocks r e =
    let wraps : (counter r + blocks) % u64_mod ≡ (q + blocks) % u64_mod =
      omega (arith, counter-state_at k q r e) in
    rw wraps (set_counter-state_at k q (q + blocks) r e)

pub set_counter-buf_pos : (r : ChaCha20Rng) (c : ℕ) → (set_counter r c).buf_pos ≡ 64
unfolding set_counter
set_counter-buf_pos r c = refl
