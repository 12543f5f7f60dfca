-- ===== src/MasterSeed/Derive.antt =====
-- What `DeriveBulkAtOffset` derives: consecutive pieces of the keystream of the seed, in hex.
use mathlib.Core.Path.{fun_ext}
use orbitport.Base.{
  ℕ, zero, suc, ◌+◌, ◌*◌, ◌≤◌, ◌<◌, ◌≡◌, refl, sym, ap, ap₂, ◌∙◌, true, false, List, [], ◌∷◌, ◌++◌,
  arith, length, take, drop, take-append, drop-append, ◌==◌, ltb, if◌then◌else◌,
}
use orbitport.Base.Result.{Result, ok, err, ◌>>=◌}
use orbitport.Hex
use orbitport.ChaCha20.{new, fill_bytes, discard_bytes_fast}
use orbitport.ChaCha20.Stream.{Key, stream, stream-append, length-stream}
use orbitport.ChaCha20.Position.{
  seed_key, new-Represents, fill_bytes-stream, discard_bytes_fast-Represents,
}
use orbitport.MasterSeed.{
  SeedError, parse_trng_block, effective_len, chunks, max_int, derive_bulk_at_offset,
  mul_uint64_checked,
}
use orbitport.MasterSeed.Checked.{mul_uint64_checked_fits}

-- `n` outputs of `len` bytes each, from position `at` of the keystream on.
pub outputs : Key → ℕ → ℕ → ℕ → List (List ℕ)
outputs k at len zero = []
outputs k at len (suc n) = Hex.encode (stream k at len) ∷ outputs k (at + len) len n

pub outputs-append :
    (k : Key) (at len n m : ℕ)
    → outputs k at len (n + m) ≡ outputs k at len n ++ outputs k (at + n * len) len m
unfolding outputs
outputs-append k at len zero m =
    let count : 0 + m ≡ m = omega arith in
    let from : at + 0 * len ≡ at = omega arith in rw (count, from)
outputs-append k at len (suc n) m =
    let count : suc n + m ≡ suc (n + m) = omega arith in
    let from : at + suc n * len ≡ at + len + n * len = omega arith in
    rw (count, from) (ap (◌∷◌ (Hex.encode (stream k at len))) (outputs-append k (at + len) len n m))

pub length-outputs : (k : Key) (at len n : ℕ) → length (outputs k at len n) ≡ n
unfolding outputs
length-outputs k at len zero = refl
length-outputs k at len (suc n) = ap suc (length-outputs k (at + len) len n)

drop-stream : (k : Key) (at n m : ℕ) → drop n (stream k at (n + m)) ≡ stream k (at + n) m
drop-stream k at n m = rw (stream-append k at n m) (
    ap (λ t. drop t (stream k at n ++ stream k (at + n) m)) (sym (length-stream k at n))
    ∙ drop-append (stream k at n) (stream k (at + n) m))

take-stream : (k : Key) (at n m : ℕ) → take n (stream k at (n + m)) ≡ stream k at n
take-stream k at n m = rw (stream-append k at n m) (
    ap (λ t. take t (stream k at n ++ stream k (at + n) m)) (sym (length-stream k at n))
    ∙ take-append (stream k at n) (stream k (at + n) m))

-- A piece out of the middle of a stretch of keystream.
piece-stream :
    (k : Key) (at n len rest : ℕ)
    → take len (drop n (stream k at (n + (len + rest)))) ≡ stream k (at + n) len
piece-stream k at n len rest =
    rw (drop-stream k at n (len + rest)) (take-stream k (at + n) len rest)

chunks-outputs :
    (k : Key) (at len i m : ℕ)
    → chunks (stream k at ((i + m) * len)) len i m ≡ outputs k (at + i * len) len m
unfolding chunks outputs
chunks-outputs k at len i zero = refl
chunks-outputs k at len i (suc m) =
    let total : (i + suc m) * len ≡ i * len + (len + m * len) = omega arith in
    let total' : (i + suc m) * len ≡ (i + 1 + m) * len = omega arith in
    let from : at + (i + 1) * len ≡ at + i * len + len = omega arith in
    ap₂ ◌∷◌ (ap Hex.encode (rw total (piece-stream k at (i * len) len (m * len)))) (
      ap (λ t. chunks (stream k at t) len (i + 1) m) total'
      ∙ chunks-outputs k at len (i + 1) m
      ∙ ap (λ t. outputs k t len m) from)

-- What the generator of a block copies from an offset on, cut into outputs.
block_outputs :
    (block : List ℕ) (at len n : ℕ)
    → chunks (fill_bytes (discard_bytes_fast (new block) at) (n * len)).0 len 0 n
      ≡ outputs (seed_key block) at len n
block_outputs block at len n =
    let k : Key = seed_key block in
    let bytes : (fill_bytes (discard_bytes_fast (new block) at) (n * len)).0
        ≡ stream k (0 + at) (n * len) =
      (fill_bytes-stream (n * len) (0 + at) k _
        (discard_bytes_fast-Represents at 0 k (new block) (new-Represents block))).0 in
    let from : 0 + at ≡ at = omega arith in
    let count : n * len ≡ (0 + n) * len = omega arith in
    let start : at + 0 * len ≡ at = omega arith in
    ap (λ t. chunks t len 0 n) (bytes ∙ ap₂ (stream k) from count)
    ∙ chunks-outputs k at len 0 n
    ∙ ap (λ t. outputs k t len n) start

-- The whole function, where the bytes asked for fit an int: `n` outputs of the seed's keystream,
-- or what is wrong with the seed.
pub derive_bulk_at_offset_lem :
    (seed : List ℕ) (n at out_len : ℕ)
    → n * effective_len out_len ≤ max_int
    → derive_bulk_at_offset seed n at out_len ≡ (
        if n == 0 then ok [] else do
          block ← parse_trng_block seed
          ok (outputs (seed_key block) at (effective_len out_len) n))
unfolding derive_bulk_at_offset
derive_bulk_at_offset_lem seed n at out_len h =
    let len : ℕ = effective_len out_len in
    let fits : mul_uint64_checked n len ≡ (n * len, true) =
      mul_uint64_checked_fits n len (omega arith) in
    let small : ltb max_int (n * len) ≡ false = ground arith in
    rw (fits, small)
      (ap (λ t. if n == 0 then ok [] else (parse_trng_block seed >>= t))
        (fun_ext λ block. ap ok (block_outputs block at len n)))

-- What `derive_bulk_at_offset` returns, for a parsed seed or the error of one.
derived : Result SeedError (List ℕ) → ℕ → ℕ → ℕ → Result SeedError (List (List ℕ))
derived parsed n at len =
    if n == 0 then ok [] else do block ← parsed; ok (outputs (seed_key block) at len n)

derived-ok :
    (block : List ℕ) (n at len : ℕ)
    → derived (ok block) n at len ≡ ok (outputs (seed_key block) at len n)
unfolding derived outputs
derived-ok block zero at len = refl
derived-ok block (suc n) at len = ground arith

derived-split :
    (parsed : Result SeedError (List ℕ)) (n m at len : ℕ)
    → derived parsed (n + m) at len
      ≡ (do xs ← derived parsed n at len; ys ← derived parsed m (at + n * len) len; ok (xs ++ ys))
derived-split (ok block) n m at len = rw (
  derived-ok block (n + m) at len,
  derived-ok block n at len,
  derived-ok block m (at + n * len) len,
  outputs-append (seed_key block) at len n m,
)
derived-split (err e) n m at len = unfold derived in ground arith

-- Deriving `n + m` outputs in one call gives what deriving `n`, and then `m` from the advanced
-- offset, give together; with a seed that does not parse, both ways fail alike.
pub derive_bulk_at_offset-split :
    (seed : List ℕ) (n m at out_len : ℕ)
    → (n + m) * effective_len out_len ≤ max_int
    → derive_bulk_at_offset seed (n + m) at out_len ≡ (do
      xs ← derive_bulk_at_offset seed n at out_len
      ys ← derive_bulk_at_offset seed m (at + n * effective_len out_len) out_len
      ok (xs ++ ys))
derive_bulk_at_offset-split seed n m at out_len h =
    let len : ℕ = effective_len out_len in
    rw
      (
        derive_bulk_at_offset_lem seed (n + m) at out_len h,
        derive_bulk_at_offset_lem seed n at out_len (grind arith),
        derive_bulk_at_offset_lem seed m (at + n * len) out_len (grind arith),
      )
      (unfold derived in derived-split (parse_trng_block seed) n m at len)

effective_len_id : (len : ℕ) → 0 < len → len ≤ 1024 → effective_len len ≡ len
unfolding effective_len
effective_len_id len h le = ground arith

-- A seed that parses gives its outputs, at any length that needs no repair.
pub derive_bulk_at_offset-ok :
    (seed block : List ℕ) (n at len : ℕ)
    → parse_trng_block seed ≡ ok block
    → 0 < len
    → len ≤ 1024
    → n * len ≤ max_int
    → derive_bulk_at_offset seed n at len ≡ ok (outputs (seed_key block) at len n)
derive_bulk_at_offset-ok seed block n at len e pos le h =
    let same : effective_len len ≡ len = effective_len_id len pos le in
    let bound : n * effective_len len ≤ max_int = rw same h in
    rw (derive_bulk_at_offset_lem seed n at len bound, e, same)
      (unfold derived in derived-ok block n at len)
