-- ===== src/MasterSeed.antt =====
-- plugins/pkg/plugin/masterseed/master_seed.go, and the checked arithmetic at the end of plugin.go.
-- A hex text is the list of its bytes, and a uint64 a number below 2 ^ 64.
pub mod Checked
pub mod Derive
use orbitport.Base.{
  ℕ, zero, suc, ◌+◌, ◌-◌, ◌*◌, ◌/◌, ◌%◌, ◌^◌, Bool, true, false, List, [], ◌∷◌, ◌++◌, Option, none,
  some, ltb, not, ◌==◌, ◌||◌, if◌then◌else◌, length, take, drop,
}
use orbitport.Base.Result.{Result, ok, err, ◌>>=◌, ◌>>◌, fail_if}
use orbitport.Hex
use orbitport.ChaCha20.{new, fill_bytes, discard_bytes_fast}

pub data SeedError : Type 0 where
  invalid_hex bad_length invalid_count count_too_large byte_overflow request_too_large : SeedError
  no_master_seed rand_failed offset_overflow no_value : SeedError

pub record MasterSeed : Type 0 where
  pub seed : List ℕ
  pub offset : ℕ

abbrev pub max_u64 : ℕ
max_u64 = 2 ^ 64 - 1

pub mul_uint64_checked : ℕ → ℕ → ℕ × Bool
mul_uint64_checked a b =
    if a == 0 || b == 0
    then (0, true)
    else if ltb (max_u64 / b) a
    then (0, false)
    else (a * b % 2 ^ 64, true)

pub add_uint64_checked : ℕ → ℕ → ℕ × Bool
add_uint64_checked a b = if ltb (max_u64 - b) a then (0, false) else ((a + b) % 2 ^ 64, true)

-- The 32 bytes of a block, or why the text is none.
unfoldable pub parse_trng_block : List ℕ → Result SeedError (List ℕ)
parse_trng_block seed = elim (Hex.decode_string seed) [
  | none ↦ err invalid_hex
  | some raw ↦ if length raw == 32 then ok raw else err bad_length
]

-- `outLen` out of 1 to 1024 falls back to 32.
unfoldable pub effective_len : ℕ → ℕ
effective_len out_len = if out_len == 0 || ltb 1024 out_len then 32 else out_len

-- the loop over the outputs, from the `i`-th on for `n` turns
pub chunks : List ℕ → ℕ → ℕ → ℕ → List (List ℕ)
chunks buf out_len i zero = []
chunks buf out_len i (suc n) =
    Hex.encode (take out_len (drop (i * out_len) buf)) ∷ chunks buf out_len (i + 1) n

abbrev pub max_int : ℕ
max_int = 2 ^ 63 - 1

pub derive_bulk_at_offset : List ℕ → ℕ → ℕ → ℕ → Result SeedError (List (List ℕ))
derive_bulk_at_offset seed n offset_bytes out_len =
    let len = effective_len out_len in
    let need = mul_uint64_checked n len in
    if n == 0 then ok [] else do
      fail_if (not need.1) byte_overflow
      fail_if (ltb max_int need.0) request_too_large
      seed_block ← parse_trng_block seed
      let rng = discard_bytes_fast (new seed_block) offset_bytes
      ok (chunks (fill_bytes rng need.0).0 len 0 n)

pub derive_bulk : List ℕ → ℕ → ℕ → Result SeedError (List (List ℕ))
derive_bulk seed n out_len = derive_bulk_at_offset seed n 0 out_len

pub derive_one_from_seed_hex : List ℕ → Result SeedError (List ℕ)
derive_one_from_seed_hex seed = do
  vals ← derive_bulk seed 1 32
  elim vals [ [] ↦ err no_value | v ∷ _ ↦ ok v ]

pub derive_bulk_from_seed_hex : List ℕ → ℕ → Result SeedError (List (List ℕ))
derive_bulk_from_seed_hex seed n = derive_bulk seed n 32
