-- ===== src/SeedPool.antt =====
-- plugins/pkg/plugin/masterseed/plugin.go: the rolling pool of master seeds. The mutex makes each
-- of `addMasterSeed` and `reserveSeedOffset` one step, so a state is a value that a step replaces.
-- The clock, the source of random words and the satellite's replies are arguments.
pub mod Sampling
pub mod Reserve
pub mod Invariant
pub mod Adding
pub mod Disjoint
pub mod Serving
mod Tests
use orbitport.Base.{
  ℕ, zero, suc, ◌+◌, ◌-◌, ◌*◌, ◌/◌, ◌%◌, ◌^◌, Bool, true, false, not, List, [], ◌∷◌, ◌++◌, Option,
  none, some, ltb, ◌==◌, ◌||◌, if◌then◌else◌, length, get_or, set, drop, take,
}
use orbitport.Base.Result.{Result, ok, err, ◌>>=◌, ◌>>◌, fail_if}
use orbitport.Base.Int.{ℤ, pos, negsuc}
use orbitport.Hex
use orbitport.MasterSeed.{
  MasterSeed, SeedError, invalid_hex, bad_length, invalid_count, count_too_large, byte_overflow,
  no_master_seed, rand_failed, offset_overflow, mul_uint64_checked, add_uint64_checked,
  parse_trng_block, derive_bulk_at_offset,
}

pub record Plugin : Type 0 where
  pub master_seeds : List MasterSeed
  pub seed_interval : ℕ
  pub trng_size : ℕ
  pub max_master_seeds : ℕ
  pub max_count_per_request : ℕ

-- the configured numbers, as the environment gives them
pub record Config : Type 0 where
  pub trng_size : ℤ
  pub max_master_seeds : ℤ
  pub seed_period : ℤ
  pub max_count_per_request : ℤ

-- `if x <= 0 { x = d }`
abbrev pub positive_or : ℤ → ℕ → ℕ
positive_or (pos zero) d = d
positive_or (pos (suc n)) d = suc n
positive_or (negsuc n) d = d

pub new_plugin : Config → Plugin
new_plugin cfg =
    let trng = positive_or cfg.trng_size 32 in
    record {
      master_seeds = [];
      seed_interval = positive_or cfg.seed_period 3600;
      trng_size = if ltb 1024 trng then 32 else trng;
      max_master_seeds = positive_or cfg.max_master_seeds 100;
      max_count_per_request = positive_or cfg.max_count_per_request 25000;
    }

-- `uint64(bootNonceNanos)` in big-endian order
abbrev pub put_uint64 : ℕ → List ℕ
put_uint64 w =
    w / 2 ^ 56 % 256
    ∷ w / 2 ^ 48 % 256
    ∷ w / 2 ^ 40 % 256
    ∷ w / 2 ^ 32 % 256
    ∷ w / 2 ^ 24 % 256
    ∷ w / 2 ^ 16 % 256
    ∷ w / 2 ^ 8 % 256
    ∷ w % 256
    ∷ []

-- `sum_256` is SHA-256.
pub salt_default_seed : (List ℕ → List ℕ) → List ℕ → ℕ → Result SeedError (List ℕ)
salt_default_seed sum_256 seed_hex boot_nonce = elim (Hex.decode_string seed_hex) [
  | none ↦ err invalid_hex
  | some raw ↦
      if length raw == 32
      then ok (Hex.encode (take 32 (sum_256 (raw ++ put_uint64 boot_nonce))))
      else err bad_length
]

-- After the append, a pool over its limit loses its oldest seed.
pub evict : ℕ → List MasterSeed → List MasterSeed
evict limit seeds = if ltb limit (length seeds) then drop 1 seeds else seeds

pub add_master_seed : Plugin → List ℕ → Plugin
add_master_seed p [] = p
add_master_seed p (c ∷ s) = elim (parse_trng_block (c ∷ s)) [
  | err e ↦ p
  | ok block ↦ record p {
    master_seeds =
        evict p.max_master_seeds (p.master_seeds ++ record { seed = c ∷ s; offset = 0 } ∷ []);
  }
]

-- the loop over the default seeds at start
pub insert_default_seeds : (List ℕ → List ℕ) → ℕ → Plugin → List (List ℕ) → Plugin
insert_default_seeds sum_256 boot_nonce p [] = p
insert_default_seeds sum_256 boot_nonce p (s ∷ seeds) =
    insert_default_seeds sum_256 boot_nonce
      (elim (salt_default_seed sum_256 s boot_nonce) [
        | err e ↦ p
        | ok salted ↦ add_master_seed p salted
      ])
      seeds

-- One tick of the fetch loop, with the values that the satellite plugin returned (`none`: an error).
pub fetch_tick : Plugin → Option (List (List ℕ)) → Plugin
fetch_tick p (some (seed ∷ rest)) = add_master_seed p seed
fetch_tick p _ = p

-- How `cryptoRandIndex` ends: with an index, an error, a division by zero, or not yet, when all
-- the words that were drawn are used up. The list is what is left of the source.
pub data Outcome : Type 0 where
  picked : ℕ → List (Option ℕ) → Outcome
  failed : SeedError → List (Option ℕ) → Outcome
  panics : Outcome
  drawing : Outcome

abbrev pub max_u32 : ℕ
max_u32 = 2 ^ 32 - 1

pub limit : ℕ → ℕ
limit un = max_u32 - max_u32 % un

-- A draw is a uint32, or `none` where `rand.Read` fails.
pub draw_loop : ℕ → List (Option ℕ) → Outcome
draw_loop un [] = drawing
draw_loop un (none ∷ draws) = failed rand_failed draws
draw_loop un (some v ∷ draws) =
    let again = draw_loop un draws in if ltb v (limit un) then picked (v % un) draws else again

pub crypto_rand_index : ℕ → List (Option ℕ) → Outcome
unfolding draw_loop
crypto_rand_index n draws =
    let un = n % 2 ^ 32 in
    if n == 0 then failed invalid_count draws else if un == 0 then panics else draw_loop un draws

-- what a reservation returns, and what it leaves behind
pub record Reserved : Type 0 where
  pub seed_hex : List ℕ
  pub start : ℕ
  pub pool : Plugin

-- the part of `reserveSeedOffset` behind the draw of an index
pub advance : Plugin → ℕ → ℕ → Result SeedError Reserved
advance p idx need =
    let m = get_or p.master_seeds idx (record { seed = []; offset = 0 }) in
    let end = add_uint64_checked m.offset need in
    if end.1
    then ok (record {
      seed_hex = m.seed;
      start = m.offset;
      pool = record p { master_seeds = set p.master_seeds idx (record m { offset = end.0 }) };
    })
    else err offset_overflow

-- `none` where the draw has not ended, or has panicked.
pub reserve_seed_offset : Plugin → ℕ → List (Option ℕ) → Option (Result SeedError Reserved)
reserve_seed_offset p count draws =
    let need = mul_uint64_checked count p.trng_size in
    if count == 0
    then some (err invalid_count)
    else if ltb p.max_count_per_request count
    then some (err count_too_large)
    else if not need.1
    then some (err byte_overflow)
    else if length p.master_seeds == 0
    then some (err no_master_seed)
    else elim (crypto_rand_index (length p.master_seeds) draws) [
      | picked idx rest ↦ some (advance p idx need.0)
      | failed e rest ↦ some (err e)
      | panics ↦ none
      | drawing ↦ none
    ]

-- what a call answers, and the pool behind it
pub record Reply : Type 0 where
  pub values : Result SeedError (List (List ℕ))
  pub pool : Plugin

-- `GetSeeds` with the request's count, a uint32.
pub get_seeds : Plugin → ℕ → List (Option ℕ) → Option Reply
get_seeds p requested draws =
    let count = if requested == 0 then 1 else requested in
    elim (reserve_seed_offset p count draws) [
      | none ↦ none
      | some (err e) ↦ some (record { values = err e; pool = p })
      | some (ok r) ↦ some (record {
        values = derive_bulk_at_offset r.seed_hex count r.start p.trng_size;
        pool = r.pool;
      })
    ]
