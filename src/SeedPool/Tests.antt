-- ===== src/SeedPool/Tests.antt =====
-- The seed pool on concrete inputs.
use orbitport.Base.{
  ℕ, ◌+◌, ◌-◌, ◌*◌, ◌/◌, ◌^◌, ◌≤◌, ◌<◌, ◌≡◌, refl, List, [], ◌∷◌, ◌++◌, none, some, arith, length,
  replicate,
}
use orbitport.Base.Int.{pos, negsuc}
use orbitport.Base.Result.{ok, ◌>>=◌}
use orbitport.Hex
use orbitport.MasterSeed.{parse_trng_block, derive_bulk_at_offset, effective_len}
use orbitport.MasterSeed.Derive.{derive_bulk_at_offset-split}
use orbitport.SeedPool.{
  Plugin, Config, Reply, new_plugin, add_master_seed, crypto_rand_index, draw_loop, limit, max_u32,
  picked, get_seeds,
}
use orbitport.SeedPool.Sampling.{
  crypto_rand_index-lt, words_to, words_to-uniform, limit_more_than_half,
}
use orbitport.SeedPool.Adding.{Added, add_master_seed-Added}
use orbitport.SeedPool.Invariant.{IsValid, Answers, new_plugin-IsValid, get_seeds-Answers}
use orbitport.SeedPool.Disjoint.{Event, fetches, requests, run, PairwiseApart}
use orbitport.SeedPool.Disjoint.Steps.{start, run-PairwiseApart}
use orbitport.SeedPool.Serving.{get_seeds-serves}

abbrev hex_seed : List ℕ
hex_seed = replicate 64 b'a'

abbrev other_seed : List ℕ
other_seed = replicate 64 b'7'

abbrev config : Config
config = record {
  trng_size = pos 32;
  max_master_seeds = negsuc 0;
  seed_period = pos 60;
  max_count_per_request = pos 10;
}

hex_seed-parses : parse_trng_block hex_seed ≡ ok (replicate 32 0xaa)
unfolding parse_trng_block Hex.decode_string Hex.value?
hex_seed-parses = refl

-- One seed, of which 64 bytes are used.
abbrev used : Plugin
used = record {
  master_seeds = record { seed = hex_seed; offset = 64 } ∷ [];
  seed_interval = 60;
  trng_size = 32;
  max_master_seeds = 100;
  max_count_per_request = 10;
}

used-IsValid : IsValid used
used-IsValid = record {
  capacity = omega arith;
  some_room = omega arith;
  output_len = omega arith;
  seeds =
      (record { block = replicate 32 0xaa; parses = hex_seed-parses; cursor = omega arith }, tt);
}

crypto_rand_index-lt_example : 1 < 3
crypto_rand_index-lt_example =
    crypto_rand_index-lt 3 1 (some 0xffff_ffff ∷ some 7 ∷ none ∷ []) (none ∷ []) (omega arith) drawn
  where
    drawn : crypto_rand_index 3 (some 0xffff_ffff ∷ some 7 ∷ none ∷ []) ≡ picked 1 (none ∷ [])
    drawn = unfold crypto_rand_index draw_loop limit in refl

words_to-uniform_example : words_to 3 1 (2 ^ 32) ≡ max_u32 / 3
words_to-uniform_example = words_to-uniform 3 1 (omega arith) (omega arith)

limit_more_than_half_example : max_u32 < 2 * limit 100
limit_more_than_half_example = limit_more_than_half 100 (omega arith) (omega arith)

add_master_seed-Added_example :
    Added used other_seed (add_master_seed used other_seed)
    × IsValid (add_master_seed used other_seed)
add_master_seed-Added_example = add_master_seed-Added used other_seed used-IsValid

new_plugin-IsValid_example : IsValid (new_plugin config)
new_plugin-IsValid_example = new_plugin-IsValid config

derive_bulk_at_offset-split_example : derive_bulk_at_offset hex_seed 5 64 32 ≡ (do
  xs ← derive_bulk_at_offset hex_seed 2 64 32
  ys ← derive_bulk_at_offset hex_seed 3 (64 + 2 * effective_len 32) 32
  ok (xs ++ ys))
derive_bulk_at_offset-split_example = derive_bulk_at_offset-split hex_seed 2 3 64 32 fits
  where
    fits : 5 * effective_len 32 ≤ 2 ^ 63 - 1
    fits = unfold effective_len in omega arith

get_seeds-serves_example :
    (reply : Reply) × (vals : List (List ℕ)) × (get_seeds used 2 (some 0xffff_ffff ∷ some 7 ∷ [])
      ≡ some reply)
    × (reply.values ≡ ok vals)
    × (length vals ≡ 2)
get_seeds-serves_example =
    get_seeds-serves used 2 7 (some 0xffff_ffff ∷ []) [] used-IsValid (omega arith) (omega arith)
      (omega arith) (omega arith) (unfold limit in omega arith) (unfold limit in omega arith)
      (omega arith)

get_seeds-Answers_example :
    Answers used 2 get_seeds-serves_example.0 × IsValid get_seeds-serves_example.0.pool
get_seeds-Answers_example =
    get_seeds-Answers used 2 (some 0xffff_ffff ∷ some 7 ∷ []) get_seeds-serves_example.0
      used-IsValid (omega arith) (omega arith) get_seeds-serves_example.2

-- two seeds, and requests of three, four and two values
abbrev history : List Event
history =
    fetches hex_seed
    ∷ requests 3 (some 5 ∷ [])
    ∷ fetches other_seed
    ∷ requests 4 (some 8 ∷ [])
    ∷ requests 2 (some 6 ∷ [])
    ∷ []

run-PairwiseApart_example : PairwiseApart (run (start config) history).log
run-PairwiseApart_example =
    run-PairwiseApart config history (unfold new_plugin in omega arith)
      (tt, (((λ same. cc), tt), tt)) (omega arith)
