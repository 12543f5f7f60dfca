-- ===== src/ChaCha20/Tests.antt =====
-- The generator on concrete inputs: the published block of the zero key, and the theorems at a
-- generator in the middle of a block.
use orbitport.Base.{ℕ, ◌+◌, ◌%◌, ◌≡◌, refl, List, [], ◌∷◌, ◌++◌, take, replicate}
use orbitport.ChaCha20.{
  new, fill_bytes, discard_bytes_fast, refill_block, counter, set_counter, block_bytes,
  discard_blocks, increment_counter, u64_mod,
}
use orbitport.ChaCha20.Stream.{Key, state_at, stream, Represents}
use orbitport.ChaCha20.Refill.{skip-state_at}
use orbitport.ChaCha20.Position.{
  seed_key, new-Represents, fill_bytes-stream, discard_bytes_fast-Represents,
  fill_bytes-discard_bytes_fast,
}

abbrev zero_seed : List ℕ
zero_seed = replicate 32 0

abbrev zero_key : Key
zero_key = seed_key zero_seed

first_bytes :
    take 16 (fill_bytes (new zero_seed) 16).0
    ≡ 0x76 ∷ 0xb8 ∷ 0xe0 ∷ 0xad ∷ 0xa0 ∷ 0xf1 ∷ 0x3d ∷ 0x90 ∷ 0x40 ∷ 0x5d ∷ 0x6a ∷ 0xe5 ∷ 0x53
      ∷ 0x86 ∷ 0xbd ∷ 0x28 ∷ []
unfolding fill_bytes new refill_block block_bytes increment_counter
first_bytes = refl

-- the second block, behind a discard of the first
second_block :
    (fill_bytes (discard_bytes_fast (new zero_seed) 64) 4).0 ≡ 0x9f ∷ 0x07 ∷ 0xe7 ∷ 0xbe ∷ []
unfolding fill_bytes new refill_block block_bytes increment_counter discard_bytes_fast
    discard_blocks counter set_counter
second_block = refl

fill_bytes-discard_bytes_fast_example :
    (fill_bytes (new zero_seed) 75).0
    ≡ (fill_bytes (new zero_seed) 70).0 ++ (fill_bytes (discard_bytes_fast (new zero_seed) 70) 5).0
fill_bytes-discard_bytes_fast_example = fill_bytes-discard_bytes_fast zero_seed 70 5

fill_bytes-stream_example :
    ((fill_bytes (new zero_seed) 70).0 ≡ stream zero_key 0 70)
    × Represents zero_key 70 (fill_bytes (new zero_seed) 70).1
fill_bytes-stream_example =
    fill_bytes-stream 70 0 zero_key (new zero_seed) (new-Represents zero_seed)

discard_bytes_fast-Represents_example :
    Represents zero_key 130 (discard_bytes_fast (fill_bytes (new zero_seed) 70).1 60)
discard_bytes_fast-Represents_example =
    discard_bytes_fast-Represents 60 70 zero_key (fill_bytes (new zero_seed) 70).1
      fill_bytes-stream_example.1

-- the counter wraps at 2 ^ 64
skip-state_at_example :
    (set_counter (new zero_seed) ((counter (new zero_seed) + 7) % u64_mod)).state
    ≡ state_at zero_key 7
unfolding new seed_key
skip-state_at_example = skip-state_at zero_key 0 7 (new zero_seed) refl
