-- ===== src/SeedPool/Reserve.antt =====
-- What a reservation does, with the random draw taken apart.
use orbitport.Base.{
  ℕ, ◌+◌, ◌*◌, ◌^◌, ◌≤◌, ◌<◌, ◌≡◌, ap, true, List, [], Option, some, arith, dec_lt, length, get_or,
  set,
}
use orbitport.Base.Result.{ok}
use orbitport.MasterSeed.{MasterSeed, mul_uint64_checked}
use orbitport.MasterSeed.Checked.{add_uint64_checked_lem, mul_uint64_checked_fits}
use orbitport.SeedPool.{Plugin, Reserved, picked, advance, reserve_seed_offset, crypto_rand_index}
use orbitport.SeedPool.Sampling.{crypto_rand_index-lt}

abbrev pub no_seed : MasterSeed
no_seed = record { seed = []; offset = 0 }

-- The seed at `idx` gave the `need` bytes from its cursor on, and only its cursor moved.
pub record Advanced (p : Plugin) (need : ℕ) (idx : ℕ) (r : Reserved) : Type 0 where
  pub in_pool : idx < length p.master_seeds
  pub seed_hex : r.seed_hex ≡ (get_or p.master_seeds idx no_seed).seed
  pub start : r.start ≡ (get_or p.master_seeds idx no_seed).offset
  pub fits : r.start + need < 2 ^ 64
  pub pool : r.pool ≡ record p {
    master_seeds = set p.master_seeds idx (record { seed = r.seed_hex; offset = r.start + need });
  }

-- A uint64 cursor, and a need that fits.
advance-Advanced :
    (p : Plugin) (idx need : ℕ) (r : Reserved)
    → idx < length p.master_seeds
    → need < 2 ^ 64
    → advance p idx need ≡ ok r
    → Advanced p need idx r
unfolding advance
advance-Advanced p idx need r lt small e =
    let at : ℕ = (get_or p.master_seeds idx no_seed).offset in
    elim (dec_lt (at + need) (2 ^ 64)) [
      | yes fits ↦ ground (arith, (add_uint64_checked_lem at need small).0 fits)
      | no over ↦ ground (arith, (add_uint64_checked_lem at need small).1 (omega arith))
    ]

-- The guards that a successful reservation has passed, and the draw that it made.
reserve_seed_offset-picked :
    (p : Plugin) (count : ℕ) (draws : List (Option ℕ)) (r : Reserved)
    → reserve_seed_offset p count draws ≡ some (ok r)
    → (0 < count)
      × (count ≤ p.max_count_per_request)
      × ((idx : ℕ) × (rest : List (Option ℕ)) × (crypto_rand_index (length p.master_seeds) draws
            ≡ picked idx rest)
          × (advance p idx (mul_uint64_checked count p.trng_size).0 ≡ ok r))
unfolding reserve_seed_offset
reserve_seed_offset-picked p count draws r e = ground arith

-- A reservation that succeeds was within the request limit, and advanced one seed of the pool.
pub reserve_seed_offset-Advanced :
    (p : Plugin) (count : ℕ) (draws : List (Option ℕ)) (r : Reserved)
    → p.max_master_seeds < 2 ^ 32
    → length p.master_seeds ≤ p.max_master_seeds
    → count * p.trng_size < 2 ^ 64
    → reserve_seed_offset p count draws ≡ some (ok r)
    → (0 < count)
      × (count ≤ p.max_count_per_request)
      × ((idx : ℕ) × Advanced p (count * p.trng_size) idx r)
reserve_seed_offset-Advanced p count draws r room bound fits e =
    let (some_count, within, found) = reserve_seed_offset-picked p count draws r e in
    let (idx, rest, drawn, advanced) = found in
    let need : mul_uint64_checked count p.trng_size ≡ (count * p.trng_size, true) =
      mul_uint64_checked_fits count p.trng_size fits in
    (
      some_count,
      within,
      (
        idx,
        advance-Advanced p idx (count * p.trng_size) r
            (crypto_rand_index-lt (length p.master_seeds) idx draws rest (omega arith) drawn) fits
            (rw (ap (λ t. t.0) need) at advanced),
      ),
    )
