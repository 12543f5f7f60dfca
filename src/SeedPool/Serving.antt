-- ===== src/SeedPool/Serving.antt =====
-- When `GetSeeds` answers, and serves the request.
use orbitport.Base.{
  ℕ, ◌+◌, ◌*◌, ◌%◌, ◌^◌, ◌≤◌, ◌<◌, ◌≡◌, List, ◌∷◌, ◌++◌, Option, some, arith, length, get_or, set,
}
use orbitport.Base.Result.{ok}
use orbitport.MasterSeed.{MasterSeed, derive_bulk_at_offset}
use orbitport.MasterSeed.Checked.{add_uint64_checked_lem, mul_uint64_checked_fits}
use orbitport.MasterSeed.Derive.{outputs, length-outputs}
use orbitport.ChaCha20.Position.{seed_key}
use orbitport.SeedPool.{
  Plugin, Reserved, Reply, picked, advance, reserve_seed_offset, crypto_rand_index, limit,
  get_seeds,
}
use orbitport.SeedPool.Sampling.{AllRejected, draw_loop-returns}
use orbitport.SeedPool.Reserve.{no_seed, reserve_seed_offset-Advanced}
use orbitport.SeedPool.Invariant.{IsValid, Advanced-derives, request_count, need_fits}

-- The first accepted word decides the index.
pub crypto_rand_index-returns :
    (n v : ℕ) (rejected post : List (Option ℕ))
    → 0 < n
    → n < 2 ^ 32
    → AllRejected n rejected
    → v < limit n
    → crypto_rand_index n (rejected ++ some v ∷ post) ≡ picked (v % n) post
unfolding crypto_rand_index
crypto_rand_index-returns n v rejected post pos small rej h =
    ground (arith, draw_loop-returns n v rejected post rej h)

advance-ok :
    (p : Plugin) (idx need : ℕ)
    → need < 2 ^ 64
    → (get_or p.master_seeds idx no_seed).offset + need < 2 ^ 64
    → (r : Reserved) × (advance p idx need ≡ ok r)
unfolding advance
advance-ok p idx need small fits =
    let m : MasterSeed = get_or p.master_seeds idx no_seed in
    (
      record {
        seed_hex = m.seed;
        start = m.offset;
        pool = record p {
          master_seeds =
              set p.master_seeds idx (record { seed = m.seed; offset = m.offset + need });
        };
      },
      ground (arith, (add_uint64_checked_lem m.offset need small).0 fits),
    )

reserve_seed_offset-ok :
    (p : Plugin) (count idx : ℕ) (draws rest : List (Option ℕ)) (r : Reserved)
    → 0 < count
    → count ≤ p.max_count_per_request
    → count * p.trng_size < 2 ^ 64
    → 0 < length p.master_seeds
    → crypto_rand_index (length p.master_seeds) draws ≡ picked idx rest
    → advance p idx (count * p.trng_size) ≡ ok r
    → reserve_seed_offset p count draws ≡ some (ok r)
unfolding reserve_seed_offset
reserve_seed_offset-ok p count idx draws rest r pos le fits nonempty drawn done =
    ground (arith, mul_uint64_checked_fits count p.trng_size fits)

get_seeds-replies :
    (p : Plugin) (requested : ℕ) (draws : List (Option ℕ)) (r : Reserved)
    → reserve_seed_offset p (request_count requested) draws ≡ some (ok r)
    → get_seeds p requested draws
      ≡ some (record {
        values = derive_bulk_at_offset r.seed_hex (request_count requested) r.start p.trng_size;
        pool = r.pool;
      })
unfolding get_seeds
get_seeds-replies p requested draws r h = ground arith

-- With a seed in the pool, a count within the limit, a random source that gives an accepted word
-- after words that are rejected, and a cursor that does not overflow, `GetSeeds` answers, with as
-- many values as were asked for.
pub get_seeds-serves :
    (p : Plugin) (requested v : ℕ) (rejected post : List (Option ℕ))
    → IsValid p
    → p.max_master_seeds < 2 ^ 32
    → requested < 2 ^ 32
    → 0 < length p.master_seeds
    → request_count requested ≤ p.max_count_per_request
    → AllRejected (length p.master_seeds) rejected
    → v < limit (length p.master_seeds)
    → (get_or p.master_seeds (v % length p.master_seeds) no_seed).offset
        + request_count requested * p.trng_size
      < 2 ^ 64
    → (reply : Reply) × (vals : List (List ℕ)) × (get_seeds p requested (rejected ++ some v ∷ post)
        ≡ some reply)
      × (reply.values ≡ ok vals)
      × (length vals ≡ request_count requested)
get_seeds-serves p requested v rejected post valid room small nonempty le rej acc fits =
    let n : ℕ = length p.master_seeds in
    let count : ℕ = request_count requested in
    let count_lt : count < 2 ^ 32 = ground arith in
    let need_lt : count * p.trng_size < 2 ^ 64 =
      need_fits count p.trng_size count_lt valid.output_len.1 in
    let drawn : crypto_rand_index n (rejected ++ some v ∷ post) ≡ picked (v % n) post =
      crypto_rand_index-returns n v rejected post nonempty (omega (arith, valid.capacity)) rej
        acc in
    let (r, advanced) = advance-ok p (v % n) (count * p.trng_size) need_lt fits in
    let reserved : reserve_seed_offset p count (rejected ++ some v ∷ post) ≡ some (ok r) =
      reserve_seed_offset-ok p count (v % n) (rejected ++ some v ∷ post) post r (ground arith) le
        need_lt nonempty drawn advanced in
    let (_, _, found) =
      reserve_seed_offset-Advanced p count (rejected ++ some v ∷ post) r room valid.capacity need_lt
        reserved in
    let (idx, a) = found in
    let (block, _, derives) = Advanced-derives p count idx r valid count_lt a in
    (
      record { values = derive_bulk_at_offset r.seed_hex count r.start p.trng_size; pool = r.pool },
      outputs (seed_key block) (get_or p.master_seeds idx no_seed).offset p.trng_size count,
      get_seeds-replies p requested (rejected ++ some v ∷ post) r reserved,
      derives,
      length-outputs (seed_key block) (get_or p.master_seeds idx no_seed).offset p.trng_size count,
    )
