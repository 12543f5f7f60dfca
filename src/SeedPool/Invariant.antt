-- ===== src/SeedPool/Invariant.antt =====
-- The pool stays within its limit, and holds only seeds that parse and cursors that are uint64.
use orbitport.Base.{
  ℕ, zero, suc, ◌+◌, ◌*◌, ◌^◌, ◌≤◌, ◌<◌, ◌≡◌, refl, ap, ap₂, Option-cases, ◌∙◌, List, [], ◌∷◌, ◌++◌,
  Option, none, some, arith, ltb, ◌==◌, if◌then◌else◌, Bool-cases, inl, inr, length, get_or, set,
  length-append, length-drop, length-set,
}
use orbitport.Base.All.{All, All-append, All-drop_one, All-set, All-get_or}
use orbitport.Base.Int.{ℤ, pos, negsuc}
use orbitport.Base.Result.{ok, err, Result-cases}
use orbitport.MasterSeed.{MasterSeed, SeedError, parse_trng_block, derive_bulk_at_offset, max_int}
use orbitport.MasterSeed.Derive.{derive_bulk_at_offset-ok, outputs}
use orbitport.ChaCha20.Position.{seed_key}
use orbitport.SeedPool.{
  Plugin, Config, Reserved, Reply, positive_or, new_plugin, evict, add_master_seed,
  reserve_seed_offset, get_seeds,
}
use orbitport.SeedPool.Reserve.{Advanced, no_seed, reserve_seed_offset-Advanced}

-- A seed of the pool parses into a block, and its cursor is a uint64.
pub record GoodSeed (m : MasterSeed) : Type 0 where
  pub block : List ℕ
  pub parses : parse_trng_block m.seed ≡ ok block
  pub cursor : m.offset < 2 ^ 64

pub record IsValid (p : Plugin) : Type 0 where
  pub capacity : length p.master_seeds ≤ p.max_master_seeds
  pub some_room : 0 < p.max_master_seeds
  pub output_len : (0 < p.trng_size) × (p.trng_size ≤ 1024)
  pub seeds : All GoodSeed p.master_seeds

positive_or-pos : (x : ℤ) (d : ℕ) → 0 < d → 0 < positive_or x d
positive_or-pos (pos zero) d h = h
positive_or-pos (pos (suc n)) d h = omega arith
positive_or-pos (negsuc n) d h = h

-- `NewPlugin` repairs whatever the configuration says.
pub new_plugin-IsValid : (cfg : Config) → IsValid (new_plugin cfg)
unfolding new_plugin
new_plugin-IsValid cfg =
    ground (arith, positive_or-pos cfg.trng_size 32, positive_or-pos cfg.max_master_seeds 100)

pub new_plugin-empty : (cfg : Config) → (new_plugin cfg).master_seeds ≡ []
unfolding new_plugin
new_plugin-empty cfg = refl

pub evict_bound :
    (limit : ℕ) (xs : List MasterSeed) (m : MasterSeed)
    → length xs ≤ limit
    → length (evict limit (xs ++ m ∷ [])) ≤ limit
unfolding evict
evict_bound limit xs m h = ground (arith, length-append xs (m ∷ []), length-drop 1 (xs ++ m ∷ []))

evict-All :
    (limit : ℕ) (xs : List MasterSeed) (m : MasterSeed)
    → All GoodSeed xs
    → GoodSeed m
    → All GoodSeed (evict limit (xs ++ m ∷ []))
unfolding evict
evict-All limit xs m h g =
    let all : All GoodSeed (xs ++ m ∷ []) = All-append GoodSeed xs (m ∷ []) h (g, tt) in
    elim (Bool-cases (ltb limit (length (xs ++ m ∷ [])))) [
      | inl e ↦ rw e (All-drop_one GoodSeed (xs ++ m ∷ []) all)
      | inr e ↦ rw e all
    ]

-- `addMasterSeed` keeps the pool valid.
pub add_master_seed-IsValid :
    (p : Plugin) (seed : List ℕ) → IsValid p → IsValid (add_master_seed p seed)
unfolding add_master_seed
add_master_seed-IsValid p [] v = v
add_master_seed-IsValid p (c ∷ s) v = elim (Result-cases (parse_trng_block (c ∷ s))) [
  | inl (block, e) ↦
      rw (e, add_master_seed)
        (record {
          capacity =
              evict_bound p.max_master_seeds p.master_seeds (record { seed = c ∷ s; offset = 0 })
                v.capacity;
          some_room = v.some_room;
          output_len = v.output_len;
          seeds =
              evict-All p.max_master_seeds p.master_seeds (record { seed = c ∷ s; offset = 0 })
                v.seeds (record { block = block; parses = e; cursor = omega arith });
        })
  | inr (e, h) ↦ rw (h, add_master_seed) v
]

-- What a reservation leaves behind is valid.
pub Advanced-IsValid :
    (p : Plugin) (need idx : ℕ) (r : Reserved) → IsValid p → Advanced p need idx r → IsValid r.pool
Advanced-IsValid p need idx r v a =
    let old : GoodSeed (get_or p.master_seeds idx no_seed) =
      All-get_or GoodSeed p.master_seeds idx no_seed a.in_pool v.seeds in
    let moved : MasterSeed = record { seed = r.seed_hex; offset = r.start + need } in
    rw a.pool (record {
      capacity = omega (arith, length-set p.master_seeds idx moved, v.capacity);
      some_room = v.some_room;
      output_len = v.output_len;
      seeds = All-set GoodSeed p.master_seeds idx moved v.seeds (record {
        block = old.block;
        parses = ap parse_trng_block a.seed_hex ∙ old.parses;
        cursor = a.fits;
      });
    })

-- What `GetSeeds` answers: an error with the pool as it was, or consecutive outputs of a seed of
-- the pool from its cursor on, with the cursor moved behind them.
pub data Answers (p : Plugin) (count : ℕ) (reply : Reply) : Type 0 where
  refused : (e : SeedError) → reply.values ≡ err e → reply.pool ≡ p → Answers p count reply
  served :
      (idx : ℕ) (block : List ℕ)
      → idx < length p.master_seeds
      → parse_trng_block (get_or p.master_seeds idx no_seed).seed ≡ ok block
      → reply.values
        ≡ ok (outputs (seed_key block) (get_or p.master_seeds idx no_seed).offset p.trng_size count)
      → reply.pool ≡ record p {
        master_seeds = set p.master_seeds idx (record {
          seed = (get_or p.master_seeds idx no_seed).seed;
          offset = (get_or p.master_seeds idx no_seed).offset + count * p.trng_size;
        });
      }
      → Answers p count reply

-- A reserved range can be derived: the seed parses, and its bytes fit an int.
pub Advanced-derives :
    (p : Plugin) (count idx : ℕ) (r : Reserved)
    → IsValid p
    → count < 2 ^ 32
    → Advanced p (count * p.trng_size) idx r
    → (block : List ℕ) × (parse_trng_block (get_or p.master_seeds idx no_seed).seed ≡ ok block)
      × (derive_bulk_at_offset r.seed_hex count r.start p.trng_size
          ≡ ok (
              outputs
                (seed_key block)
                (get_or p.master_seeds idx no_seed).offset
                p.trng_size
                count))
Advanced-derives p count idx r v small a =
    let old : GoodSeed (get_or p.master_seeds idx no_seed) =
      All-get_or GoodSeed p.master_seeds idx no_seed a.in_pool v.seeds in
    let (some_len, len_le) = v.output_len in
    let bound : count * p.trng_size ≤ max_int = grind arith in
    (
      old.block,
      old.parses,
      ap₂ (λ s t. derive_bulk_at_offset s count t p.trng_size) a.seed_hex a.start
          ∙ derive_bulk_at_offset-ok (get_or p.master_seeds idx no_seed).seed old.block count
              (get_or p.master_seeds idx no_seed).offset p.trng_size old.parses some_len len_le
              bound,
    )

served_lem :
    (p : Plugin) (count idx : ℕ) (r : Reserved)
    → IsValid p
    → count < 2 ^ 32
    → Advanced p (count * p.trng_size) idx r
    → Answers p count (record {
      values = derive_bulk_at_offset r.seed_hex count r.start p.trng_size;
      pool = r.pool;
    })
served_lem p count idx r v small a =
    let (block, parses, derives) = Advanced-derives p count idx r v small a in
    served idx block a.in_pool parses derives (
      a.pool
      ∙ ap₂
          (λ s t. record p {
            master_seeds =
                set p.master_seeds idx (record { seed = s; offset = t + count * p.trng_size });
          })
          a.seed_hex a.start)

-- the number of outputs that `GetSeeds` reads out of a request
abbrev pub request_count : ℕ → ℕ
request_count requested = if requested == 0 then 1 else requested

pub need_fits : (count len : ℕ) → count < 2 ^ 32 → len ≤ 1024 → count * len < 2 ^ 64
need_fits count len h le = grind arith

get_seeds-refused :
    (p : Plugin) (requested : ℕ) (draws : List (Option ℕ)) (e : SeedError) (reply : Reply)
    → reserve_seed_offset p (request_count requested) draws ≡ some (err e)
    → get_seeds p requested draws ≡ some reply
    → reply ≡ record { values = err e; pool = p }
unfolding get_seeds
get_seeds-refused p requested draws e reply h a = ground arith

get_seeds-reserved :
    (p : Plugin) (requested : ℕ) (draws : List (Option ℕ)) (r : Reserved) (reply : Reply)
    → reserve_seed_offset p (request_count requested) draws ≡ some (ok r)
    → get_seeds p requested draws ≡ some reply
    → reply ≡ record {
      values = derive_bulk_at_offset r.seed_hex (request_count requested) r.start p.trng_size;
      pool = r.pool;
    }
unfolding get_seeds
get_seeds-reserved p requested draws r reply h a = ground arith

get_seeds-stuck :
    (p : Plugin) (requested : ℕ) (draws : List (Option ℕ)) (reply : Reply)
    → reserve_seed_offset p (request_count requested) draws ≡ none
    → get_seeds p requested draws ≡ some reply
    → ⊥
unfolding get_seeds
get_seeds-stuck p requested draws reply h a = ground arith

-- An answer of `GetSeeds` is an error that leaves the pool as it was, or as many outputs as were
-- asked for (one, for a request of zero), derived from one seed of the pool at its cursor, which
-- has moved behind them; the derivation never fails once the cursor has moved. The pool stays valid.
pub get_seeds-Answers :
    (p : Plugin) (requested : ℕ) (draws : List (Option ℕ)) (reply : Reply)
    → IsValid p
    → p.max_master_seeds < 2 ^ 32
    → requested < 2 ^ 32
    → get_seeds p requested draws ≡ some reply
    → Answers p (request_count requested) reply × IsValid reply.pool
get_seeds-Answers p requested draws reply v room small e =
    let count : ℕ = request_count requested in
    let count_lt : count < 2 ^ 32 = ground arith in
    let fits : count * p.trng_size < 2 ^ 64 = need_fits count p.trng_size count_lt v.output_len.1 in
    elim (Option-cases (reserve_seed_offset p count draws)) [
      | inl stuck ↦ absurd (get_seeds-stuck p requested draws reply stuck e)
      | inr (res, h) ↦ elim (Result-cases res) [
        | inl (r, is_ok) ↦
            let reserved : reserve_seed_offset p count draws ≡ some (ok r) = h ∙ ap some is_ok in
            let (_, _, found) =
              reserve_seed_offset-Advanced p count draws r room v.capacity fits reserved in
            let (idx, advanced) = found in
            rw (get_seeds-reserved p requested draws r reply reserved e) (
              served_lem p count idx r v count_lt advanced,
              Advanced-IsValid p (count * p.trng_size) idx r v advanced,
            )
        | inr (err_value, is_err) ↦
            rw (get_seeds-refused p requested draws err_value reply (h ∙ ap some is_err) e)
              (refused err_value refl refl, v)
      ]
    ]
