-- ===== src/SeedPool/Adding.antt =====
-- `addMasterSeed` of plugins/pkg/plugin/masterseed/plugin.go: what becomes of the pool.
use orbitport.Base.{
  ℕ, ◌≤◌, ◌<◌, ◌≡◌, refl, sym, ap, subst, List, [], ◌∷◌, ◌++◌, arith, ltb, length, length-append,
  Bool-cases, inl, inr, ◌∙◌,
}
use orbitport.Base.Result.{ok, err, Result-cases}
use orbitport.MasterSeed.{MasterSeed, SeedError, parse_trng_block}
use orbitport.SeedPool.{Plugin, evict, add_master_seed}
use orbitport.SeedPool.Invariant.{IsValid, add_master_seed-IsValid}

-- the seed as it is put on the pool
abbrev fresh : List ℕ → MasterSeed
fresh seed = record { seed = seed; offset = 0 }

-- A seed that is empty or does not parse changes nothing; below the limit a seed goes behind the others;
-- at the limit the oldest seed, and only that one, makes room.
pub data Added (p : Plugin) (seed : List ℕ) : Plugin → Type 0 where
  empty : seed ≡ [] → Added p seed p
  unparsable : (e : SeedError) → parse_trng_block seed ≡ err e → Added p seed p
  appended :
      (block : List ℕ)
      → parse_trng_block seed ≡ ok block
      → length p.master_seeds < p.max_master_seeds
      → Added p seed (record p { master_seeds = p.master_seeds ++ fresh seed ∷ [] })
  replaced :
      (block : List ℕ) (oldest : MasterSeed) (others : List MasterSeed)
      → parse_trng_block seed ≡ ok block
      → length p.master_seeds ≡ p.max_master_seeds
      → p.master_seeds ≡ oldest ∷ others
      → Added p seed (record p { master_seeds = others ++ fresh seed ∷ [] })

evict-room :
    (limit : ℕ) (xs : List MasterSeed) (m : MasterSeed)
    → length xs < limit
    → evict limit (xs ++ m ∷ []) ≡ xs ++ m ∷ []
unfolding evict
evict-room limit xs m h = ground (arith, length-append xs (m ∷ []))

evict-full :
    (limit : ℕ) (x : MasterSeed) (xs : List MasterSeed) (m : MasterSeed)
    → length (x ∷ xs) ≡ limit
    → evict limit ((x ∷ xs) ++ m ∷ []) ≡ xs ++ m ∷ []
unfolding evict
evict-full limit x xs m h = ground (arith, length-append (x ∷ xs) (m ∷ []))

parsed-Added :
    (p : Plugin) (seed block : List ℕ) (xs : List MasterSeed)
    → p.master_seeds ≡ xs
    → parse_trng_block seed ≡ ok block
    → length xs ≤ p.max_master_seeds
    → 0 < p.max_master_seeds
    → Added p seed
        (record p { master_seeds = evict p.max_master_seeds (p.master_seeds ++ fresh seed ∷ []) })
parsed-Added p seed block xs is e le room = elim (Bool-cases (ltb (length xs) p.max_master_seeds)) [
  | inl below ↦
      let fits : length p.master_seeds < p.max_master_seeds = rw (is) ground arith in
      rw (evict-room p.max_master_seeds p.master_seeds (fresh seed) fits) (appended block e fits)
  | inr at ↦ full xs is (ground arith)
]
  where
    full :
        (xs : List MasterSeed)
        → p.master_seeds ≡ xs
        → length xs ≡ p.max_master_seeds
        → Added p seed (record p {
          master_seeds = evict p.max_master_seeds (p.master_seeds ++ fresh seed ∷ []);
        })
    full [] is n = absurd (omega arith)
    full (x ∷ xs) is n =
        subst (λ ms. Added p seed (record p { master_seeds = ms }))
          (sym (
            ap (λ l. evict p.max_master_seeds (l ++ fresh seed ∷ [])) is
            ∙ evict-full p.max_master_seeds x xs (fresh seed) n))
          (replaced block x xs e (ap length is ∙ n) is)

added-Added : (p : Plugin) (seed : List ℕ) → IsValid p → Added p seed (add_master_seed p seed)
unfolding add_master_seed
added-Added p [] v = empty refl
added-Added p (c ∷ s) v = elim (Result-cases (parse_trng_block (c ∷ s))) [
  | inl (block, e) ↦
      rw (e, add_master_seed)
        (parsed-Added p (c ∷ s) block p.master_seeds refl e v.capacity v.some_room)
  | inr (x, e) ↦ rw (e, add_master_seed) (unparsable x e)
]

-- `addMasterSeed` on a valid pool: a seed that is empty or does not parse changes nothing; below the
-- limit a seed is put behind the others with its cursor at 0; at the limit the oldest seed is dropped
-- for it and all others stay. The pool is valid afterwards: within its limit, with seeds that parse and
-- cursors that are uint64.
pub add_master_seed-Added :
    (p : Plugin) (seed : List ℕ)
    → IsValid p
    → Added p seed (add_master_seed p seed) × IsValid (add_master_seed p seed)
add_master_seed-Added p seed v = (added-Added p seed v, add_master_seed-IsValid p seed v)
