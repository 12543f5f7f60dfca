-- ===== src/SeedPool/Disjoint.antt =====
-- No keystream byte is handed out twice: the ranges that reservations return, over any history of
-- fetches and requests in which a seed is added once.
pub mod Steps
use orbitport.Base.{
  ℕ, zero, suc, ◌+◌, ◌-◌, ◌*◌, ◌^◌, ◌≤◌, ◌<◌, ◌≡◌, refl, sym, ap, ap₂, ◌∙◌, subst, ◌≢◌, ◌⊎◌, true,
  false, List, [], ◌∷◌, ◌++◌, Option, none, some, arith, ltb, Bool-cases, Option-cases, inl, inr,
  length, get_or, set, drop,
}
use orbitport.Base.All.{All, All-append, All-drop_one, All-set, All-get_or, All-map, All-zip}
use orbitport.Base.Result.{Result, ok, err, Result-cases}
use orbitport.MasterSeed.{MasterSeed, SeedError, parse_trng_block}
use orbitport.SeedPool.{Plugin, Reserved, evict, add_master_seed, fetch_tick, reserve_seed_offset}
use orbitport.SeedPool.Reserve.{Advanced, no_seed, reserve_seed_offset-Advanced}

-- a range of the keystream of a seed that was handed out
pub record Range : Type 0 where
  pub hex : List ℕ
  pub start : ℕ
  pub end : ℕ

-- what the fetch loop and the requests do
pub data Event : Type 0 where
  fetches : List ℕ → Event
  requests : ℕ → List (Option ℕ) → Event

-- The pool, with the ranges handed out so far and the seeds that were ever fetched.
pub record History : Type 0 where
  pub pool : Plugin
  pub log : List Range
  pub seen : List (List ℕ)

pub request : History → ℕ → Option (Result SeedError Reserved) → History
request h count (some (ok r)) = record h {
  pool = r.pool;
  log =
      record { hex = r.seed_hex; start = r.start; end = r.start + count * h.pool.trng_size }
      ∷ h.log;
}
request h count _ = h

pub step : History → Event → History
step h (fetches seed) = record h {
  pool = fetch_tick h.pool (some (seed ∷ []));
  seen = seed ∷ h.seen;
}
step h (requests count draws) = request h count (reserve_seed_offset h.pool count draws)

pub run : History → List Event → History
run h [] = h
run h (e ∷ es) = run (step h e) es

abbrev pub NotIn : List ℕ → List (List ℕ) → Type 0
NotIn s seen = All (λ t. t ≢ s) seen

-- Every seed of the history is fetched once.
abbrev pub FreshSeeds : List (List ℕ) → List Event → Type 0
FreshSeeds seen [] = Unit
FreshSeeds seen (fetches seed ∷ es) = NotIn seed seen × FreshSeeds (seed ∷ seen) es
FreshSeeds seen (requests count draws ∷ es) = FreshSeeds seen es

-- Requests that a uint32 count and the pool's configuration allow.
abbrev pub SmallRequests : List Event → Type 0
SmallRequests [] = Unit
SmallRequests (fetches seed ∷ es) = SmallRequests es
SmallRequests (requests count draws ∷ es) = (count < 2 ^ 32) × SmallRequests es

abbrev pub Apart : Range → Range → Type 0
Apart g h = g.hex ≡ h.hex → (g.end ≤ h.start) ⊎ (h.end ≤ g.start)

abbrev pub PairwiseApart : List Range → Type 0
PairwiseApart [] = Unit
PairwiseApart (g ∷ gs) = All (Apart g) gs × PairwiseApart gs

-- Seeds of the pool are different texts.
abbrev pub Distinct : List MasterSeed → Type 0
Distinct [] = Unit
Distinct (m ∷ ms) = All (λ n. n.seed ≢ m.seed) ms × Distinct ms

-- The cursor of a seed is behind all its ranges.
abbrev pub Behind : List Range → MasterSeed → Type 0
Behind log m = All (λ g. g.hex ≡ m.seed → g.end ≤ m.offset) log

pub data IsSeen (s : List ℕ) : List (List ℕ) → Type 0 where
  here : {t : List ℕ} {seen : List (List ℕ)} → t ≡ s → IsSeen s (t ∷ seen)
  there : {t : List ℕ} {seen : List (List ℕ)} → IsSeen s seen → IsSeen s (t ∷ seen)

pub record Inv (h : History) : Type 0 where
  pub room : h.pool.max_master_seeds < 2 ^ 32
  pub capacity : length h.pool.master_seeds ≤ h.pool.max_master_seeds
  pub output_len : h.pool.trng_size ≤ 1024
  pub distinct : Distinct h.pool.master_seeds
  pub pool_seen : All (λ m. IsSeen m.seed h.seen) h.pool.master_seeds
  pub log_seen : All (λ g. IsSeen g.hex h.seen) h.log
  pub behind : All (Behind h.log) h.pool.master_seeds
  pub apart : PairwiseApart h.log

pub not_seen : (s : List ℕ) (seen : List (List ℕ)) → NotIn s seen → IsSeen s seen → ⊥
not_seen s [] h w = elim w [ ]
not_seen s (t ∷ seen) h (here e) = h.0 e
not_seen s (t ∷ seen) h (there w) = not_seen s seen h.1 w

pub Distinct-snoc :
    (xs : List MasterSeed) (m : MasterSeed)
    → Distinct xs
    → All (λ n. n.seed ≢ m.seed) xs
    → Distinct (xs ++ m ∷ [])
Distinct-snoc [] m d h = (tt, tt)
Distinct-snoc (x ∷ xs) m d h = (
  All-append (λ n. n.seed ≢ x.seed) xs (m ∷ []) d.0 ((λ e. h.0 (sym e)), tt),
  Distinct-snoc xs m d.1 h.1,
)

pub Distinct-drop_one : (xs : List MasterSeed) → Distinct xs → Distinct (drop 1 xs)
Distinct-drop_one [] d = tt
Distinct-drop_one (x ∷ xs) d = d.1

-- A write that keeps the text of the seed keeps the seeds different.
pub Distinct-set :
    (xs : List MasterSeed) (i : ℕ) (v : MasterSeed)
    → i < length xs
    → v.seed ≡ (get_or xs i no_seed).seed
    → Distinct xs
    → Distinct (set xs i v)
Distinct-set [] i v lt e d = absurd (omega arith)
Distinct-set (x ∷ xs) zero v lt e d =
    (All-map (λ n. n.seed ≢ x.seed) (λ n. n.seed ≢ v.seed) (λ n ne same. ne (same ∙ e)) xs d.0, d.1)
Distinct-set (x ∷ xs) (suc i) v lt e d =
    let other : (get_or xs i no_seed).seed ≢ x.seed =
      All-get_or (λ n. n.seed ≢ x.seed) xs i no_seed (omega arith) d.0 in
    (
      All-set (λ n. n.seed ≢ x.seed) xs i v d.0 (λ same. other (sym e ∙ same)),
      Distinct-set xs i v (omega arith) e d.1,
    )

-- A new range of the seed at `i` leaves all cursors behind their ranges, if that seed's is.
pub Behind-set :
    (log : List Range) (g : Range) (xs : List MasterSeed) (i : ℕ) (v : MasterSeed)
    → i < length xs
    → g.hex ≡ v.seed
    → v.seed ≡ (get_or xs i no_seed).seed
    → Distinct xs
    → All (Behind log) xs
    → Behind (g ∷ log) v
    → All (Behind (g ∷ log)) (set xs i v)
Behind-set log g [] i v lt own e d old new = absurd (omega arith)
Behind-set log g (x ∷ xs) zero v lt own e d old new = (
  new,
  All-zip (λ n. n.seed ≢ x.seed) (Behind log) (Behind (g ∷ log))
      (λ n ne b. ((λ same. absurd (ne (sym same ∙ own ∙ e))), b)) xs d.0 old.1,
)
Behind-set log g (x ∷ xs) (suc i) v lt own e d old new =
    let other : (get_or xs i no_seed).seed ≢ x.seed =
      All-get_or (λ n. n.seed ≢ x.seed) xs i no_seed (omega arith) d.0 in
    (
      ((λ same. absurd (other (sym e ∙ sym own ∙ same))), old.0),
      Behind-set log g xs i v (omega arith) own e d.1 old.1 new,
    )

-- What `addMasterSeed` does to the list of seeds.
abbrev pub Added : Plugin → List ℕ → Plugin → Type 0
Added p seed q =
    (q ≡ p)
    ⊎ (q ≡ record p {
      master_seeds =
          evict p.max_master_seeds (p.master_seeds ++ record { seed = seed; offset = 0 } ∷ []);
    })

pub add_master_seed-Added : (p : Plugin) (seed : List ℕ) → Added p seed (add_master_seed p seed)
unfolding add_master_seed
add_master_seed-Added p [] = inl refl
add_master_seed-Added p (c ∷ s) = elim (Result-cases (parse_trng_block (c ∷ s))) [
  | inl (block, e) ↦ inr (rw (e, add_master_seed))
  | inr (e, h) ↦ inl (rw (h, add_master_seed))
]

pub evict-keeps {κ} :
    (P : List MasterSeed → Type κ) (limit : ℕ) (xs : List MasterSeed)
    → P xs
    → P (drop 1 xs)
    → P (evict limit xs)
unfolding evict
evict-keeps P limit xs h k = elim (Bool-cases (ltb limit (length xs))) [
  | inl e ↦ rw e k
  | inr e ↦ rw e h
]
