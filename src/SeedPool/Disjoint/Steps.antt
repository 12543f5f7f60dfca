-- ===== src/SeedPool/Disjoint/Steps.antt =====
-- Every step of a history keeps the ranges apart.
use orbitport.Base.{
  ℕ, ◌+◌, ◌*◌, ◌^◌, ◌≤◌, ◌<◌, ◌≡◌, refl, sym, ap, ◌∙◌, subst, ◌≢◌, List, [], ◌∷◌, ◌++◌, Option,
  none, some, arith, inl, inr, get_or, set, Option-cases, length-set,
}
use orbitport.Base.All.{All, All-append, All-drop_one, All-set, All-get_or, All-map}
use orbitport.Base.Result.{Result, ok, err, Result-cases}
use orbitport.MasterSeed.{MasterSeed, SeedError}
use orbitport.SeedPool.{Config, new_plugin, Reserved, evict, fetch_tick, reserve_seed_offset}
use orbitport.SeedPool.Reserve.{Advanced, no_seed, reserve_seed_offset-Advanced}
use orbitport.SeedPool.Invariant.{
  IsValid, evict_bound, need_fits, new_plugin-IsValid, new_plugin-empty,
}
use orbitport.SeedPool.Disjoint.{
  Range, Event, fetches, requests, History, request, step, run, NotIn, FreshSeeds, SmallRequests,
  Apart, PairwiseApart, Distinct, Behind, IsSeen, here, there, Inv, not_seen, Distinct-snoc,
  Distinct-drop_one, Distinct-set, Behind-set, add_master_seed-Added, evict-keeps,
}

-- A seed that was seen before counts as seen.
Inv-seen : (h : History) (s : List ℕ) → Inv h → Inv (record h { seen = s ∷ h.seen })
Inv-seen h s v = record {
  room = v.room;
  capacity = v.capacity;
  output_len = v.output_len;
  distinct = v.distinct;
  pool_seen =
      All-map (λ m. IsSeen m.seed h.seen) (λ m. IsSeen m.seed (s ∷ h.seen)) (λ m w. there w)
        h.pool.master_seeds v.pool_seen;
  log_seen =
      All-map (λ g. IsSeen g.hex h.seen) (λ g. IsSeen g.hex (s ∷ h.seen)) (λ g w. there w) h.log
        v.log_seen;
  behind = v.behind;
  apart = v.apart;
}

module _ (h : History) (s : List ℕ) (v : Inv h) (fresh : NotIn s h.seen) where
  abbrev new_seed : MasterSeed
  new_seed = record { seed = s; offset = 0 }

  abbrev appended : List MasterSeed
  appended = h.pool.master_seeds ++ new_seed ∷ []

  others : All (λ n. n.seed ≢ s) h.pool.master_seeds
  others =
      All-map (λ m. IsSeen m.seed h.seen) (λ n. n.seed ≢ s)
        (λ m w same. not_seen s h.seen fresh (subst (λ t. IsSeen t h.seen) same w))
        h.pool.master_seeds v.pool_seen

  no_range : Behind h.log new_seed
  no_range =
      All-map (λ g. IsSeen g.hex h.seen) (λ g. g.hex ≡ s → g.end ≤ 0)
        (λ g w same. absurd (not_seen s h.seen fresh (subst (λ t. IsSeen t h.seen) same w))) h.log
        v.log_seen

  kept-Distinct : Distinct (evict h.pool.max_master_seeds appended)
  kept-Distinct =
      let all : Distinct appended = Distinct-snoc h.pool.master_seeds new_seed v.distinct others in
      evict-keeps Distinct h.pool.max_master_seeds appended all (Distinct-drop_one appended all)

  kept-All {κ} :
      (P : MasterSeed → Type κ)
      → All P h.pool.master_seeds
      → P new_seed
      → All P (evict h.pool.max_master_seeds appended)
  kept-All P a p =
      let all : All P appended = All-append P h.pool.master_seeds (new_seed ∷ []) a (p, tt) in
      evict-keeps (All P) h.pool.max_master_seeds appended all (All-drop_one P appended all)

  Inv-added : Inv (record h {
    pool = record (h.pool) { master_seeds = evict h.pool.max_master_seeds appended };
    seen = s ∷ h.seen;
  })
  Inv-added =
      let w : Inv (record h { seen = s ∷ h.seen }) = Inv-seen h s v in
      record {
        room = v.room;
        capacity = evict_bound h.pool.max_master_seeds h.pool.master_seeds new_seed v.capacity;
        output_len = v.output_len;
        distinct = kept-Distinct;
        pool_seen = kept-All (λ m. IsSeen m.seed (s ∷ h.seen)) w.pool_seen (here refl);
        log_seen = w.log_seen;
        behind = kept-All (Behind h.log) v.behind no_range;
        apart = v.apart;
      }

  fetch-Inv : Inv (step h (fetches s))
  unfolding step fetch_tick
  fetch-Inv = elim (add_master_seed-Added h.pool s) [
    | inl same ↦ rw same (Inv-seen h s v)
    | inr added ↦ rw added Inv-added
  ]

-- A successful reservation hands out the range that it has put the cursor behind.
module _ (h : History) (count idx : ℕ) (r : Reserved) (v : Inv h)
    (a : Advanced h.pool (count * h.pool.trng_size) idx r) where
  abbrev need : ℕ
  need = count * h.pool.trng_size

  abbrev granted : Range
  granted = record { hex = r.seed_hex; start = r.start; end = r.start + need }

  abbrev moved : MasterSeed
  moved = record { seed = r.seed_hex; offset = r.start + need }

  Behind-old : Behind h.log (get_or h.pool.master_seeds idx no_seed)
  Behind-old = All-get_or (Behind h.log) h.pool.master_seeds idx no_seed a.in_pool v.behind

  old_ends : All (λ g. g.hex ≡ r.seed_hex → g.end ≤ r.start) h.log
  old_ends =
      All-map
        (λ g.
          g.hex ≡ (get_or h.pool.master_seeds idx no_seed).seed
          → g.end ≤ (get_or h.pool.master_seeds idx no_seed).offset)
        (λ g. g.hex ≡ r.seed_hex → g.end ≤ r.start)
        (λ g le same. omega (arith, le (same ∙ a.seed_hex), a.start)) h.log Behind-old

  Behind-moved : Behind (granted ∷ h.log) moved
  Behind-moved = (
    λ same. omega arith,
    All-map (λ g. g.hex ≡ r.seed_hex → g.end ≤ r.start)
        (λ g. g.hex ≡ r.seed_hex → g.end ≤ r.start + need) (λ g le same. omega (arith, le same))
        h.log old_ends,
  )

  granted-Apart : All (Apart granted) h.log
  granted-Apart =
      All-map (λ g. g.hex ≡ r.seed_hex → g.end ≤ r.start) (Apart granted)
        (λ g le same. inr (le (sym same))) h.log old_ends

  granted_seen : IsSeen r.seed_hex h.seen
  granted_seen =
      subst (λ t. IsSeen t h.seen) (sym a.seed_hex)
        (All-get_or (λ m. IsSeen m.seed h.seen) h.pool.master_seeds idx no_seed a.in_pool
          v.pool_seen)

  Inv-granted : Inv (record h {
    pool = record (h.pool) { master_seeds = set h.pool.master_seeds idx moved };
    log = granted ∷ h.log;
  })
  Inv-granted = record {
    room = v.room;
    capacity = omega (arith, length-set h.pool.master_seeds idx moved, v.capacity);
    output_len = v.output_len;
    distinct = Distinct-set h.pool.master_seeds idx moved a.in_pool a.seed_hex v.distinct;
    pool_seen =
        All-set (λ m. IsSeen m.seed h.seen) h.pool.master_seeds idx moved v.pool_seen granted_seen;
    log_seen = (granted_seen, v.log_seen);
    behind =
        Behind-set h.log granted h.pool.master_seeds idx moved a.in_pool refl a.seed_hex v.distinct
          v.behind Behind-moved;
    apart = (granted-Apart, v.apart);
  }

  request-granted : Inv (request h count (some (ok r)))
  unfolding request
  request-granted = rw a.pool Inv-granted

request-Inv :
    (h : History) (count : ℕ) (draws : List (Option ℕ))
    → Inv h
    → count < 2 ^ 32
    → Inv (step h (requests count draws))
unfolding step
request-Inv h count draws v small =
    let fits : count * h.pool.trng_size < 2 ^ 64 =
      need_fits count h.pool.trng_size small v.output_len in
    elim (Option-cases (reserve_seed_offset h.pool count draws)) [
      | inl stuck ↦ rw stuck (unfold request in v)
      | inr (res, e) ↦ elim (Result-cases res) [
        | inl (r, is_ok) ↦
            let reserved : reserve_seed_offset h.pool count draws ≡ some (ok r) =
              e ∙ ap some is_ok in
            let (_, _, found) =
              reserve_seed_offset-Advanced h.pool count draws r v.room v.capacity fits reserved in
            let (idx, a) = found in rw reserved (request-granted h count idx r v a)
        | inr (error, is_err) ↦ rw (e ∙ ap some is_err) (unfold request in v)
      ]
    ]

request-seen :
    (h : History) (count : ℕ) (o : Option (Result SeedError Reserved))
    → (request h count o).seen ≡ h.seen
unfolding request
request-seen h count none = refl
request-seen h count (some (ok r)) = refl
request-seen h count (some (err e)) = refl

step-seen :
    (h : History) (count : ℕ) (draws : List (Option ℕ))
    → (step h (requests count draws)).seen ≡ h.seen
unfolding step
step-seen h count draws = request-seen h count (reserve_seed_offset h.pool count draws)

run-Inv :
    (h : History) (es : List Event)
    → FreshSeeds h.seen es
    → SmallRequests es
    → Inv h
    → Inv (run h es)
unfolding run
run-Inv h [] fresh small v = v
run-Inv h (fetches s ∷ es) fresh small v =
    run-Inv (step h (fetches s)) es (unfold step in fresh.1) small (fetch-Inv h s v fresh.0)
run-Inv h (requests count draws ∷ es) fresh small v =
    run-Inv (step h (requests count draws)) es
      (subst (λ t. FreshSeeds t es) (sym (step-seen h count draws)) fresh) small.1
      (request-Inv h count draws v small.0)

-- a plugin that was just made, with nothing handed out
pub start : Config → History
start cfg = record { pool = new_plugin cfg; log = []; seen = [] }

start-Inv : (cfg : Config) → (new_plugin cfg).max_master_seeds < 2 ^ 32 → Inv (start cfg)
unfolding start
start-Inv cfg room =
    let v : IsValid (new_plugin cfg) = new_plugin-IsValid cfg in
    let none_yet : (new_plugin cfg).master_seeds ≡ [] = new_plugin-empty cfg in
    record {
      room = room;
      capacity = v.capacity;
      output_len = v.output_len.1;
      distinct = rw none_yet tt;
      pool_seen = rw none_yet tt;
      log_seen = tt;
      behind = rw none_yet tt;
      apart = tt;
    }

-- Over any history in which every seed is fetched once, no two ranges that were handed out for one
-- seed overlap: no byte of its keystream is given to two requests.
pub run-PairwiseApart :
    (cfg : Config) (es : List Event)
    → (new_plugin cfg).max_master_seeds < 2 ^ 32
    → FreshSeeds [] es
    → SmallRequests es
    → PairwiseApart (run (start cfg) es).log
run-PairwiseApart cfg es room fresh small =
    let v : Inv (run (start cfg) es) =
      run-Inv (start cfg) es (unfold start in fresh) small (start-Inv cfg room) in
    v.apart
