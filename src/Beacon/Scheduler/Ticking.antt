-- ===== src/Beacon/Scheduler/Ticking.antt =====
-- What one tick does: which beacons of the registry it triggers, and what it notes.
use orbitport.Base.{
  ℕ, ◌+◌, ◌≤◌, ◌≡◌, ◌≢◌, refl, sym, ap, ◌∙◌, true, false, List, [], ◌∷◌, ◌++◌, Option, none, some,
  ltb, length, arith, Bool-cases, inl, inr, length-append, append_assoc, append-nil, Option-cases,
}
use orbitport.Base.All.{All, All-zip}
use orbitport.Base.Int.{ℤ, pos, negsuc}
use orbitport.Text.{Text}
use orbitport.Text.Dict.{lookup, put, lookup-put_ne, lookup-put_same}
use orbitport.Beacon.Types.{BeaconMetadata}
use orbitport.Beacon.Scheduler.{
  Scheduler, is_zero, elapsed_less, too_recent, queue_cap, Trigger, trigger_one, trigger_all,
  check_and_trigger,
}

-- The time `last`, with the interval behind it, is not after `now`.
abbrev pub Elapsed : ℕ → ℤ → ℤ → Type 0
Elapsed now (pos last) (pos i) = last + i ≤ now
Elapsed now (pos last) (negsuc i) = last ≤ now + (i + 1)
Elapsed now (negsuc last) (pos i) = i ≤ now + (last + 1)
Elapsed now (negsuc last) (negsuc i) = Unit

-- A beacon with this interval is due: it has one, and no time is noted for it or the interval has passed.
abbrev pub Due : ℕ → ℤ → Option ℤ → Type 0
Due now interval none = interval ≢ pos 0
Due now interval (some last) = (interval ≢ pos 0) × Elapsed now last interval

-- No two beacons share a name.
abbrev pub Distinct : List BeaconMetadata → Type 0
Distinct [] = Unit
Distinct (b ∷ bs) = All (λ q. q.name ≢ b.name) bs × Distinct bs

is_zero-pos : (i : ℤ) → is_zero i ≡ true → i ≡ pos 0
unfolding is_zero
is_zero-pos (pos n) h = ap pos (ground arith)
is_zero-pos (negsuc n) h = cc

is_zero-ne : (i : ℤ) → is_zero i ≡ false → i ≢ pos 0
unfolding is_zero
is_zero-ne i h e = let bad : is_zero i ≡ true = rw (e) refl in cc

elapsed_less-Elapsed : (now : ℕ) (last i : ℤ) → elapsed_less now last i ≡ false → Elapsed now last i
unfolding elapsed_less
elapsed_less-Elapsed now (pos last) (pos i) h = ground arith
elapsed_less-Elapsed now (pos last) (negsuc i) h = ground arith
elapsed_less-Elapsed now (negsuc last) (pos i) h = ground arith
elapsed_less-Elapsed now (negsuc last) (negsuc i) h = tt

elapsed_less-not : (now : ℕ) (last i : ℤ) → elapsed_less now last i ≡ true → ¬ Elapsed now last i
unfolding elapsed_less
elapsed_less-not now (pos last) (pos i) h e = ground arith
elapsed_less-not now (pos last) (negsuc i) h e = ground arith
elapsed_less-not now (negsuc last) (pos i) h e = ground arith
elapsed_less-not now (negsuc last) (negsuc i) h e = cc

too_recent-Due :
    (now : ℕ) (b : BeaconMetadata) (s : Scheduler)
    → is_zero b.interval ≡ false
    → too_recent now b s ≡ false
    → Due now b.interval (lookup b.name s.last_execs)
unfolding too_recent
too_recent-Due now b s active old = elim (Option-cases (lookup b.name s.last_execs)) [
  | inl e ↦ rw (e) (is_zero-ne b.interval active)
  | inr (last, e) ↦ rw (e) (
    is_zero-ne b.interval active,
    elapsed_less-Elapsed now last b.interval (rw (e, too_recent) at old),
  )
]

too_recent-not :
    (now : ℕ) (b : BeaconMetadata) (s : Scheduler)
    → too_recent now b s ≡ true
    → ¬ Due now b.interval (lookup b.name s.last_execs)
unfolding too_recent
too_recent-not now b s recent = elim (Option-cases (lookup b.name s.last_execs)) [
  | inl e ↦ let bad : too_recent now b s ≡ false = rw (e, too_recent) refl in cc
  | inr (last, e) ↦
      rw (e) (λ d. elapsed_less-not now last b.interval (rw (e, too_recent) at recent) d.1)
]

zero-not : (now : ℕ) (i : ℤ) (o : Option ℤ) → is_zero i ≡ true → ¬ Due now i o
zero-not now i none z d = d (is_zero-pos i z)
zero-not now i (some last) z d = d.0 (is_zero-pos i z)

module _ (clock : ℕ → ℕ) where
  -- the state with the beacon put on the queue, and its time noted
  abbrev with_beacon : ℕ → BeaconMetadata → Scheduler → Scheduler
  with_beacon n b s = record s {
    queue = s.queue ++ b ∷ [];
    last_execs = put b.name (pos (clock (n + 1))) s.last_execs;
  }

  data One (n : ℕ) (b : BeaconMetadata) (s : Scheduler) : Scheduler → Type 0 where
    puts : Due (clock n) b.interval (lookup b.name s.last_execs) → One n b s (with_beacon n b s)
    rests : ¬ Due (clock n) b.interval (lookup b.name s.last_execs) → One n b s s
    drops : queue_cap ≤ length s.queue → One n b s s

  trigger_one-One :
      (n : ℕ) (b : BeaconMetadata) (s : Scheduler) → One n b s (trigger_one clock n b s).0
  unfolding trigger_one
  trigger_one-One n b s = elim (Bool-cases (is_zero b.interval)) [
    | inl idle ↦ rw (idle) (rests (zero-not (clock n) b.interval (lookup b.name s.last_execs) idle))
    | inr active ↦ elim (Bool-cases (too_recent (clock n) b s)) [
      | inl recent ↦ rw (active, recent) (rests (too_recent-not (clock n) b s recent))
      | inr old ↦ elim (Bool-cases (ltb (length s.queue) queue_cap)) [
        | inl room ↦ rw (active, old, room) (puts (too_recent-Due (clock n) b s active old))
        | inr full ↦ rw (active, old, full) (drops (ground arith))
      ]
    ]
  ]

  One-keeps :
      (n : ℕ) (b : BeaconMetadata) (s t : Scheduler) (k : Text)
      → One n b s t
      → b.name ≢ k
      → lookup k t.last_execs ≡ lookup k s.last_execs
  One-keeps n b s _ k (puts d) h = lookup-put_ne b.name k _ s.last_execs h
  One-keeps n b s _ k (rests d) h = refl
  One-keeps n b s _ k (drops d) h = refl

  trigger_all-keeps :
      (n : ℕ) (bs : List BeaconMetadata) (s : Scheduler) (log : List Trigger) (k : Text)
      → All (λ q. q.name ≢ k) bs
      → lookup k (trigger_all clock n bs s log).0.last_execs ≡ lookup k s.last_execs
  unfolding trigger_all
  trigger_all-keeps n [] s log k h = refl
  trigger_all-keeps n (b ∷ bs) s log k (other, h) =
      let r = trigger_one clock n b s in
      trigger_all-keeps (n + 2) bs r.0 (r.1 ++ log) k h
      ∙ One-keeps n b s r.0 k (trigger_one-One n b s) other

  trigger_one-bounded :
      (n : ℕ) (b : BeaconMetadata) (s : Scheduler)
      → length s.queue ≤ queue_cap
      → length (trigger_one clock n b s).0.queue ≤ queue_cap
  unfolding trigger_one
  trigger_one-bounded n b s h = ground (arith, length-append s.queue (b ∷ []))

  trigger_all-bounded :
      (n : ℕ) (bs : List BeaconMetadata) (s : Scheduler) (log : List Trigger)
      → length s.queue ≤ queue_cap
      → length (trigger_all clock n bs s log).0.queue ≤ queue_cap
  unfolding trigger_all
  trigger_all-bounded n [] s log h = h
  trigger_all-bounded n (b ∷ bs) s log h =
      let r = trigger_one clock n b s in
      trigger_all-bounded (n + 2) bs r.0 (r.1 ++ log) (trigger_one-bounded n b s h)

  -- What a tick does with one beacon, at the n-th reading of the clock, given the times noted before the
  -- tick and the state after it: it is due, put on the queue and noted; or it is not due; or the queue is
  -- full. In the last two cases what is noted for it stays.
  pub data Verdict (n : ℕ) (b : BeaconMetadata) (noted : List (Text × ℤ)) (t : Scheduler)
      : List BeaconMetadata → Type 0 where
    triggered :
        Due (clock n) b.interval (lookup b.name noted)
        → lookup b.name t.last_execs ≡ some (pos (clock (n + 1)))
        → Verdict n b noted t (b ∷ [])
    not_due :
        ¬ Due (clock n) b.interval (lookup b.name noted)
        → lookup b.name t.last_execs ≡ lookup b.name noted
        → Verdict n b noted t []
    no_room :
        queue_cap ≤ length t.queue
        → lookup b.name t.last_execs ≡ lookup b.name noted
        → Verdict n b noted t []

  -- The same for each beacon of the registry, in its order, with two readings of the clock each.
  pub data Verdicts (noted : List (Text × ℤ)) (t : Scheduler)
      : ℕ → List BeaconMetadata → List BeaconMetadata → Type 0 where
    over : {n : ℕ} → Verdicts noted t n [] []
    next :
        {n : ℕ} {b : BeaconMetadata} {bs x y : List BeaconMetadata}
        → Verdict n b noted t x
        → Verdicts noted t (n + 2) bs y
        → Verdicts noted t n (b ∷ bs) (x ++ y)

  -- what the rest of the tick leaves of the verdict on one beacon
  decide :
      (n : ℕ) (b : BeaconMetadata) (noted : List (Text × ℤ)) (s s' t : Scheduler)
      (more : List BeaconMetadata)
      → One n b s s'
      → lookup b.name s.last_execs ≡ lookup b.name noted
      → lookup b.name t.last_execs ≡ lookup b.name s'.last_execs
      → t.queue ≡ s'.queue ++ more
      → (x : List BeaconMetadata) × (t.queue ≡ s.queue ++ (x ++ more)) × Verdict n b noted t x
  decide n b noted s _ t more (puts d) old kept q = (
    b ∷ [],
    q ∙ append_assoc s.queue (b ∷ []) more,
    triggered (rw (sym old) d) (kept ∙ lookup-put_same b.name _ s.last_execs),
  )
  decide n b noted s _ t more (rests d) old kept q = ([], q, not_due (rw (sym old) d) (kept ∙ old))
  decide n b noted s _ t more (drops full) old kept q =
      ([], q, no_room (omega (arith, ap length q, length-append s.queue more)) (kept ∙ old))

  trigger_all-Verdicts :
      (n : ℕ) (bs : List BeaconMetadata) (s : Scheduler) (log : List Trigger)
      (noted : List (Text × ℤ))
      → Distinct bs
      → All (λ b. lookup b.name s.last_execs ≡ lookup b.name noted) bs
      → let t = (trigger_all clock n bs s log).0 in
        (got : List BeaconMetadata) × (t.queue ≡ s.queue ++ got) × Verdicts noted t n bs got
  unfolding trigger_all
  trigger_all-Verdicts n [] s log noted d h = ([], sym (append-nil s.queue), over)
  trigger_all-Verdicts n (b ∷ bs) s log noted (others, d) (old, h) =
      let r = trigger_one clock n b s in
      let one = trigger_one-One n b s in
      let same =
        All-zip (λ q. q.name ≢ b.name) (λ q. lookup q.name s.last_execs ≡ lookup q.name noted)
          (λ q. lookup q.name r.0.last_execs ≡ lookup q.name noted)
          (λ q other e. One-keeps n b s r.0 q.name one (λ e. other (sym e)) ∙ e) bs others h in
      let (more, q, rest) = trigger_all-Verdicts (n + 2) bs r.0 (r.1 ++ log) noted d same in
      let kept = trigger_all-keeps (n + 2) bs r.0 (r.1 ++ log) b.name others in
      let (x, whole, verdict) = decide n b noted s r.0 _ more one old kept q in
      (x ++ more, whole, next verdict rest)

  -- After a tick over a registry whose names are distinct, from a queue of 16 at most, the queue is the
  -- old one with the triggered beacons behind it, in the order of the registry, and still holds 16 at
  -- most. A beacon is triggered, and the time of the trigger noted, where it is due, which is that it
  -- has an interval and that no time is noted for it or the interval has passed since; only a full
  -- queue, still full after the tick, keeps a beacon that is due from being triggered. For a beacon that
  -- is not triggered what was noted stays.
  pub check_and_trigger-Verdicts :
      (n : ℕ) (s : Scheduler) (log : List Trigger)
      → Distinct s.registry
      → length s.queue ≤ queue_cap
      → let t = (check_and_trigger clock n s log).0 in
        (got : List BeaconMetadata) × (t.queue ≡ s.queue ++ got)
        × (length t.queue ≤ queue_cap)
        × Verdicts s.last_execs t n s.registry got
  unfolding check_and_trigger
  check_and_trigger-Verdicts n s log d le =
      let (got, q, verdicts) =
        trigger_all-Verdicts n s.registry s log s.last_execs d (unchanged s.registry) in
      (got, q, trigger_all-bounded n s.registry s log le, verdicts)
    where
      unchanged :
          (bs : List BeaconMetadata)
          → All (λ b. lookup b.name s.last_execs ≡ lookup b.name s.last_execs) bs
      unchanged [] = tt
      unchanged (b ∷ bs) = (refl, unchanged bs)
