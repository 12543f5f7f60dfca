-- ===== src/Beacon/Scheduler/Spacing.antt =====
-- Two triggers of one beacon lie its interval apart.
use orbitport.Base.{
  ℕ, ◌+◌, ◌*◌, ◌≤◌, ◌≡◌, refl, ◌∙◌, subst, false, List, [], ◌∷◌, ◌++◌, some, ltb, length, drop,
  arith, Bool-cases, inl, inr,
}
use orbitport.Base.All.{All, All-map, All-zip}
use orbitport.Base.Int.{ℤ, pos, negsuc}
use orbitport.Text.{text_eq}
use orbitport.Text.Equal.{text_eq_iff}
use orbitport.Text.Dict.{lookup, put, lookup-put}
use orbitport.Beacon.Types.{BeaconMetadata}
use orbitport.Beacon.Scheduler.{
  Scheduler, is_zero, elapsed_less, too_recent, queue_cap, Trigger, trigger_one, trigger_all,
  check_and_trigger, Event, ticks, received, Run, step, run,
}

-- The first time and the interval end before the second time.
abbrev pub Apart : ℕ → ℤ → ℕ → Type 0
Apart first (pos i) second = first + i ≤ second
Apart first (negsuc i) second = first ≤ second + (i + 1)

-- Each trigger, newest first, lies its beacon's interval behind the earlier ones of the same name.
abbrev pub Spaced : List Trigger → Type 0
Spaced [] = Unit
Spaced (t ∷ log) =
    All (λ e. e.beacon.name ≡ t.beacon.name → Apart e.at t.beacon.interval t.at) log × Spaced log

-- The clock does not go back.
pub record Monotone (clock : ℕ → ℕ) : Type 0 where
  pub le : (m n : ℕ) → m ≤ n → clock m ≤ clock n

-- Of the trigger's name, a time not before it is noted.
record Noted (s : Scheduler) (e : Trigger) : Type 0 where
  time : ℕ
  found : lookup e.beacon.name s.last_execs ≡ some (pos time)
  not_before : e.at ≤ time

module _ (clock : ℕ → ℕ) (mono : Monotone clock) where
  -- What holds before the n-th reading of the clock.
  record Inv (n : ℕ) (s : Scheduler) (log : List Trigger) : Type 0 where
    spaced : Spaced log
    past : All (λ e. e.at ≤ clock n) log
    noted : All (Noted s) log

  elapsed-Apart :
      (now last at stamp : ℕ) (i : ℤ)
      → elapsed_less now (pos last) i ≡ false
      → at ≤ last
      → at ≤ now
      → now ≤ stamp
      → Apart at i stamp
  unfolding elapsed_less
  elapsed-Apart now last at stamp (pos i) e a b c = ground arith
  elapsed-Apart now last at stamp (negsuc i) e a b c = omega arith

  too_recent_at :
      (now last : ℕ) (b : BeaconMetadata) (s : Scheduler)
      → too_recent now b s ≡ false
      → lookup b.name s.last_execs ≡ some (pos last)
      → elapsed_less now (pos last) b.interval ≡ false
  unfolding too_recent
  too_recent_at now last b s e f = rw (f, too_recent) at e

  -- The state and the log when a beacon is put on the queue.
  abbrev queued : ℕ → BeaconMetadata → Scheduler → Scheduler
  queued n b s = record s {
    queue = s.queue ++ b ∷ [];
    last_execs = put b.name (pos (clock (n + 1))) s.last_execs;
  }

  Noted-queued :
      (n : ℕ) (b : BeaconMetadata) (s : Scheduler) (e : Trigger)
      → Noted s e
      → e.at ≤ clock n
      → Noted (queued n b s) e
  Noted-queued n b s e k p = elim (Bool-cases (text_eq b.name e.beacon.name)) [
    | inl same ↦ record {
      time = clock (n + 1);
      found = lookup-put b.name e.beacon.name _ s.last_execs ∙ rw same refl;
      not_before = omega (arith, mono.le n (n + 1));
    }
    | inr other ↦ record {
      time = k.time;
      found = lookup-put b.name e.beacon.name _ s.last_execs ∙ rw other k.found;
      not_before = k.not_before;
    }
  ]

  Inv-queued :
      (n : ℕ) (b : BeaconMetadata) (s : Scheduler) (log : List Trigger)
      → too_recent (clock n) b s ≡ false
      → Inv n s log
      → Inv (n + 2) (queued n b s) (record { beacon = b; at = clock (n + 1) } ∷ log)
  Inv-queued n b s log old v =
      let t : Trigger = record { beacon = b; at = clock (n + 1) } in
      let up = mono.le n (n + 1) (omega arith) in
      record {
        spaced = (
          All-zip (λ e. e.at ≤ clock n) (Noted s)
              (λ e. e.beacon.name ≡ b.name → Apart e.at b.interval (clock (n + 1)))
              (λ e p k same.
                elapsed-Apart (clock n) k.time e.at (clock (n + 1)) b.interval
                  (too_recent_at (clock n) k.time b s old
                    (subst (λ x. lookup x s.last_execs ≡ some (pos k.time)) same k.found))
                  k.not_before p up)
              log v.past v.noted,
          v.spaced,
        );
        past = (
          mono.le (n + 1) (n + 2) (omega arith),
          All-map (λ e. e.at ≤ clock n) (λ e. e.at ≤ clock (n + 2))
              (λ e p. omega (arith, mono.le n (n + 2))) log v.past,
        );
        noted = (
          record {
            time = clock (n + 1);
            found =
                lookup-put b.name b.name _ s.last_execs
                ∙ rw ((text_eq_iff b.name b.name).1 refl) refl;
            not_before = omega arith;
          },
          All-zip (λ e. e.at ≤ clock n) (Noted s) (Noted (queued n b s))
              (λ e p k. Noted-queued n b s e k p) log v.past v.noted,
        );
      }

  Inv-later : (m n : ℕ) (s : Scheduler) (log : List Trigger) → m ≤ n → Inv m s log → Inv n s log
  Inv-later m n s log h v = record {
    spaced = v.spaced;
    past =
        All-map (λ e. e.at ≤ clock m) (λ e. e.at ≤ clock n) (λ e p. omega (arith, mono.le m n h))
          log v.past;
    noted = v.noted;
  }

  trigger_one-Inv :
      (n : ℕ) (b : BeaconMetadata) (s : Scheduler) (log : List Trigger)
      → Inv n s log
      → let r = trigger_one clock n b s in Inv (n + 2) r.0 (r.1 ++ log)
  unfolding trigger_one
  trigger_one-Inv n b s log v =
      let kept = Inv-later n (n + 2) s log (omega arith) v in
      elim (Bool-cases (is_zero b.interval)) [
        | inl idle ↦ rw (idle) kept
        | inr active ↦ elim (Bool-cases (too_recent (clock n) b s)) [
          | inl recent ↦ rw (active, recent) kept
          | inr old ↦ elim (Bool-cases (ltb (length s.queue) queue_cap)) [
            | inl room ↦ rw (active, old, room) (Inv-queued n b s log old v)
            | inr full ↦ rw (active, old, full) kept
          ]
        ]
      ]

  trigger_all-Inv :
      (n : ℕ) (bs : List BeaconMetadata) (s : Scheduler) (log : List Trigger)
      → Inv n s log
      → let r = trigger_all clock n bs s log in Inv (n + 2 * length bs) r.0 r.1
  unfolding trigger_all
  trigger_all-Inv n [] s log v = Inv-later n (n + 2 * 0) s log (omega arith) v
  trigger_all-Inv n (b ∷ bs) s log v =
      let r = trigger_one clock n b s in
      let rest = trigger_all-Inv (n + 2) bs r.0 (r.1 ++ log) (trigger_one-Inv n b s log v) in
      Inv-later _ _ _ _ (omega arith) rest

  step-Inv :
      (e : Event) (r : Run)
      → Inv r.reading r.state r.log
      → let r' = step clock e r in Inv r'.reading r'.state r'.log
  unfolding step check_and_trigger
  step-Inv ticks r v = trigger_all-Inv r.reading r.state.registry r.state r.log v
  step-Inv received r v = record {
    spaced = v.spaced;
    past = v.past;
    noted =
        All-map (Noted r.state) (Noted (record r.state { queue = drop 1 r.state.queue }))
          (λ e k. record { time = k.time; found = k.found; not_before = k.not_before }) r.log
          v.noted;
  }

  run-Inv :
      (es : List Event) (r : Run)
      → Inv r.reading r.state r.log
      → let r' = run clock es r in Inv r'.reading r'.state r'.log
  unfolding run
  run-Inv [] r v = v
  run-Inv (e ∷ es) r v = run-Inv es (step clock e r) (step-Inv e r v)

  -- Over any ticks and receipts from a scheduler that has triggered nothing yet, each trigger lies at
  -- least its beacon's interval behind every earlier trigger of the same name, when the clock does not
  -- go back: whatever the scheduler had noted, and whether the queue was full in between.
  pub run-Spaced :
      (es : List Event) (s : Scheduler)
      → Spaced (run clock es (record { state = s; reading = 0; log = [] })).log
  run-Spaced es s =
      (run-Inv es (record { state = s; reading = 0; log = [] })
        (record { spaced = tt; past = tt; noted = tt })).spaced
