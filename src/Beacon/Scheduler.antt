-- ===== src/Beacon/Scheduler.antt =====
-- plugins/pkg/plugin/beacon/scheduler.go: which beacons are put on the queue, and when. A tick is one
-- step, since it holds the lock. The clock gives the time of its n-th reading in nanoseconds; a tick
-- reads it twice for each beacon.
pub mod Spacing
pub mod Ticking
use orbitport.Base.{
  ℕ, zero, suc, ◌+◌, ◌*◌, Bool, true, false, not, List, [], ◌∷◌, ◌++◌, Option, none, some, ltb,
  ◌==◌, if◌then◌else◌, length, drop,
}
use orbitport.Base.Int.{ℤ, pos, negsuc}
use orbitport.Base.Result.{Result, ok, err}
use orbitport.Text.{Text}
use orbitport.Text.Dict.{lookup, put}
use orbitport.Beacon.Types.{BeaconMetadata, BeaconPayload}

pub record Scheduler : Type 0 where
  pub registry : List BeaconMetadata
  pub queue : List BeaconMetadata
  pub last_execs : List (Text × ℤ)

unfoldable pub new_scheduler : List BeaconMetadata → Scheduler
new_scheduler registry = record { registry = registry; queue = []; last_execs = [] }

-- the room of the channel
abbrev pub queue_cap : ℕ
queue_cap = 16

-- `beacon.Interval == 0`
unfoldable pub is_zero : ℤ → Bool
is_zero (pos n) = n == 0
is_zero (negsuc n) = false

-- `time.Since(last) < interval`, at the time `now`
unfoldable pub elapsed_less : ℕ → ℤ → ℤ → Bool
elapsed_less now (pos last) (pos i) = ltb now (last + i)
elapsed_less now (pos last) (negsuc i) = ltb (now + i + 1) last
elapsed_less now (negsuc last) (pos i) = ltb (now + last + 1) i
elapsed_less now (negsuc last) (negsuc i) = false

unfoldable pub too_recent : ℕ → BeaconMetadata → Scheduler → Bool
too_recent now b s = elim (lookup b.name s.last_execs) [
  | none ↦ false
  | some last ↦ elapsed_less now last b.interval
]

-- A beacon that was put on the queue, with the time that was noted for it.
pub record Trigger : Type 0 where
  pub beacon : BeaconMetadata
  pub at : ℕ

module _ (clock : ℕ → ℕ) where
  -- One turn of the loop, from the n-th reading of the clock.
  unfoldable pub trigger_one : ℕ → BeaconMetadata → Scheduler → Scheduler × List Trigger
  trigger_one n b s =
      if is_zero b.interval
      then (s, [])
      else if too_recent (clock n) b s
      then (s, [])
      else if ltb (length s.queue) queue_cap
      then (
        record s {
          queue = s.queue ++ b ∷ [];
          last_execs = put b.name (pos (clock (n + 1))) s.last_execs;
        },
        record { beacon = b; at = clock (n + 1) } ∷ [],
      )
      else (s, [])

  -- The loop, with the triggers before it; the newest comes first.
  unfoldable pub trigger_all :
      ℕ → List BeaconMetadata → Scheduler → List Trigger → Scheduler × List Trigger
  trigger_all n [] s log = (s, log)
  trigger_all n (b ∷ bs) s log =
      let r = trigger_one n b s in trigger_all (n + 2) bs r.0 (r.1 ++ log)

  unfoldable pub check_and_trigger : ℕ → Scheduler → List Trigger → Scheduler × List Trigger
  check_and_trigger n s log = trigger_all n s.registry s log

-- What happens to the scheduler: a tick, or the builder takes a beacon from the queue.
pub data Event : Type 0 where
  ticks received : Event

-- The scheduler, the number of the next reading of the clock, and the triggers so far.
pub record Run : Type 0 where
  pub state : Scheduler
  pub reading : ℕ
  pub log : List Trigger

unfoldable pub step : (ℕ → ℕ) → Event → Run → Run
step clock ticks r =
    let (s, log) = check_and_trigger clock r.reading r.state r.log in
    record { state = s; reading = r.reading + 2 * length r.state.registry; log = log }
step clock received r = record r { state = record r.state { queue = drop 1 r.state.queue } }

unfoldable pub run : (ℕ → ℕ) → List Event → Run → Run
run clock [] r = r
run clock (e ∷ es) r = run clock es (step clock e r)

-- The nanoseconds of `time.Unix(timestamp, 0)`.
unfoldable pub unix_time : ℤ → ℤ
unix_time (pos t) = pos (t * 1_000_000_000)
unix_time (negsuc t) = negsuc (t * 1_000_000_000 + 999_999_999)

-- `updateLastExecs`: the last blocks are loaded in the order of the registry; a block that cannot be
-- loaded is passed over, and one without a payload is dereferenced, which panics.
unfoldable pub update_last_execs :
    (Text → Result (Unit {0}) (Option BeaconPayload))
    → List BeaconMetadata
    → Scheduler
    → Option Scheduler
update_last_execs load [] s = some s
update_last_execs load (b ∷ bs) s = elim (load b.name) [
  | err e ↦ update_last_execs load bs s
  | ok none ↦ none
  | ok (some p) ↦
      update_last_execs load bs
        (record s { last_execs = put b.name (unix_time p.timestamp) s.last_execs })
]
