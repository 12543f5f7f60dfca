-- ===== src/Beacon/Tests.antt =====
-- A scheduler of two beacons, the start with an empty registry, and two executions of a beacon.
use orbitport.Base.{
  ℕ, ◌*◌, ◌≡◌, refl, true, List, [], ◌∷◌, ◌++◌, ◌≤◌, none, some, arith, if◌then◌else◌, length,
}
use orbitport.Base.Int.{pos}
use orbitport.Base.All.{All}
use orbitport.Base.Result.{Result, ok, err}
use orbitport.Text.{Text, lit, text_eq}
use orbitport.Text.Equal.{text_eq_refl, text_eq_iff, text_eq→≢}
use orbitport.Text.Dict.{lookup, put}
use orbitport.Beacon.Types.{BeaconMetadata, BeaconPayload, Block}
use orbitport.Beacon.Scheduler.{
  Event, ticks, received, Trigger, Run, run, step, new_scheduler, check_and_trigger, trigger_all,
  trigger_one, is_zero, too_recent, elapsed_less, queue_cap,
}
use orbitport.Beacon.Scheduler.Spacing.{Monotone, Spaced, run-Spaced}
use orbitport.Beacon.Scheduler.Ticking.{Distinct, Verdicts, check_and_trigger-Verdicts}
use orbitport.Beacon.Ipfs.{
  block, registry, Call, key_info, get, add, publish, wait, trng, seeds, IpfsError, not_found,
  unavailable, Head, failed, World,
}
use orbitport.Beacon.Registry.{Config, load_registry}
use orbitport.Beacon.Registry.Loading.{Ends, load_registry-Ends}
use orbitport.Beacon.Builder.{
  batch_of, seed_of, is_canceled, fetch_ctrngs, load_ctrngs, load_last_beacon_block, append_block,
  execute_with, execute_beacon,
}
use orbitport.Beacon.Builder.Publishing
use orbitport.Beacon.Builder.Publishing.{execute_beacon-Ends}
use orbitport.Beacon.Builder.Chain.{
  IsQuiet, IsHonest, Published, Serial, idle, executed, Chain, executions-Chain,
}

abbrev beacon : Text → ℕ → BeaconMetadata
beacon name interval = record {
  name = name;
  public_key = lit "k51";
  version = lit "1.0";
  encoding = lit "json";
  batch_size = 3;
  message = [];
  interval = pos interval;
}

abbrev two_beacons : List BeaconMetadata
two_beacons = beacon (lit "a") 10 ∷ beacon (lit "b") 0 ∷ []

abbrev clock : ℕ → ℕ
clock n = 3 * n

clock-Monotone : Monotone clock
clock-Monotone = record { le = λ m n h. omega arith }

abbrev events : List Event
events = ticks ∷ ticks ∷ received ∷ ticks ∷ []

run-Spaced_example :
    Spaced
      (run clock events (record { state = new_scheduler two_beacons; reading = 0; log = [] })).log
unfolding new_scheduler
run-Spaced_example = run-Spaced clock clock-Monotone events (new_scheduler two_beacons)

abbrev start : Run
start = record {
  state = record { registry = two_beacons; queue = []; last_execs = [] };
  reading = 0;
  log = [];
}

two_beacons-Distinct : Distinct two_beacons
unfolding text_eq
two_beacons-Distinct = ((text_eq→≢ (lit "b") (lit "a") refl, tt), (tt, tt))

check_and_trigger-Verdicts_example :
    let t = (check_and_trigger clock 0 start.state []).0 in
    (got : List BeaconMetadata) × (t.queue ≡ [] ++ got)
    × (length t.queue ≤ queue_cap)
    × Verdicts clock [] t 0 two_beacons got
check_and_trigger-Verdicts_example =
    check_and_trigger-Verdicts clock 0 start.state [] two_beacons-Distinct (omega arith)

abbrev times : List Trigger → List ℕ
times [] = []
times (t ∷ log) = t.at ∷ times log

-- The beacon "a" is triggered at 3 and, with 10 nanoseconds over, at 27; "b" has no interval.
run_log : times (run clock events start).log ≡ 27 ∷ 3 ∷ []
unfolding run step check_and_trigger trigger_all trigger_one is_zero too_recent elapsed_less lookup
    put text_eq
run_log = refl

-- what a name leads to: the block last published under it, behind a slash
abbrev head_of : Text → List Call → Result IpfsError Head
head_of cid (add (block b) ∷ h) =
    ok (record { path = 47 ∷ cid; as_block = some b; as_registry = none })
head_of cid (add (registry r) ∷ h) =
    ok (record { path = 47 ∷ cid; as_block = none; as_registry = some r })
head_of cid [] = err unavailable
head_of cid (key_info n ∷ h) = err unavailable
head_of cid (get n ∷ h) = err unavailable
head_of cid (publish c n ∷ h) = err unavailable
head_of cid (wait n ∷ h) = err unavailable
head_of cid (trng ∷ h) = err unavailable
head_of cid (seeds n ∷ h) = err unavailable

abbrev resolve : Text → List Call → Result IpfsError Head
resolve name [] = err not_found
resolve name (publish cid n ∷ h) = if text_eq n name then head_of cid h else resolve name h
resolve name (key_info n ∷ h) = resolve name h
resolve name (get n ∷ h) = resolve name h
resolve name (add c ∷ h) = resolve name h
resolve name (wait n ∷ h) = resolve name h
resolve name (trng ∷ h) = resolve name h
resolve name (seeds n ∷ h) = resolve name h

-- CIDs count the calls; the generator does not answer, the pool does.
abbrev world : World
world = record {
  key_info_reply = λ h. ok none;
  get_reply = λ h. elim h [
    | [] ↦ err unavailable
    | c ∷ k ↦ elim c [ get n ↦ resolve n k | _ ↦ err unavailable ]
  ];
  add_reply = λ h. ok (length h ∷ []);
  publish_reply = λ h. ok (lit "k51");
  trng_reply = λ h. err failed;
  seeds_reply = λ h. ok (lit "ab" ∷ []);
  fires = λ h. true;
  delivers = λ h. true;
  now = λ h. pos (length h);
}

abbrev config : Config
config = record {
  registry_alias = lit "reg";
  beacon_name = lit "a";
  beacon_msg = [];
  beacon_interval = pos 60;
}

load_registry-Ends_example : Ends world config [] (load_registry world config [])
load_registry-Ends_example = load_registry-Ends world config []

execute_beacon-Ends_example :
    Publishing.Ends world (beacon (lit "a") 10) [] (execute_beacon world (beacon (lit "a") 10) [])
execute_beacon-Ends_example = execute_beacon-Ends world (beacon (lit "a") 10) []

resolve_published :
    (name cid : Text) (b : Block) (others rest : List Call)
    → All (IsQuiet name) others
    → resolve name (others ++ publish cid name ∷ add (block b) ∷ rest)
      ≡ ok (record { path = 47 ∷ cid; as_block = some b; as_registry = none })
resolve_published name cid b [] rest q = rw (text_eq_refl name) refl
resolve_published name cid b (publish c n ∷ os) rest (other, q) =
    ground (arith, text_eq_iff n name, resolve_published name cid b os rest q)
resolve_published name cid b (key_info n ∷ os) rest (_, q) = resolve_published name cid b os rest q
resolve_published name cid b (get n ∷ os) rest (_, q) = resolve_published name cid b os rest q
resolve_published name cid b (add c ∷ os) rest (_, q) = resolve_published name cid b os rest q
resolve_published name cid b (wait n ∷ os) rest (_, q) = resolve_published name cid b os rest q
resolve_published name cid b (trng ∷ os) rest (_, q) = resolve_published name cid b os rest q
resolve_published name cid b (seeds n ∷ os) rest (_, q) = resolve_published name cid b os rest q

world-IsHonest : IsHonest world (λ cid. 47 ∷ cid)
world-IsHonest name cid key b others rest head added published q e =
    let found = resolve_published name cid b others rest q in (cc, cc)

-- The second block is linked to the path of the first.
abbrev genesis_calls : List Call
genesis_calls =
    publish (lit "c0") (lit "a")
    ∷ add (
        block (record {
          link = [];
          payload = some (record { sequence = 0; timestamp = pos 0; ctrng = [] });
          metadata = none;
        }))
    ∷ []

abbrev published : Text → Text → ℕ → ℕ → Published
published cid link n time =
    let payload : BeaconPayload = record {
      sequence = n;
      timestamp = pos time;
      ctrng = lit "ab" ∷ [];
    } in
    record {
      cid = cid;
      content = record { link = link; payload = some payload; metadata = none };
      payload = payload;
    }

abbrev two_blocks : List Published
two_blocks = published (6 ∷ []) (lit "/c0") 1 5 ∷ published (12 ∷ []) (47 ∷ 6 ∷ []) 2 11 ∷ []

two_blocks-Serial : Serial world (beacon (lit "a") 10) genesis_calls two_blocks
unfolding execute_beacon load_ctrngs fetch_ctrngs batch_of seed_of is_canceled
    load_last_beacon_block execute_with append_block text_eq
two_blocks-Serial =
    executed _ (wait 10 ∷ []) _ _ _ refl (tt, tt) (executed _ [] _ _ _ refl tt (idle _))

executions-Chain_example : Chain world (beacon (lit "a") 10) (λ cid. 47 ∷ cid) two_blocks
executions-Chain_example =
    executions-Chain world (beacon (lit "a") 10) (λ cid. 47 ∷ cid) world-IsHonest two_blocks
      genesis_calls two_blocks-Serial
