-- ===== src/Threshold/Tests.antt =====
-- A key generation of two nodes, from its request to the key.
use orbitport.Base.{ℕ, ◌≡◌, ◌≢◌, refl, true, List, [], ◌∷◌, Option, none, some, arith, ◌↔◌}
use orbitport.Base.Int.{ℤ, pos}
use orbitport.Base.All.{All}
use orbitport.Base.Result.{Result, ok, err}
use orbitport.Text.{Text, lit, text_eq, trim_space, trim_func, trim_left, trim_right, is_space}
use orbitport.Text.Equal.{text_eq→≢}
use orbitport.Threshold.Request.{
  GroupMember, ProtoRequest, DkgParticipant, DkgRequest, dkg_request_from_proto, accept_all, accept,
  seen_id, seen_index, index_in, insert_by_index, sort_by_index, threshold_ok,
}
use orbitport.Threshold.Request.Sorting.{Different}
use orbitport.Threshold.Request.Validation.{ValidRequest, dkg_request_from_proto-ValidRequest}
use orbitport.Threshold.Session.{
  DkgStatus, Call, starts, delivers, proceeds, waits, CallError, status_code, Environment,
  Coordinator, attempts_of, call_with_retry, retry_loop, is_retryable,
}
use orbitport.Threshold.Session.Retry.{Tried, call_with_retry-Tried}
use orbitport.Threshold.Coordinate.{
  Outputs, Bootstrap, DkgResult, derive_seed, pair_label, new_dkg_bootstrap, agree, coordinate_dkg,
  pair_all, pair_with, set_pair,
}
use orbitport.Threshold.Coordinate.Pairwise.{IsSymmetric, PairsShare, new_dkg_bootstrap-PairsShare}
use orbitport.Threshold.Coordinate.Agreement.{CompletedWith, agree_iff}

abbrev member : Text → ℤ → Option GroupMember
member id index =
    some (record {
      node_id = id;
      party_index = index;
      openbao_url = lit " http://bao ";
      mount = lit "";
    })

-- The members come in the wrong order, and with spaces around their names.
abbrev proto_request : ProtoRequest
proto_request = record {
  key_name = lit " key ";
  group_name = lit "group";
  session_id = lit "s1";
  threshold = pos 2;
  participants = member (lit "b ") (pos 1) ∷ member (lit "a") (pos 0) ∷ [];
}

abbrev participant : Text → ℕ → DkgParticipant
participant id i = record {
  node_id = id;
  party_index = i;
  client = record {
    node_id = id;
    party_index = pos i;
    openbao_url = lit "http://bao";
    mount = lit "";
  };
}

abbrev request : DkgRequest
request = record {
  key_name = lit "key";
  group_name = lit "group";
  session_id = lit "s1";
  threshold = pos 2;
  participants = participant (lit "a") 0 ∷ participant (lit "b") 1 ∷ [];
}

request_read : dkg_request_from_proto (some proto_request) ≡ ok request
unfolding text_eq trim_space trim_func trim_left trim_right is_space dkg_request_from_proto
    accept_all accept seen_id seen_index index_in insert_by_index sort_by_index threshold_ok
request_read = refl

dkg_request_from_proto-ValidRequest_example : ValidRequest proto_request request
dkg_request_from_proto-ValidRequest_example =
    dkg_request_from_proto-ValidRequest proto_request request request_read

abbrev coordinator : Coordinator
coordinator = record {
  seed_bytes = 2;
  session_secret = 1 ∷ 2 ∷ [];
  retry_attempts = pos 3;
  retry_backoff = 10;
}

abbrev status_at : DkgParticipant → ℕ → DkgStatus
status_at p round = record {
  name = lit "key";
  group = lit "group";
  session_id = lit "s1";
  node_id = p.node_id;
  status = lit "dkg_completed";
  round = pos round;
  broadcast = lit "to all";
  unicasts = (lit "a", lit "to a") ∷ (lit "b", lit "to b") ∷ [];
  pending_from = [];
  public_key = lit "pk";
}

answer : List Call → Result CallError (Option DkgStatus)
answer [] = ok none
answer (starts p r ∷ h) = ok (some (status_at p 1))
answer (delivers p k m ∷ h) = ok none
answer (proceeds p k n ∷ h) = ok (some (status_at p n))
answer (waits d ∷ h) = ok none

abbrev nodes_up : Environment
nodes_up = record { reply = answer; fires = λ h. true }

-- The first call of all fails with 503, and the later ones are answered.
answer_late : List Call → Result CallError (Option DkgStatus)
unfolding answer
answer_late (c ∷ []) = err (status_code 503)
answer_late h = answer h

abbrev busy_node : Environment
busy_node = record { reply = answer_late; fires = λ h. true }

abbrev node_a : DkgParticipant
node_a = participant (lit "a") 0

retried : call_with_retry busy_node coordinator (proceeds node_a (lit "key") 2) [] ≡ (
  ok (some (status_at node_a 2)),
  proceeds node_a (lit "key") 2 ∷ waits 10 ∷ proceeds node_a (lit "key") 2 ∷ [],
)
unfolding call_with_retry retry_loop attempts_of is_retryable answer_late answer
retried = refl

call_with_retry-Tried_example :
    Tried busy_node
      (proceeds node_a (lit "key") 2)
      (attempts_of coordinator.retry_attempts)
      []
      (call_with_retry busy_node coordinator (proceeds node_a (lit "key") 2) [])
call_with_retry-Tried_example =
    call_with_retry-Tried busy_node (proceeds node_a (lit "key") 2) tt coordinator []

apart : Different request.participants
unfolding text_eq
apart = (((text_eq→≢ (lit "b") (lit "a") refl, (λ e. omega arith)), tt), (tt, tt))

-- a stand-in for HMAC
abbrev mac : List ℕ → List ℕ → List ℕ
mac key message = message

abbrev bootstrap : Bootstrap
bootstrap = elim (new_dkg_bootstrap mac coordinator request) [
  | ok b ↦ b
  | err e ↦ record { common_seed = []; pairwise_seeds = λ a b. none }
]

bootstrap_made : new_dkg_bootstrap mac coordinator request ≡ ok bootstrap
unfolding text_eq new_dkg_bootstrap pair_all pair_with set_pair derive_seed
bootstrap_made = refl

new_dkg_bootstrap-PairsShare_example :
    (coordinator.session_secret ≢ [])
    × IsSymmetric bootstrap.pairwise_seeds
    × PairsShare
        (λ left right.
          derive_seed mac coordinator request.session_id request.key_name (pair_label left right))
        bootstrap.pairwise_seeds
        request.participants
new_dkg_bootstrap-PairsShare_example =
    new_dkg_bootstrap-PairsShare mac coordinator request bootstrap apart bootstrap_made

abbrev outputs : Outputs
outputs = (lit "a", status_at node_a 4) ∷ (lit "b", status_at (participant (lit "b") 1) 4) ∷ []

agree_iff_example :
    (agree [] outputs ≡ ok (lit "pk")) ↔ ((lit "pk" ≢ []) × All (CompletedWith (lit "pk")) outputs)
agree_iff_example =
    agree_iff (lit "pk") (lit "a", status_at node_a 4)
      ((lit "b", status_at (participant (lit "b") 1) 4) ∷ [])

abbrev result : DkgResult
result = record {
  public_key = lit "pk";
  nodes = outputs;
  key_name = lit "key";
  group_name = lit "group";
  session_id = lit "s1";
}

abbrev calls : List Call
calls = (coordinate_dkg nodes_up mac coordinator request []).1

-- Two pairs of nodes with one label.
labels_coincide : pair_label (lit "a:b") (lit "c") ≡ pair_label (lit "a") (lit "b:c")
labels_coincide = refl
