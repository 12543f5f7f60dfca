-- ===== src/Threshold/Coordinate.antt =====
-- plugins/pkg/plugin/threshold/coordinator.go: the seeds of a session and the four rounds.
pub mod Pairwise
pub mod Agreement
pub mod Delivery
pub mod Answers
pub mod Rounds
pub mod Success
use orbitport.Base.{
  ℕ, zero, suc, ◌+◌, Bool, true, false, not, List, [], ◌∷◌, ◌++◌, Option, none, some, ltb, ◌==◌,
  ◌||◌, ◌&&◌, if◌then◌else◌, take,
}
use orbitport.Base.Int.{ℤ, pos, negsuc}
use orbitport.Base.Traced.{Traced, ◌>>=◌, ◌>>◌, return, lift, >>=-ok, step_ok, step_err}
use orbitport.Base.Result.{Result, ok, err}
use orbitport.Text.{Text, text_eq, is_empty, lit, utf8}
use orbitport.Base64
use orbitport.Text.Dict.{lookup, put}
use orbitport.Threshold.Request.{DkgParticipant, DkgRequest}
use orbitport.Threshold.Session.{
  DkgStatus, StartRequest, DeliverRequest, Call, starts, delivers, proceeds, Environment, DkgError,
  session_secret_required, nil_status, wrong_round, empty_broadcast, no_unicasts, missing_output,
  missing_unicast, not_completed, no_public_key, different_public_key, nil_dereference, M,
  Coordinator, call_with_retry,
}

abbrev pub Outputs : Type 0
Outputs = List (Text × DkgStatus)

-- `output.Unicasts[receiver.NodeID]`, the empty text where it is missing
unfoldable pub unicast_for : Text → List (Text × Text) → Text
unicast_for k m = elim (lookup k m) [ none ↦ [] | some t ↦ t ]

-- `deriveSeed`; `mac` is HMAC-SHA-512 of a key and a message.
unfoldable pub derive_seed : (List ℕ → List ℕ → List ℕ) → Coordinator → Text → Text → Text → Text
derive_seed mac c session_id key_name label =
    let message =
      utf8 (lit "orbitport-threshold-bootstrap")
      ++ (0 ∷ utf8 session_id ++ (0 ∷ utf8 key_name ++ (0 ∷ utf8 label))) in
    Base64.encode (take c.seed_bytes (mac c.session_secret message))

-- the label of the seed of two nodes
abbrev pub pair_label : Text → Text → Text
pair_label left right = lit "pairwise:" ++ (left ++ (lit ":" ++ right))

abbrev pub SeedMap : Type 0
SeedMap = Text → Text → Option Text

-- `m[left][right] = seed; m[right][left] = seed`
unfoldable pub set_pair : Text → Text → Text → SeedMap → SeedMap
set_pair left right seed m a b =
    if text_eq right a && text_eq left b
    then some seed
    else if text_eq left a && text_eq right b
    then some seed
    else m a b

module _ (seed_of : Text → Text → Text) where
  -- the inner loop over the participants behind `left`
  unfoldable pub pair_with : Text → List DkgParticipant → SeedMap → SeedMap
  pair_with left [] m = m
  pair_with left (q ∷ qs) m = pair_with left qs (set_pair left q.node_id (seed_of left q.node_id) m)

  unfoldable pub pair_all : List DkgParticipant → SeedMap → SeedMap
  unfolding pair_with
  pair_all [] m = m
  pair_all (p ∷ ps) m = pair_all ps (pair_with p.node_id ps m)

pub record Bootstrap : Type 0 where
  pub common_seed : Text
  pub pairwise_seeds : SeedMap

unfoldable pub new_dkg_bootstrap :
    (List ℕ → List ℕ → List ℕ) → Coordinator → DkgRequest → Result DkgError Bootstrap
new_dkg_bootstrap mac c req =
    let seed_of = λ (left : Text) (right : Text).
      derive_seed mac c req.session_id req.key_name (pair_label left right) in
    if is_empty c.session_secret
    then err session_secret_required
    else ok (record {
      common_seed = derive_seed mac c req.session_id req.key_name (lit "common");
      pairwise_seeds = pair_all seed_of req.participants (λ a b. none);
    })

-- `status.Round != round`
unfoldable pub is_round : ℕ → ℤ → Bool
is_round n (pos r) = r == n
is_round n (negsuc r) = false

-- `requireRoundOutput`, with the status behind the pointer
unfoldable pub require_round_output : ℕ → Option DkgStatus → Result DkgError DkgStatus
require_round_output round none = err nil_status
require_round_output round (some s) =
    if not (is_round round s.round)
    then err wrong_round
    else if is_empty s.broadcast
    then err empty_broadcast
    else if round == 2 && is_empty s.unicasts
    then err no_unicasts
    else ok s

-- `*status`, where nothing was required of it
unfoldable pub dereference : Option DkgStatus → Result DkgError DkgStatus
dereference none = err nil_dereference
dereference (some s) = ok s

abbrev pub start_request : DkgRequest → Bootstrap → DkgParticipant → StartRequest
start_request req b p = record {
  key_name = req.key_name;
  group_name = req.group_name;
  session_id = req.session_id;
  common_seed = b.common_seed;
  pairwise_seeds = b.pairwise_seeds p.node_id;
}

-- what one sender gives one receiver
unfoldable pub message_for :
    Outputs → ℕ → DkgParticipant → DkgParticipant → Result DkgError DeliverRequest
message_for outputs round receiver sender = elim (lookup sender.node_id outputs) [
  | none ↦ err missing_output
  | some output ↦
      let unicast = if round == 2 then unicast_for receiver.node_id output.unicasts else [] in
      if round == 2 && is_empty unicast
      then err missing_unicast
      else ok (record {
        round = round;
        from = sender.node_id;
        broadcast = output.broadcast;
        unicast = unicast;
      })
]

module _ (env : Environment) (c : Coordinator) where
  unfoldable pub start_dkg : DkgRequest → Bootstrap → List DkgParticipant → Outputs → M Outputs
  start_dkg req b [] outputs = return outputs
  start_dkg req b (p ∷ ps) outputs = do
    status ← call_with_retry env c (starts p (start_request req b p))
    s ← lift (require_round_output 1 status)
    start_dkg req b ps (put p.node_id s outputs)

  unfoldable pub proceed_round : Text → ℕ → List DkgParticipant → Outputs → M Outputs
  proceed_round key round [] outputs = return outputs
  proceed_round key round (p ∷ ps) outputs = do
    status ← call_with_retry env c (proceeds p key round)
    s ← lift (if ltb round 4 then require_round_output round status else dereference status)
    proceed_round key round ps (put p.node_id s outputs)

  -- the inner loop of `deliverRound`
  unfoldable pub deliver_to :
      Text → Outputs → ℕ → DkgParticipant → List DkgParticipant → M (Unit {0})
  deliver_to key outputs round receiver [] = return tt
  deliver_to key outputs round receiver (sender ∷ senders) =
      let rest = deliver_to key outputs round receiver senders in
      if text_eq sender.node_id receiver.node_id then rest else do
        message ← lift (message_for outputs round receiver sender)
        status ← call_with_retry env c (delivers receiver key message)
        rest

  unfoldable pub deliver_all :
      Text → Outputs → ℕ → List DkgParticipant → List DkgParticipant → M (Unit {0})
  deliver_all key outputs round [] senders = return tt
  deliver_all key outputs round (receiver ∷ receivers) senders = do
    deliver_to key outputs round receiver senders
    deliver_all key outputs round receivers senders

-- The check of the last round over the nodes, with the public key found so far.
unfoldable pub agree : Text → Outputs → Result DkgError Text
agree key [] = ok key
agree key ((id, s) ∷ nodes) =
    let rest = agree (if is_empty key then s.public_key else key) nodes in
    if not (text_eq s.status (lit "dkg_completed"))
    then err not_completed
    else if is_empty s.public_key
    then err no_public_key
    else if not (is_empty key) && not (text_eq s.public_key key)
    then err different_public_key
    else rest

pub record DkgResult : Type 0 where
  pub public_key : Text
  pub nodes : Outputs
  pub key_name : Text
  pub group_name : Text
  pub session_id : Text

unfoldable pub coordinate_dkg :
    Environment → (List ℕ → List ℕ → List ℕ) → Coordinator → DkgRequest → M DkgResult
coordinate_dkg env mac c req = do
  bootstrap ← lift (new_dkg_bootstrap mac c req)
  round1 ← start_dkg env c req bootstrap req.participants []
  deliver_all env c req.key_name round1 1 req.participants req.participants
  round2 ← proceed_round env c req.key_name 2 req.participants []
  deliver_all env c req.key_name round2 2 req.participants req.participants
  round3 ← proceed_round env c req.key_name 3 req.participants []
  deliver_all env c req.key_name round3 3 req.participants req.participants
  completed ← proceed_round env c req.key_name 4 req.participants []
  public_key ← lift (agree [] completed)
  return (record {
    public_key = public_key;
    nodes = completed;
    key_name = req.key_name;
    group_name = req.group_name;
    session_id = req.session_id;
  })
