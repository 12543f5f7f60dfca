-- ===== src/Threshold/Request.antt =====
-- plugins/pkg/plugin/threshold/plugin.go: `dkgRequestFromProto`, guard by guard.
pub mod Sorting
pub mod Validation
use orbitport.Base.{
  ℕ, zero, suc, ◌+◌, ◌<◌, ◌≤◌, Bool, true, false, not, List, [], ◌∷◌, ◌++◌, Option, none, some, ltb,
  leb, ◌==◌, ◌||◌, ◌&&◌, if◌then◌else◌, length,
}
use orbitport.Base.Int.{ℤ, pos, negsuc}
use orbitport.Base.Result.{Result, ok, err, ◌>>=◌, ◌>>◌, fail_if}
use orbitport.Text.{Text, text_eq, is_empty, trim_space}

-- `proto.GroupMember`
pub record GroupMember : Type 0 where
  pub node_id : Text
  pub party_index : ℤ
  pub openbao_url : Text
  pub mount : Text

-- `proto.DkgRequest`; a participant may be nil.
pub record ProtoRequest : Type 0 where
  pub key_name : Text
  pub group_name : Text
  pub session_id : Text
  pub threshold : ℤ
  pub participants : List (Option GroupMember)

-- `DKGParticipant`, with the normalised member that its client is made from
pub record DkgParticipant : Type 0 where
  pub node_id : Text
  pub party_index : ℕ
  pub client : GroupMember

pub record DkgRequest : Type 0 where
  pub key_name : Text
  pub group_name : Text
  pub session_id : Text
  pub threshold : ℤ
  pub participants : List DkgParticipant

pub data RequestError : Type 0 where
  request_required key_name_required group_name_required session_id_required : RequestError
  too_few_participants threshold_out_of_range participant_required node_id_required : RequestError
  openbao_url_required duplicate_node_id party_index_out_of_range : RequestError
  duplicate_party_index : RequestError

-- `_, exists := seenNodeIDs[nodeID]`
unfoldable pub seen_id : Text → List DkgParticipant → Bool
seen_id id [] = false
seen_id id (p ∷ ps) = text_eq p.node_id id || seen_id id ps

-- `_, exists := seenPartyIndexes[participant.PartyIndex]`
unfoldable pub seen_index : ℕ → List DkgParticipant → Bool
seen_index i [] = false
seen_index i (p ∷ ps) = p.party_index == i || seen_index i ps

-- A party index below the number of participants, as a natural number.
unfoldable pub index_in : ℕ → ℤ → Option ℕ
index_in n (pos i) = if ltb i n then some i else none
index_in n (negsuc i) = none

-- one turn of the loop over the participants; `seen` holds those accepted before
unfoldable pub accept :
    ℕ → List DkgParticipant → Option GroupMember → Result RequestError DkgParticipant
accept n seen none = err participant_required
accept n seen (some p) = do
  let node_id = trim_space p.node_id
  fail_if (is_empty node_id) node_id_required
  let url = trim_space p.openbao_url
  fail_if (is_empty url) openbao_url_required
  fail_if (seen_id node_id seen) duplicate_node_id
  elim (index_in n p.party_index) [
    | none ↦ err party_index_out_of_range
    | some i ↦
        if seen_index i seen
        then err duplicate_party_index
        else ok (record {
          node_id = node_id;
          party_index = i;
          client = record {
            node_id = node_id;
            party_index = p.party_index;
            openbao_url = url;
            mount = trim_space p.mount;
          };
        })
  ]

-- The loop, with the accepted participants in the order of the request.
unfoldable pub accept_all :
    ℕ → List DkgParticipant → List (Option GroupMember) → Result RequestError (List DkgParticipant)
accept_all n seen [] = ok seen
accept_all n seen (p ∷ ps) = do q ← accept n seen p; accept_all n (seen ++ q ∷ []) ps

-- `sort.Slice` by party index. The indexes are different, so the order of the result does not
-- depend on how it sorts.
unfoldable pub insert_by_index : DkgParticipant → List DkgParticipant → List DkgParticipant
insert_by_index p [] = p ∷ []
insert_by_index p (q ∷ qs) =
    if ltb q.party_index p.party_index then q ∷ insert_by_index p qs else p ∷ q ∷ qs

unfoldable pub sort_by_index : List DkgParticipant → List DkgParticipant
sort_by_index [] = []
sort_by_index (p ∷ ps) = insert_by_index p (sort_by_index ps)

-- `req.Threshold < 2 || int(req.Threshold) > n`
unfoldable pub threshold_ok : ℕ → ℤ → Bool
threshold_ok n (pos t) = leb 2 t && leb t n
threshold_ok n (negsuc t) = false

unfoldable pub dkg_request_from_proto : Option ProtoRequest → Result RequestError DkgRequest
dkg_request_from_proto none = err request_required
dkg_request_from_proto (some req) = do
  let key_name = trim_space req.key_name
  let group_name = trim_space req.group_name
  let session_id = trim_space req.session_id
  fail_if (is_empty key_name) key_name_required
  fail_if (is_empty group_name) group_name_required
  fail_if (is_empty session_id) session_id_required
  fail_if (ltb (length req.participants) 2) too_few_participants
  fail_if (not (threshold_ok (length req.participants) req.threshold)) threshold_out_of_range
  participants ← accept_all (length req.participants) [] req.participants
  ok (record {
    key_name = key_name;
    group_name = group_name;
    session_id = session_id;
    threshold = req.threshold;
    participants = sort_by_index participants;
  })
