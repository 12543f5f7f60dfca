-- ===== src/Threshold/Request/Validation.antt =====
-- What an accepted request is: its participants are the parties 0, 1, …, n - 1 in this order.
use orbitport.Base.{
  Option-cases, ℕ, ◌+◌, ◌<◌, ◌≤◌, ◌≡◌, ◌≢◌, sym, subst, true, false, List, [], ◌∷◌, ◌++◌, Option,
  none, some, arith, length, inl, inr, map, length-append,
}
use orbitport.Base.All.{All, All-append, All-map}
use orbitport.Base.Int.{ℤ, pos, negsuc}
use orbitport.Base.Result.{ok, Result-cases}
use orbitport.Threshold.Request.{
  GroupMember, ProtoRequest, DkgParticipant, DkgRequest, seen_id, seen_index, index_in, accept,
  accept_all, sort_by_index, threshold_ok, dkg_request_from_proto,
}
use orbitport.Threshold.Request.Sorting.{
  Different, sort-length, sort-All, seen-Unlike, Different-snoc, sort-Different, sort-Rising,
  count_from, Rising-count_from,
}

-- What the loop knows of the participants that it has accepted.
pub record Accepted (n : ℕ) (p : DkgParticipant) : Type 0 where
  pub in_range : p.party_index < n
  pub named : p.node_id ≢ []
  pub reachable : p.client.openbao_url ≢ []

index_in-lt : (n : ℕ) (x : ℤ) (i : ℕ) → index_in n x ≡ some i → i < n
unfolding index_in
index_in-lt n (pos k) i e = ground arith
index_in-lt n (negsuc k) i e = cc

accept-Accepted :
    (n : ℕ) (seen : List DkgParticipant) (m : Option GroupMember) (q : DkgParticipant)
    → accept n seen m ≡ ok q
    → Accepted n q × (seen_id q.node_id seen ≡ false) × (seen_index q.party_index seen ≡ false)
unfolding accept
accept-Accepted n seen none q e = cc
accept-Accepted n seen (some m) q e = elim (Option-cases (index_in n m.party_index)) [
  | inl out ↦ ground arith
  | inr (i, at) ↦ ground (arith, index_in-lt n m.party_index i at)
]

accept_all_lem :
    (n : ℕ) (seen : List DkgParticipant) (ms : List (Option GroupMember)) (qs : List DkgParticipant)
    → All (Accepted n) seen
    → Different seen
    → accept_all n seen ms ≡ ok qs
    → All (Accepted n) qs × Different qs × (length qs ≡ length seen + length ms)
unfolding accept_all
accept_all_lem n seen [] qs a d e =
    let same : seen ≡ qs = cc in
    subst (λ t. All (Accepted n) t × Different t × (length t ≡ length seen + 0)) same
      (a, d, omega arith)
accept_all_lem n seen (m ∷ ms) qs a d e = elim (Result-cases (accept n seen m)) [
  | inl (q, h) ↦
      let (accepted, fresh_id, fresh_index) = accept-Accepted n seen m q h in
      let rest : accept_all n (seen ++ q ∷ []) ms ≡ ok qs = rw (h, accept_all) at e in
      let (all, different, size) =
        accept_all_lem n (seen ++ q ∷ []) ms qs
          (All-append (Accepted n) seen (q ∷ []) a (accepted, tt))
          (Different-snoc seen q d (seen-Unlike q seen fresh_id fresh_index)) rest in
      (all, different, omega (arith, size, length-append seen (q ∷ [])))
  | inr (x, h) ↦ ground arith
]

-- What the plugin hands to the coordinator.
pub record ValidRequest (req : ProtoRequest) (r : DkgRequest) : Type 0 where
  pub several : 2 ≤ length r.participants
  pub complete : length r.participants ≡ length req.participants
  pub parties : map (λ p. p.party_index) r.participants ≡ count_from 0 (length r.participants)
  pub different : Different r.participants
  pub reachable : All (Accepted (length r.participants)) r.participants
  pub named : (r.key_name ≢ []) × (r.group_name ≢ []) × (r.session_id ≢ [])
  pub threshold : threshold_ok (length r.participants) r.threshold ≡ true

-- Inversion of the guards in front of the loop.
guards :
    (req : ProtoRequest) (r : DkgRequest)
    → dkg_request_from_proto (some req) ≡ ok r
    → (2 ≤ length req.participants)
      × (threshold_ok (length req.participants) req.threshold ≡ true)
      × ((r.key_name ≢ []) × (r.group_name ≢ []) × (r.session_id ≢ []))
      × (r.threshold ≡ req.threshold)
      × ((qs : List DkgParticipant) × (accept_all (length req.participants) [] req.participants
            ≡ ok qs)
          × (r.participants ≡ sort_by_index qs))
unfolding dkg_request_from_proto
guards req r e = ground arith

-- An accepted request has at least two participants, as many as were sent, in the order of their
-- party indexes, which are exactly 0, 1, …, n - 1; their node ids differ, and each has a node id and
-- a URL. The key, the group and the session are named, and the threshold lies in 2, …, n.
pub dkg_request_from_proto-ValidRequest :
    (req : ProtoRequest) (r : DkgRequest)
    → dkg_request_from_proto (some req) ≡ ok r
    → ValidRequest req r
dkg_request_from_proto-ValidRequest req r e =
    let (several, threshold, named, kept, found) = guards req r e in
    let (qs, collected, sorted) = found in
    let n : ℕ = length req.participants in
    let (all, different, size) = accept_all_lem n [] req.participants qs tt tt collected in
    let total : length (sort_by_index qs) ≡ n = omega (arith, sort-length qs, size) in
    let accepted : All (Accepted n) (sort_by_index qs) = sort-All (Accepted n) qs all in
    let here : ValidRequest req (record r { participants = sort_by_index qs }) = record {
      several = omega (arith, total, several);
      complete = total;
      parties =
          Rising-count_from 0 (sort_by_index qs)
            (All-map (Accepted n) (λ p. p.party_index < 0 + length (sort_by_index qs))
              (λ p h. omega (arith, h.in_range, total)) (sort_by_index qs) accepted)
            (sort-Rising qs different);
      different = sort-Different qs different;
      reachable = subst (λ t. All (Accepted t) (sort_by_index qs)) (sym total) accepted;
      named = named;
      threshold = rw (total, kept) threshold;
    } in
    subst (λ t. ValidRequest req (record r { participants = t })) (sym sorted) here
