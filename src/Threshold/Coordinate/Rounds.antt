-- ===== src/Threshold/Coordinate/Rounds.antt =====
-- The loops of a round over the participants.
use orbitport.Base.{
  ℕ, ◌≡◌, ◌≢◌, refl, sym, ap, ◌∙◌, subst, List, [], ◌∷◌, ◌++◌, Option, none, some, ltb,
  if◌then◌else◌, append_assoc, append-nil, Bool-cases, inl, inr,
}
use orbitport.Base.Traced.{◌>>=◌, return, lift, lift-ok, >>=-ok}
use orbitport.Base.Result.{Result, ok}
use orbitport.Base.All.{All, All-zip}
use orbitport.Text.{Text}
use orbitport.Text.Dict.{lookup, put, put_fresh, lookup-put_ne}
use orbitport.Threshold.Request.{DkgParticipant, DkgRequest}
use orbitport.Threshold.Request.Sorting.{Different}
use orbitport.Threshold.Session.{
  DkgStatus, Call, starts, proceeds, Environment, DkgError, M, Coordinator, call_with_retry,
}
use orbitport.Threshold.Session.Retry.{
  Grows, Grows-refl, Grows-trans, IsRequest, call_with_retry-Tried,
}
use orbitport.Threshold.Coordinate.{
  Outputs, start_dkg, proceed_round, Bootstrap, start_request, require_round_output, dereference,
}
use orbitport.Threshold.Coordinate.Delivery.{call_with_retry-Made}
use orbitport.Threshold.Coordinate.Answers.{
  InRound, require_round_output-InRound, dereference-some, Answered, PutOut, PutOut-since,
  Tried-Answered,
}

-- The participants are not in the map yet.
abbrev pub Missing : Outputs → List DkgParticipant → Type 0
Missing m ps = All (λ p. lookup p.node_id m ≡ none) ps

Missing-put :
    (p : DkgParticipant) (v : DkgStatus) (m : Outputs) (ps : List DkgParticipant)
    → Different (p ∷ ps)
    → Missing m ps
    → Missing (put p.node_id v m) ps
Missing-put p v m ps d h =
    All-zip (λ q. (q.node_id ≢ p.node_id) × (q.party_index ≢ p.party_index))
      (λ q. lookup q.node_id m ≡ none) (λ q. lookup q.node_id (put p.node_id v m) ≡ none)
      (λ q u e. lookup-put_ne p.node_id q.node_id v m (λ same. u.0 (sym same)) ∙ e) ps d.0 h

pub Missing-nothing : (ps : List DkgParticipant) → Missing [] ps
unfolding lookup
Missing-nothing [] = tt
Missing-nothing (p ∷ ps) = (refl, Missing-nothing ps)

module _ (env : Environment) (c : Coordinator) where
  -- What a loop over the participants has put out.
  abbrev pub Outcome :
      (DkgParticipant → Call)
      → ℕ
      → List DkgParticipant
      → Outputs
      → Outputs
      → List Call
      → List Call
      → Type 0
  Outcome call_of round ps m m' h h' =
      ((n : Outputs) × (m' ≡ m ++ n) × PutOut env h call_of round h' ps n) × Grows h h'

  nothing_more :
      (call_of : DkgParticipant → Call) (round : ℕ) (m m' : Outputs) (h h' : List Call)
      → return {C = Call} {E = DkgError} m h ≡ (ok m', h')
      → Outcome call_of round [] m m' h h'
  nothing_more call_of round m m' h h' e =
      let same : m ≡ m' = cc (ap (λ t. t.0) e) in
      let stays : h ≡ h' = ap (λ t. t.1) e in
      (([], sym same ∙ sym (append-nil m), tt), subst (Grows h) stays (Grows-refl h))

  -- one call of a round, what is required of its status, and the calls of the other participants
  one_more :
      (call_of : DkgParticipant → Call) (round : ℕ)
      (f : Option DkgStatus → Result DkgError DkgStatus) (rest : DkgStatus → M Outputs)
      (p : DkgParticipant) (ps : List DkgParticipant) (m m' : Outputs) (h h' : List Call)
      → ((status : Option DkgStatus) (s : DkgStatus)
          → f status ≡ ok s
          → (status ≡ some s) × InRound round s)
      → IsRequest (call_of p)
      → lookup p.node_id m ≡ none
      → ((s : DkgStatus) (k : List Call)
          → rest s k ≡ (ok m', h')
          → Outcome call_of round ps (put p.node_id s m) m' k h')
      → (call_with_retry env c (call_of p) >>= λ status. lift (f status) >>= rest) h ≡ (ok m', h')
      → Outcome call_of round (p ∷ ps) m m' h h'
  one_more call_of round f rest p ps m m' h h' required request miss later e =
      let (status, k, called, next) =
        >>=-ok (call_with_retry env c (call_of p)) (λ status. lift (f status) >>= rest) h h' e in
      let (s, k', checked, last) = >>=-ok (lift (f status)) rest k h' next in
      let (passed, stays) = lift-ok (f status) checked in
      let (is, fit) = required status s passed in
      let a =
        Tried-Answered env (call_of p) _ h k status _
          (call_with_retry-Tried env (call_of p) request c h) called in
      let ((n, whole, more), grown) = later s k (subst (λ t. rest s t ≡ (ok m', h')) stays last) in
      let first = call_with_retry-Made env c (call_of p) h k status request called in
      (
        (
          (p.node_id, s) ∷ n,
          whole
              ∙ ap (λ t. t ++ n) (put_fresh p.node_id s m miss)
              ∙ append_assoc m ((p.node_id, s) ∷ []) n,
          (
            refl,
            fit,
            subst (λ t. Answered env h (call_of p) t h') is
                (record {
                  earlier = a.earlier;
                  after = a.after;
                  reply = a.reply;
                  kept = Grows-trans (call_of p ∷ a.earlier) k h' a.kept grown;
                }),
            PutOut-since env h k call_of round h' ps n first.1 more,
          ),
        ),
        Grows-trans h k h' first.1 grown,
      )

  proceeded :
      (round : ℕ) (status : Option DkgStatus) (s : DkgStatus)
      → (if ltb round 4 then require_round_output round status else dereference status) ≡ ok s
      → (status ≡ some s) × InRound round s
  proceeded round status s e = elim (Bool-cases (ltb round 4)) [
    | inl early ↦ require_round_output-InRound round status s (rw (early) at e)
    | inr late ↦ (dereference-some status s (rw (late) at e), λ early. cc)
  ]

  pub proceed_round-Outcome :
      (key : Text) (round : ℕ) (ps : List DkgParticipant) (m m' : Outputs) (h h' : List Call)
      → Different ps
      → Missing m ps
      → proceed_round env c key round ps m h ≡ (ok m', h')
      → Outcome (λ p. proceeds p key round) round ps m m' h h'
  unfolding proceed_round
  proceed_round-Outcome key round [] m m' h h' d miss e =
      nothing_more (λ p. proceeds p key round) round m m' h h' e
  proceed_round-Outcome key round (p ∷ ps) m m' h h' d miss e =
      one_more (λ p. proceeds p key round) round
        (λ status. if ltb round 4 then require_round_output round status else dereference status)
        (λ s. proceed_round env c key round ps (put p.node_id s m)) p ps m m' h h' (proceeded round)
        tt miss.0
        (λ s k.
          proceed_round-Outcome key round ps (put p.node_id s m) m' k h' d.1
            (Missing-put p s m ps d miss.1))
        e

  pub start_dkg-Outcome :
      (req : DkgRequest) (b : Bootstrap) (ps : List DkgParticipant) (m m' : Outputs)
      (h h' : List Call)
      → Different ps
      → Missing m ps
      → start_dkg env c req b ps m h ≡ (ok m', h')
      → Outcome (λ p. starts p (start_request req b p)) 1 ps m m' h h'
  unfolding start_dkg
  start_dkg-Outcome req b [] m m' h h' d miss e =
      nothing_more (λ p. starts p (start_request req b p)) 1 m m' h h' e
  start_dkg-Outcome req b (p ∷ ps) m m' h h' d miss e =
      one_more (λ p. starts p (start_request req b p)) 1 (require_round_output 1)
        (λ s. start_dkg env c req b ps (put p.node_id s m)) p ps m m' h h'
        (require_round_output-InRound 1) tt miss.0
        (λ s k.
          start_dkg-Outcome req b ps (put p.node_id s m) m' k h' d.1
            (Missing-put p s m ps d miss.1))
        e
