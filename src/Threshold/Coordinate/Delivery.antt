-- ===== src/Threshold/Coordinate/Delivery.antt =====
-- What a successful key generation has done: every node has every other node's messages.
use orbitport.Base.{
  ℕ, ◌≡◌, refl, sym, ap, subst, false, List, [], ◌∷◌, ◌++◌, Option, Bool-cases, inl, inr,
}
use orbitport.Base.Traced.{◌>>=◌, lift, >>=-ok}
use orbitport.Base.Result.{Result, ok, err}
use orbitport.Base.All.{All, All-map}
use orbitport.Text.{Text, text_eq}
use orbitport.Threshold.Request.{DkgParticipant}
use orbitport.Threshold.Session.{
  DkgStatus, DeliverRequest, Call, delivers, Environment, DkgError, M, Coordinator, call_with_retry,
}
use orbitport.Threshold.Session.Retry.{
  Grows, Grows-refl, Grows-trans, Grows-one, Tried, replied, gave_up, stopped, IsRequest,
  call_with_retry-Tried,
}
use orbitport.Threshold.Coordinate.{Outputs, message_for, deliver_to, deliver_all}

-- The call was made.
pub data Made (c : Call) : List Call → Type 0 where
  newest : {d : Call} {h : List Call} → d ≡ c → Made c (d ∷ h)
  earlier : {d : Call} {h : List Call} → Made c h → Made c (d ∷ h)

Made-append : (c : Call) (xs h : List Call) → Made c h → Made c (xs ++ h)
Made-append c [] h m = m
Made-append c (x ∷ xs) h m = earlier (Made-append c xs h m)

pub Made-Grows : (c : Call) (h h' : List Call) → Grows h h' → Made c h → Made c h'
Made-Grows c h h' g m = subst (Made c) (sym g.whole) (Made-append c g.added h m)

Tried-Made :
    (env : Environment) (c : Call) (n : ℕ) (h h' : List Call) (s : Option DkgStatus)
    (r : Result DkgError (Option DkgStatus) × List Call)
    → Tried env c n h r
    → r ≡ (ok s, h')
    → Made c h' × Grows h h'
Tried-Made env c n h h' s r (replied s' k a le g) e =
    let same : c ∷ k ≡ h' = ap (λ t. t.1) e in
    subst (λ t. Made c t × Grows h t) same (newest refl, Grows-trans h k (c ∷ k) g (Grows-one c k))
Tried-Made env c n h h' s r (gave_up x k a le w g) e =
    let bad : err _ ≡ ok s = ap (λ t. t.0) e in cc
Tried-Made env c n h h' s r (stopped d k a le g) e = let bad : err _ ≡ ok s = ap (λ t. t.0) e in cc

-- A call that succeeded was made.
pub call_with_retry-Made :
    (env : Environment) (c : Coordinator) (call : Call) (h h' : List Call) (s : Option DkgStatus)
    → IsRequest call
    → call_with_retry env c call h ≡ (ok s, h')
    → Made call h' × Grows h h'
call_with_retry-Made env c call h h' s i e =
    Tried-Made env call _ h h' s _ (call_with_retry-Tried env call i c h) e

module _ (env : Environment) (c : Coordinator) (key : Text) (outputs : Outputs) (round : ℕ) where
  -- The receiver was given what the sender put out for it in this round.
  abbrev pub Given : List Call → DkgParticipant → DkgParticipant → Type 0
  Given h receiver sender =
      text_eq sender.node_id receiver.node_id ≡ false
      → (message : DeliverRequest) × (message_for outputs round receiver sender ≡ ok message)
        × Made (delivers receiver key message) h

  Given-Grows : (h h' : List Call) (r s : DkgParticipant) → Grows h h' → Given h r s → Given h' r s
  Given-Grows h h' r s g v other =
      let (message, is_message, made) = v other in
      (message, is_message, Made-Grows (delivers r key message) h h' g made)

  send_one :
      (r s : DkgParticipant) (h h' : List Call) (m : DeliverRequest) (rest : M (Unit {0}))
      → (call_with_retry env c (delivers r key m) >>= λ status. rest) h ≡ (ok tt, h')
      → (k : List Call) × (Made (delivers r key m) k × Grows h k) × (rest k ≡ (ok tt, h'))
  send_one r s h h' m rest e =
      let (status, k, called, later) =
        >>=-ok (call_with_retry env c (delivers r key m)) (λ status. rest) h h' e in
      (k, call_with_retry-Made env c (delivers r key m) h k status tt called, later)

  deliver_to-Given :
      (r : DkgParticipant) (ss : List DkgParticipant) (h h' : List Call)
      → deliver_to env c key outputs round r ss h ≡ (ok tt, h')
      → All (Given h' r) ss × Grows h h'
  unfolding deliver_to
  deliver_to-Given r [] h h' e =
      let same : h ≡ h' = ap (λ t. t.1) e in (tt, subst (Grows h) same (Grows-refl h))
  deliver_to-Given r (s ∷ ss) h h' e = elim (Bool-cases (text_eq s.node_id r.node_id)) [
    | inl own ↦
        let (given, grown) = deliver_to-Given r ss h h' (rw (own, deliver_to) at e) in
        (((λ other. cc), given), grown)
    | inr other ↦
        let rest : M (Unit {0}) = deliver_to env c key outputs round r ss in
        let (m, k, is_m, sent) =
          >>=-ok (lift (message_for outputs round r s))
            (λ m. call_with_retry env c (delivers r key m) >>= λ status. rest) h h'
            (rw (other, deliver_to) at e) in
        let stays : h ≡ k = ap (λ t. t.1) is_m in
        let message : message_for outputs round r s ≡ ok m = ap (λ t. t.0) is_m in
        let (k', made, later) = send_one r s k h' m rest sent in
        let (given, grown) = deliver_to-Given r ss k' h' later in
        (
          ((λ _. (m, message, Made-Grows (delivers r key m) k' h' grown made.0)), given),
          Grows-trans h k' h' (subst (λ t. Grows t k') (sym stays) made.1) grown,
        )
  ]

  -- Every receiver was given the messages of all other senders.
  abbrev pub Delivered : List Call → List DkgParticipant → List DkgParticipant → Type 0
  Delivered h senders receivers = All (λ r. All (Given h r) senders) receivers

  pub deliver_all-Delivered :
      (rs ss : List DkgParticipant) (h h' : List Call)
      → deliver_all env c key outputs round rs ss h ≡ (ok tt, h')
      → Delivered h' ss rs × Grows h h'
  unfolding deliver_all
  deliver_all-Delivered [] ss h h' e =
      let same : h ≡ h' = ap (λ t. t.1) e in (tt, subst (Grows h) same (Grows-refl h))
  deliver_all-Delivered (r ∷ rs) ss h h' e =
      let (_, k, first, later) =
        >>=-ok (deliver_to env c key outputs round r ss)
          (λ _. deliver_all env c key outputs round rs ss) h h' e in
      let (given, grown) = deliver_to-Given r ss h k first in
      let (delivered, grown') = deliver_all-Delivered rs ss k h' later in
      (
        (
          All-map (Given k r) (Given h' r) (λ s v. Given-Grows k h' r s grown' v) ss given,
          delivered,
        ),
        Grows-trans h k h' grown grown',
      )
