-- ===== src/Threshold/Coordinate/Answers.antt =====
-- The outputs of a round: what each participant answered, and when.
use orbitport.Base.{
  ℕ, ◌≡◌, ◌≢◌, refl, ap, ap₂, subst, true, List, [], ◌∷◌, Option, none, some, ltb, ◌==◌, ◌&&◌, map,
  Bool-cases, inl, inr, arith,
}
use orbitport.Base.Int.{ℤ, pos, negsuc}
use orbitport.Base.Result.{Result, ok, err}
use orbitport.Text.{Text, is_empty}
use orbitport.Threshold.Request.{DkgParticipant}
use orbitport.Threshold.Session.{
  DkgStatus, Call, Environment, DkgError, wrong_round, empty_broadcast, no_unicasts,
}
use orbitport.Threshold.Session.Retry.{
  Grows, Grows-refl, Grows-trans, Tried, replied, gave_up, stopped,
}
use orbitport.Threshold.Coordinate.{Outputs, is_round, require_round_output, dereference}

abbrev pub keys : Outputs → List Text
keys m = map (λ n. n.0) m

abbrev pub ids : List DkgParticipant → List Text
ids ps = map (λ p. p.node_id) ps

-- The status names this round, and has a broadcast, where the round is not the last.
abbrev pub InRound : ℕ → DkgStatus → Type 0
InRound round s = ltb round 4 ≡ true → (s.round ≡ pos round) × (s.broadcast ≢ [])

is_round-pos : (n : ℕ) (r : ℤ) → is_round n r ≡ true → r ≡ pos n
unfolding is_round
is_round-pos n (pos r) h = ap pos (ground arith)
is_round-pos n (negsuc r) h = cc

pub require_round_output-InRound :
    (round : ℕ) (status : Option DkgStatus) (s : DkgStatus)
    → require_round_output round status ≡ ok s
    → (status ≡ some s) × InRound round s
unfolding require_round_output
require_round_output-InRound round none s e = cc
require_round_output-InRound round (some t) s e = elim (Bool-cases (is_round round t.round)) [
  | inr other ↦
      let bad : require_round_output round (some t) ≡ err wrong_round =
        rw (other, require_round_output) refl in
      cc
  | inl same ↦ elim (Bool-cases (is_empty t.broadcast)) [
    | inl empty ↦
        let bad : require_round_output round (some t) ≡ err empty_broadcast =
          rw (same, empty, require_round_output) refl in
        cc
    | inr full ↦ elim (Bool-cases (round == 2 && is_empty t.unicasts)) [
      | inl bare ↦
          let bad : require_round_output round (some t) ≡ err no_unicasts =
            rw (same, full, bare, require_round_output) refl in
          cc
      | inr given ↦
          let good : require_round_output round (some t) ≡ ok t =
            rw (same, full, given, require_round_output) refl in
          let is : t ≡ s = cc in
          (
            ap some is,
            λ _. (
              subst (λ u. u.round ≡ pos round) is (is_round-pos round t.round same),
              subst (λ u. u.broadcast ≢ []) is
                  (λ nothing. let bad : is_empty t.broadcast ≡ true = rw (nothing) refl in cc),
            ),
          )
    ]
  ]
]

pub dereference-some :
    (status : Option DkgStatus) (s : DkgStatus) → dereference status ≡ ok s → status ≡ some s
unfolding dereference
dereference-some none s e = cc
dereference-some (some t) s e = cc

module _ (env : Environment) where
  -- The call was made after `since`, was answered with this status, and is among the calls `h`.
  pub record Answered (since : List Call) (call : Call) (status : Option DkgStatus) (h : List Call)
      : Type 0 where
    pub earlier : List Call
    pub after : Grows since earlier
    pub reply : env.reply (call ∷ earlier) ≡ ok status
    pub kept : Grows (call ∷ earlier) h

  -- The outputs are one for each participant, in their order: what the participant answered to the call
  -- of this round, made after `since`.
  abbrev pub PutOut :
      List Call → (DkgParticipant → Call) → ℕ → List Call → List DkgParticipant → Outputs → Type 0
  PutOut since call_of round h [] [] = Unit
  PutOut since call_of round h [] (o ∷ n) = ⊥
  PutOut since call_of round h (p ∷ ps) [] = ⊥
  PutOut since call_of round h (p ∷ ps) ((id, s) ∷ n) =
      (id ≡ p.node_id)
      × InRound round s
      × Answered since (call_of p) (some s) h
      × PutOut since call_of round h ps n

  pub PutOut-keys :
      (since : List Call) (call_of : DkgParticipant → Call) (round : ℕ) (h : List Call)
      (ps : List DkgParticipant) (n : Outputs)
      → PutOut since call_of round h ps n
      → keys n ≡ ids ps
  PutOut-keys since call_of round h [] [] o = refl
  PutOut-keys since call_of round h [] (x ∷ n) o = absurd o
  PutOut-keys since call_of round h (p ∷ ps) [] o = absurd o
  PutOut-keys since call_of round h (p ∷ ps) ((id, s) ∷ n) (same, _, _, more) =
      ap₂ ◌∷◌ same (PutOut-keys since call_of round h ps n more)

  pub PutOut-since :
      (since since' : List Call) (call_of : DkgParticipant → Call) (round : ℕ) (h : List Call)
      (ps : List DkgParticipant) (n : Outputs)
      → Grows since since'
      → PutOut since' call_of round h ps n
      → PutOut since call_of round h ps n
  PutOut-since since since' call_of round h [] [] g o = tt
  PutOut-since since since' call_of round h [] (x ∷ n) g o = absurd o
  PutOut-since since since' call_of round h (p ∷ ps) [] g o = absurd o
  PutOut-since since since' call_of round h (p ∷ ps) ((id, s) ∷ n) g (same, fit, a, more) = (
    same,
    fit,
    record {
      earlier = a.earlier;
      after = Grows-trans since since' a.earlier g a.after;
      reply = a.reply;
      kept = a.kept;
    },
    PutOut-since since since' call_of round h ps n g more,
  )

  pub Tried-Answered :
      (call : Call) (n : ℕ) (h k : List Call) (s : Option DkgStatus)
      (r : Result DkgError (Option DkgStatus) × List Call)
      → Tried env call n h r
      → r ≡ (ok s, k)
      → Answered h call s k
  Tried-Answered call n h k s r (replied s' k' a le g) e =
      let same : call ∷ k' ≡ k = ap (λ t. t.1) e in
      let is : s' ≡ s = cc (ap (λ t. t.0) e) in
      record {
        earlier = k';
        after = g;
        reply = subst (λ t. env.reply (call ∷ k') ≡ ok t) is a;
        kept = subst (Grows (call ∷ k')) same (Grows-refl (call ∷ k'));
      }
  Tried-Answered call n h k s r (gave_up x k' a le w g) e =
      let bad : err _ ≡ ok s = ap (λ t. t.0) e in cc
  Tried-Answered call n h k s r (stopped d k' a le g) e =
      let bad : err _ ≡ ok s = ap (λ t. t.0) e in cc
