-- ===== src/Threshold/Coordinate/Success.antt =====
-- A key generation that succeeds, from its first call to the public key.
use orbitport.Base.{ℕ, ◌≡◌, ◌≢◌, List, []}
use orbitport.Base.Traced.{◌>>=◌, return, lift}
use orbitport.Base.Result.{ok}
use orbitport.Base.All.{All}
use orbitport.Text.{Text}
use orbitport.Threshold.Request.{DkgParticipant, DkgRequest}
use orbitport.Threshold.Session.{Call, starts, proceeds, Environment, M, Coordinator}
use orbitport.Threshold.Session.Retry.{Grows}
use orbitport.Threshold.Coordinate.{
  Outputs, Bootstrap, start_request, deliver_all, proceed_round, new_dkg_bootstrap, agree,
  DkgResult,
}
use orbitport.Threshold.Coordinate.Agreement.{CompletedWith}
use orbitport.Threshold.Coordinate.Delivery.{Delivered}
use orbitport.Threshold.Coordinate.Answers.{PutOut}

module _ (env : Environment) (c : Coordinator) where
  -- A round between two records of the calls: one output for each participant, which it answered in this
  -- round, and every message of these outputs delivered.
  pub record Exchanged (req : DkgRequest) (call_of : DkgParticipant → Call) (round : ℕ)
      (since h : List Call) : Type 0 where
    pub outputs : Outputs
    pub put_out : PutOut env since call_of round h req.participants outputs
    pub delivered : Delivered env c req.key_name outputs round h req.participants req.participants
    pub calls : Grows since h

  abbrev pub proceeding : DkgRequest → ℕ → DkgParticipant → Call
  proceeding req round p = proceeds p req.key_name round

  -- What a successful key generation has done: three rounds, one after the other, and the last one, with
  -- the calls they have made.
  pub record Generated (mac : List ℕ → List ℕ → List ℕ) (req : DkgRequest) (result : DkgResult)
      (h h' : List Call) : Type 0 where
    pub key : result.public_key ≢ []
    pub completed : All (CompletedWith result.public_key) result.nodes
    pub bootstrap : Bootstrap
    pub is_bootstrap : new_dkg_bootstrap mac c req ≡ ok bootstrap
    pub k1 : List Call
    pub round1 : Exchanged req (λ p. starts p (start_request req bootstrap p)) 1 h k1
    pub k2 : List Call
    pub round2 : Exchanged req (proceeding req 2) 2 k1 k2
    pub k3 : List Call
    pub round3 : Exchanged req (proceeding req 3) 3 k2 k3
    pub nodes : PutOut env k3 (proceeding req 4) 4 h' req.participants result.nodes
    pub calls : Grows k3 h'

  module _ (mac : List ℕ → List ℕ → List ℕ) (req : DkgRequest) where
    abbrev result_of : Outputs → Text → DkgResult
    result_of nodes key = record {
      public_key = key;
      nodes = nodes;
      key_name = req.key_name;
      group_name = req.group_name;
      session_id = req.session_id;
    }

    abbrev finish : M DkgResult
    finish = proceed_round env c req.key_name 4 req.participants [] >>= λ completed.
        lift (agree [] completed) >>= λ key. return (result_of completed key)

    abbrev round_then : ℕ → M DkgResult → M DkgResult
    round_then round rest = proceed_round env c req.key_name round req.participants [] >>= λ m.
        deliver_all env c req.key_name m round req.participants req.participants >>= λ _. rest
