-- ===== src/Threshold/Session.antt =====
-- plugins/pkg/plugin/threshold/coordinator.go and types.go. The nodes are outside: a call is put on
-- a record of the calls, newest first, and the environment answers from that record. So a call of
-- the coordinator is a function from the calls so far to its result and the calls then.
pub mod Retry
use orbitport.Base.{
  ℕ, zero, suc, ◌+◌, ◌-◌, ◌*◌, ◌<◌, ◌≤◌, Bool, true, false, not, List, [], ◌∷◌, ◌++◌, Option, none,
  some, ltb, leb, ◌==◌, ◌||◌, ◌&&◌, if◌then◌else◌, take,
}
use orbitport.Base.Int.{ℤ, pos, negsuc}
use orbitport.Base.Traced.{Traced, ◌>>=◌, ◌>>◌, return, lift, >>=-ok, step_ok, step_err}
use orbitport.Base.Result.{Result, ok, err}
use orbitport.Text.{Text, text_eq, is_empty, lit, utf8}
use orbitport.Base64
use orbitport.Threshold.Request.{DkgParticipant, DkgRequest}

-- `DKGStatus`
pub record DkgStatus : Type 0 where
  pub name : Text
  pub group : Text
  pub session_id : Text
  pub node_id : Text
  pub status : Text
  pub round : ℤ
  pub broadcast : Text
  pub unicasts : List (Text × Text)
  pub pending_from : List Text
  pub public_key : Text

pub record StartRequest : Type 0 where
  pub key_name : Text
  pub group_name : Text
  pub session_id : Text
  pub common_seed : Text
  pub pairwise_seeds : Text → Option Text

pub record DeliverRequest : Type 0 where
  pub round : ℕ
  pub from : Text
  pub broadcast : Text
  pub unicast : Text

-- What a call of a node's client can fail with, as far as the coordinator tells it apart.
pub data CallError : Type 0 where
  canceled deadline_exceeded other : CallError
  status_code : ℕ → CallError

pub data Call : Type 0 where
  starts : DkgParticipant → StartRequest → Call
  delivers : DkgParticipant → Text → DeliverRequest → Call
  proceeds : DkgParticipant → Text → ℕ → Call
  waits : ℕ → Call

-- The nodes and the clock: the reply to the newest call, and whether the timer of the newest wait
-- fires before the context is done. A client may return a nil status.
pub record Environment : Type 0 where
  pub reply : List Call → Result CallError (Option DkgStatus)
  pub fires : List Call → Bool

pub data DkgError : Type 0 where
  session_secret_required retry_canceled nil_status wrong_round empty_broadcast no_unicasts :
      DkgError
  missing_output missing_unicast not_completed no_public_key different_public_key : DkgError
  nil_dereference : DkgError
  call_failed : CallError → DkgError

abbrev pub M : Type 0 → Type 0
M A = Traced Call DkgError A

-- `isRetryableOpenBaoError`
unfoldable pub is_retryable : CallError → Bool
is_retryable canceled = false
is_retryable deadline_exceeded = false
is_retryable other = true
is_retryable (status_code c) = c == 408 || c == 429 || leb 500 c

pub record Coordinator : Type 0 where
  pub seed_bytes : ℕ
  pub session_secret : List ℕ
  pub retry_attempts : ℤ
  pub retry_backoff : ℕ

-- `if attempts < 1 { attempts = 1 }`
unfoldable pub attempts_of : ℤ → ℕ
attempts_of (pos zero) = 1
attempts_of (pos (suc n)) = suc n
attempts_of (negsuc n) = 1

module _ (env : Environment) where
  -- The loop of `callWithRetry` at the given attempt, with `left` attempts after it.
  unfoldable pub retry_loop : ℕ → ℕ → ℕ → Call → M (Option DkgStatus)
  retry_loop backoff attempt zero call h = elim (env.reply (call ∷ h)) [
    | ok status ↦ (ok status, call ∷ h)
    | err e ↦ (err (call_failed e), call ∷ h)
  ]
  retry_loop backoff attempt (suc left) call h = elim (env.reply (call ∷ h)) [
    | ok status ↦ (ok status, call ∷ h)
    | err e ↦
        let delay = backoff * attempt in
        let waited = waits delay ∷ call ∷ h in
        let at_once = retry_loop backoff (attempt + 1) left call (call ∷ h) in
        let again = retry_loop backoff (attempt + 1) left call waited in
        if not (is_retryable e)
        then (err (call_failed e), call ∷ h)
        else if delay == 0
        then at_once
        else if env.fires waited
        then again
        else (err retry_canceled, waited)
  ]

  unfoldable pub call_with_retry : Coordinator → Call → M (Option DkgStatus)
  unfolding retry_loop
  call_with_retry c call = retry_loop c.retry_backoff 1 (attempts_of c.retry_attempts - 1) call
