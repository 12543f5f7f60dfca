-- ===== src/Threshold/Session/Retry.antt =====
-- How often a call is made, and which reply is taken.
use orbitport.Base.{
  ℕ, zero, suc, ◌+◌, ◌-◌, ◌*◌, ◌≤◌, ◌<◌, ◌≡◌, refl, ap, subst, sym, append_assoc, ◌∙◌, ◌⊎◌, inl,
  inr, false, List, [], ◌∷◌, ◌++◌, Option, arith, ◌==◌, Bool-cases,
}
use orbitport.Base.Int.{ℤ, pos, negsuc}
use orbitport.Base.Result.{Result, ok, err, Result-cases}
use orbitport.Threshold.Session.{
  DkgStatus, Call, starts, delivers, proceeds, waits, Environment, CallError, DkgError, call_failed,
  retry_canceled, is_retryable, Coordinator, attempts_of, retry_loop, call_with_retry,
}

-- The waits of a record of calls are left out, so that what is counted are the requests.
pub requests_in : List Call → ℕ
requests_in [] = 0
requests_in (starts p r ∷ h) = suc (requests_in h)
requests_in (delivers p k r ∷ h) = suc (requests_in h)
requests_in (proceeds p k r ∷ h) = suc (requests_in h)
requests_in (waits d ∷ h) = requests_in h

-- A call of the client, and no wait.
abbrev pub IsRequest : Call → Type 0
IsRequest (waits d) = ⊥
IsRequest _ = Unit

-- Which calls were made between two records.
pub record Grows (h h' : List Call) : Type 0 where
  pub added : List Call
  pub whole : h' ≡ added ++ h

pub Grows-refl : (h : List Call) → Grows h h
Grows-refl h = record { added = []; whole = refl }

pub Grows-cons : (c : Call) (h h' : List Call) → Grows (c ∷ h) h' → Grows h h'
Grows-cons c h h' g = record {
  added = g.added ++ c ∷ [];
  whole = g.whole ∙ sym (append_assoc g.added (c ∷ []) h);
}

pub Grows-trans : (h h' h'' : List Call) → Grows h h' → Grows h' h'' → Grows h h''
Grows-trans h h' h'' g k = record {
  added = k.added ++ g.added;
  whole = k.whole ∙ ap (λ t. k.added ++ t) g.whole ∙ sym (append_assoc k.added g.added h);
}

-- How a call with `n` attempts ends, made after `h`.
pub data Tried (env : Environment) (call : Call) (n : ℕ) (h : List Call)
    : Result DkgError (Option DkgStatus) × List Call → Type 0 where
  replied :
      (s : Option DkgStatus) (h' : List Call)
      → env.reply (call ∷ h') ≡ ok s
      → requests_in (call ∷ h') ≤ requests_in h + n
      → Grows h h'
      → Tried env call n h (ok s, call ∷ h')
  gave_up :
      (e : CallError) (h' : List Call)
      → env.reply (call ∷ h') ≡ err e
      → requests_in (call ∷ h') ≤ requests_in h + n
      → (is_retryable e ≡ false) ⊎ (requests_in (call ∷ h') ≡ requests_in h + n)
      → Grows h h'
      → Tried env call n h (err (call_failed e), call ∷ h')
  stopped :
      (d : ℕ) (h' : List Call)
      → env.fires (waits d ∷ call ∷ h') ≡ false
      → requests_in (call ∷ h') < requests_in h + n
      → Grows h h'
      → Tried env call n h (err retry_canceled, waits d ∷ call ∷ h')

requests_in-cons :
    (c : Call) (h : List Call) → IsRequest c → requests_in (c ∷ h) ≡ suc (requests_in h)
unfolding requests_in
requests_in-cons (starts p r) h i = refl
requests_in-cons (delivers p k r) h i = refl
requests_in-cons (proceeds p k n) h i = refl
requests_in-cons (waits d) h i = absurd i

-- What the later attempts do counts for the whole call.
Tried-later :
    (env : Environment) (call : Call) (n : ℕ) (h k : List Call)
    (r : Result DkgError (Option DkgStatus) × List Call)
    → requests_in k ≡ suc (requests_in h)
    → Grows h k
    → Tried env call n k r
    → Tried env call (suc n) h r
Tried-later env call n h k r e g (replied s h' a le g') =
    replied s h' a (omega arith) (Grows-trans h k h' g g')
Tried-later env call n h k r e g (gave_up x h' a le (inl why) g') =
    gave_up x h' a (omega arith) (inl why) (Grows-trans h k h' g g')
Tried-later env call n h k r e g (gave_up x h' a le (inr why) g') =
    gave_up x h' a (omega arith) (inr (omega arith)) (Grows-trans h k h' g g')
Tried-later env call n h k r e g (stopped d h' a le g') =
    stopped d h' a (omega arith) (Grows-trans h k h' g g')

attempts_of-pos : (n : ℤ) → 0 < attempts_of n
unfolding attempts_of
attempts_of-pos (pos zero) = omega arith
attempts_of-pos (pos (suc n)) = omega arith
attempts_of-pos (negsuc n) = omega arith

pub Grows-one : (c : Call) (h : List Call) → Grows h (c ∷ h)
Grows-one c h = record { added = c ∷ []; whole = refl }

Grows-two : (c d : Call) (h : List Call) → Grows h (c ∷ d ∷ h)
Grows-two c d h = record { added = c ∷ d ∷ []; whole = refl }

module _ (env : Environment) (call : Call) (is_request : IsRequest call) where
  retry_loop-Tried :
      (backoff attempt left : ℕ) (h : List Call)
      → Tried env call (suc left) h (retry_loop env backoff attempt left call h)
  unfolding retry_loop requests_in
  retry_loop-Tried backoff attempt zero h = elim (Result-cases (env.reply (call ∷ h))) [
    | inl (s, e) ↦
        rw (e, retry_loop)
          (replied s h e (omega (arith, requests_in-cons call h is_request)) (Grows-refl h))
    | inr (x, e) ↦
        rw (e, retry_loop)
          (gave_up x h e (omega (arith, requests_in-cons call h is_request))
            (inr (omega (arith, requests_in-cons call h is_request))) (Grows-refl h))
  ]
  retry_loop-Tried backoff attempt (suc left) h = elim (Result-cases (env.reply (call ∷ h))) [
    | inl (s, e) ↦
        rw (e, retry_loop)
          (replied s h e (omega (arith, requests_in-cons call h is_request)) (Grows-refl h))
    | inr (x, e) ↦ elim (Bool-cases (is_retryable x)) [
      | inr no_retry ↦
          rw (e, no_retry, retry_loop)
            (gave_up x h e (omega (arith, requests_in-cons call h is_request)) (inl no_retry)
              (Grows-refl h))
      | inl retry ↦ elim (Bool-cases (backoff * attempt == 0)) [
        | inl at_once ↦
            rw (e, retry, at_once, retry_loop)
              (Tried-later env call (suc left) h (call ∷ h) _ (requests_in-cons call h is_request)
                (Grows-one call h) (retry_loop-Tried backoff (attempt + 1) left (call ∷ h)))
        | inr delayed ↦ elim (Bool-cases (env.fires (waits (backoff * attempt) ∷ call ∷ h))) [
          | inl fired ↦
              rw (e, retry, delayed, fired, retry_loop)
                (Tried-later env call (suc left) h (waits (backoff * attempt) ∷ call ∷ h) _
                  (requests_in-cons call h is_request)
                  (Grows-two (waits (backoff * attempt)) call h)
                  (retry_loop-Tried backoff (attempt + 1) left
                    (waits (backoff * attempt) ∷ call ∷ h)))
          | inr ended ↦
              rw (e, retry, delayed, ended, retry_loop)
                (stopped (backoff * attempt) h ended
                  (omega (arith, requests_in-cons call h is_request)) (Grows-refl h))
        ]
      ]
    ]
  ]

  -- `callWithRetry` makes the call at most as often as the policy says, and at least once; it
  -- returns the reply of its last call, gives up only when that failed for good or all attempts
  -- are used, and stops early only when the context is done during a wait.
  pub call_with_retry-Tried :
      (c : Coordinator) (h : List Call)
      → Tried env call (attempts_of c.retry_attempts) h (call_with_retry env c call h)
  unfolding call_with_retry
  call_with_retry-Tried c h =
      let whole : suc (attempts_of c.retry_attempts - 1) ≡ attempts_of c.retry_attempts =
        omega (arith, attempts_of-pos c.retry_attempts) in
      subst
        (λ t.
          Tried env call t h
            (retry_loop env c.retry_backoff 1 (attempts_of c.retry_attempts - 1) call h))
        whole (retry_loop-Tried c.retry_backoff 1 (attempts_of c.retry_attempts - 1) h)
