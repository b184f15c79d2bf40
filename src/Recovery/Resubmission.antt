-- ===== src/Recovery/Resubmission.antt =====
-- cli/src/driver/windows/recovery.rs, when an operation is submitted again. The attempt is watched:
-- its calls are written to a log, the newest first, and change nothing else.
use wisp_disk.Base.{ℕ, zero, suc, ◌≡◌, refl, Bool, true, false, none, some, List, [], ◌∷◌, arith}
use wisp_disk.Protocol.{Operation, OperationState, OperationResponse, state_code, matches_operation}
use wisp_disk.Errors.{OperationHandle, Result, ok, err}
use wisp_disk.Recovery.{
  RecoveryAction, submit, query, RecoveryProgress, complete, reserved, pending, invalid,
  RecoveryErrors, RecoveryAttempt, Resolved, interpret, record_submission, record_query, no_errors,
  waited, wait_and_repeat, interpreted, replied, submission_recorded, submitted, resolve_loop,
  resolve_operation,
}

pub data Event : Type 0 where
  submission : Result OperationResponse → Event
  outcome_query : Result OperationResponse → Event
  wait : Bool → Event

abbrev pub Watched : Type 0 → Type 0
Watched S = S × List Event

-- The attempt, with a log of its calls.
abbrev pub watched : {S : Type 0} → RecoveryAttempt S → RecoveryAttempt (Watched S)
watched attempt = record {
  submit = λ (s, log). let (r, s') = attempt.submit s in (r, (s', submission r ∷ log));
  query = λ (s, log). let (r, s') = attempt.query s in (r, (s', outcome_query r ∷ log));
  wait_for_retry =
      λ (s, log). let (more, s') = attempt.wait_for_retry s in (more, (s', wait more ∷ log));
}

module _ (handle : OperationHandle) (mutation : Operation) where
  -- The driver's reply says that this operation is reserved and has not been started.
  pub data SaysReserved : Result OperationResponse → Type 0 where
    says_reserved :
        (reply : OperationResponse)
        → matches_operation reply handle.adapter_instance handle.id mutation ≡ true
        → reply.state ≡ state_code OperationState.reserved
        → SaysReserved (ok reply)

  -- After this log a submission is allowed: it is the first call, or the last reply, before the
  -- wait, says that the operation is still reserved.
  pub data MaySubmit : List Event → Type 0 where
    at_first : MaySubmit []
    after_query :
        {r : Result OperationResponse} {log : List Event}
        → SaysReserved r
        → MaySubmit (wait true ∷ outcome_query r ∷ log)
    after_submission :
        {r : Result OperationResponse} {log : List Event}
        → SaysReserved r
        → MaySubmit (wait true ∷ submission r ∷ log)

  -- Every submission in the log was allowed when it was made.
  abbrev pub SubmitsRightly : List Event → Type 0
  SubmitsRightly [] = Unit
  SubmitsRightly (submission r ∷ log) = MaySubmit log × SubmitsRightly log
  SubmitsRightly (outcome_query r ∷ log) = SubmitsRightly log
  SubmitsRightly (wait more ∷ log) = SubmitsRightly log

  abbrev pub EndsRightly : {S : Type 0} → Resolved (Watched S) → Type 0
  EndsRightly none = Unit
  EndsRightly (some (r, (s, log))) = SubmitsRightly log

  abbrev Ready : RecoveryAction → List Event → Type 0
  Ready submit log = MaySubmit log
  Ready query log = Unit

  interpret-reserved :
      (reply : OperationResponse)
      → interpret handle reply mutation ≡ ok reserved
      → SaysReserved (ok reply)
  unfolding interpret
  interpret-reserved reply h = says_reserved reply (ground arith) (ground arith)

module _ {S : Type 0} (attempt : RecoveryAttempt S) (handle : OperationHandle)
    (mutation : Operation)
    (again : RecoveryAction → RecoveryErrors → Watched S → Resolved (Watched S))
    (rest : (action : RecoveryAction) (errors : RecoveryErrors) (s : S) (log : List Event)
      → SubmitsRightly handle mutation log
      → Ready handle mutation action log
      → EndsRightly handle mutation (again action errors (s, log))) where
  waited-EndsRightly :
      (action : RecoveryAction) (errors : RecoveryErrors) (more : Bool) (s : S) (log : List Event)
      → SubmitsRightly handle mutation log
      → Ready handle mutation action (wait true ∷ log)
      → EndsRightly handle mutation (
          waited (watched attempt) handle mutation again action errors (more, (s, wait more ∷ log)))
  unfolding waited
  waited-EndsRightly action errors true s log h k = rest action errors s (wait true ∷ log) h k
  waited-EndsRightly action errors false s log h k = h

  -- One round's end, after the reply `r` that the newest event of the log holds.
  interpreted-EndsRightly :
      (p : Result RecoveryProgress) (errors : RecoveryErrors) (s : S) (log : List Event)
      → SubmitsRightly handle mutation log
      → (p ≡ ok reserved → MaySubmit handle mutation (wait true ∷ log))
      → EndsRightly handle mutation
          (interpreted (watched attempt) handle mutation again p errors (s, log))
  unfolding interpreted wait_and_repeat
  interpreted-EndsRightly (err e) errors s log h k = h
  interpreted-EndsRightly (ok (complete r)) errors s log h k = h
  interpreted-EndsRightly (ok reserved) errors s log h k =
      waited-EndsRightly submit errors (attempt.wait_for_retry s).0 (attempt.wait_for_retry s).1 log
        h (k refl)
  interpreted-EndsRightly (ok pending) errors s log h k =
      waited-EndsRightly query errors (attempt.wait_for_retry s).0 (attempt.wait_for_retry s).1 log
        h tt
  interpreted-EndsRightly (ok (invalid e)) errors s log h k =
      waited-EndsRightly query (record_query errors e) (attempt.wait_for_retry s).0
        (attempt.wait_for_retry s).1 log h tt

  replied-EndsRightly :
      (r : Result OperationResponse) (errors : RecoveryErrors) (s : S) (log : List Event)
      → SubmitsRightly handle mutation log
      → (SaysReserved handle mutation r → MaySubmit handle mutation (wait true ∷ log))
      → EndsRightly handle mutation
          (replied (watched attempt) handle mutation again r errors (s, log))
  unfolding replied wait_and_repeat
  replied-EndsRightly (ok reply) errors s log h k =
      interpreted-EndsRightly (interpret handle reply mutation) errors s log h
        (λ q. k (interpret-reserved handle mutation reply q))
  replied-EndsRightly (err e) errors s log h k =
      waited-EndsRightly query (record_query errors e) (attempt.wait_for_retry s).0
        (attempt.wait_for_retry s).1 log h tt

  submission_recorded-EndsRightly :
      (r : Result RecoveryErrors) (s : S) (log : List Event)
      → SubmitsRightly handle mutation log
      → EndsRightly handle mutation
          (submission_recorded (watched attempt) handle mutation again r (s, log))
  unfolding submission_recorded
  submission_recorded-EndsRightly (ok errors) s log h = rest query errors s log h tt
  submission_recorded-EndsRightly (err e) s log h = h

  submitted-EndsRightly :
      (r : Result OperationResponse) (errors : RecoveryErrors) (s : S) (log : List Event)
      → SubmitsRightly handle mutation (submission r ∷ log)
      → EndsRightly handle mutation
          (submitted (watched attempt) handle mutation again r errors (s, submission r ∷ log))
  unfolding submitted
  submitted-EndsRightly (ok reply) errors s log h =
      replied-EndsRightly (ok reply) errors s (submission (ok reply) ∷ log) h after_submission
  submitted-EndsRightly (err e) errors s log h =
      submission_recorded-EndsRightly (record_submission errors e) s (submission (err e) ∷ log) h

module _ {S : Type 0} (attempt : RecoveryAttempt S) (handle : OperationHandle)
    (mutation : Operation) where
  resolve_loop-EndsRightly :
      (fuel : ℕ) (action : RecoveryAction) (errors : RecoveryErrors) (s : S) (log : List Event)
      → SubmitsRightly handle mutation log
      → Ready handle mutation action log
      → EndsRightly handle mutation
          (resolve_loop (watched attempt) handle mutation fuel action errors (s, log))
  unfolding resolve_loop
  resolve_loop-EndsRightly zero action errors s log h k = tt
  resolve_loop-EndsRightly (suc fuel) submit errors s log h k =
      submitted-EndsRightly attempt handle mutation
        (resolve_loop (watched attempt) handle mutation fuel) (resolve_loop-EndsRightly fuel)
        (attempt.submit s).0 errors (attempt.submit s).1 log (k, h)
  resolve_loop-EndsRightly (suc fuel) query errors s log h k =
      replied-EndsRightly attempt handle mutation
        (resolve_loop (watched attempt) handle mutation fuel) (resolve_loop-EndsRightly fuel)
        (attempt.query s).0 errors (attempt.query s).1 (outcome_query (attempt.query s).0 ∷ log) h
        after_query

  -- In every run of `resolve_operation`, each submission but the first comes right after a wait and
  -- a reply of the driver which says that this operation is still reserved.
  pub resolve_operation-EndsRightly :
      (fuel : ℕ) (s : S)
      → EndsRightly handle mutation
          (resolve_operation (watched attempt) handle mutation fuel (s, []))
  unfolding resolve_operation
  resolve_operation-EndsRightly fuel s =
      resolve_loop-EndsRightly fuel submit no_errors s [] tt at_first
