-- ===== src/Recovery/Outcomes.antt =====
-- cli/src/driver/windows/recovery.rs, what `resolve_operation` can return.
use wisp_disk.Base.{
  ℕ, zero, suc, ◌≡◌, refl, ◌⊎◌, inl, inr, Bool, true, false, Option, none, some, arith,
}
use wisp_disk.Protocol.{Operation, OperationState, OperationResponse, state_code, matches_operation}
use wisp_disk.Errors.{
  OperationHandle, Error, driver_rejection, Result, ok, err, downcast_rejection,
  downcast_unresolved,
}
use wisp_disk.Recovery.{
  RecoveryAction, submit, query, RecoveryProgress, complete, reserved, pending, invalid,
  RecoveryErrors, RecoveryAttempt, Resolved, interpret, record_submission, unresolved,
  already_deleted, waited, wait_and_repeat, interpreted, replied, submission_recorded, submitted,
  resolve_loop, resolve_operation, no_errors, record_query,
}

module _ (handle : OperationHandle) (mutation : Operation) where
  -- The reply is of this operation, and says that it succeeded.
  pub record Confirms (reply : OperationResponse) : Type 0 where
    pub same_operation : matches_operation reply handle.adapter_instance handle.id mutation ≡ true
    pub has_succeeded : reply.state ≡ state_code OperationState.succeeded
    pub without_error : reply.result_status ≡ 0

  -- A failure is a rejection by the driver, the word that the created device was deleted since, or
  -- it says that the outcome of this operation is unresolved.
  pub data Explains (e : Error) : Type 0 where
    rejected : (status : ℕ) → downcast_rejection e ≡ some status → Explains e
    deleted :
        (reply : OperationResponse)
        → matches_operation reply handle.adapter_instance handle.id mutation ≡ true
        → reply.state ≡ state_code OperationState.deleted
        → e ≡ already_deleted handle reply
        → Explains e
    left_open : downcast_unresolved e ≡ some handle → Explains e

  abbrev pub Settles : {S : Type 0} → Resolved S → Type 0
  Settles none = Unit
  Settles (some (ok reply, s)) = Confirms reply
  Settles (some (err e, s)) = Explains e

  -- What a round makes of an interpreted reply.
  abbrev Reads : Result RecoveryProgress → Type 0
  Reads (ok (complete r)) = Confirms r
  Reads (ok reserved) = Unit
  Reads (ok pending) = Unit
  Reads (ok (invalid e)) = Unit
  Reads (err e) = Explains e

  interpret-complete :
      (reply r : OperationResponse) → interpret handle reply mutation ≡ ok (complete r) → Confirms r
  unfolding interpret
  interpret-complete reply r h = ground arith

  interpret-err :
      (reply : OperationResponse) (e : Error)
      → interpret handle reply mutation ≡ err e
      → (e ≡ driver_rejection reply.result_status)
        ⊎ ((matches_operation reply handle.adapter_instance handle.id mutation ≡ true)
            × (reply.state ≡ state_code OperationState.deleted)
            × (e ≡ already_deleted handle reply))
  unfolding interpret
  interpret-err reply e h = ground arith

  err-Explains :
      (reply : OperationResponse) (e : Error) → interpret handle reply mutation ≡ err e → Explains e
  unfolding downcast_rejection
  err-Explains reply e h = elim (interpret-err reply e h) [
    | inl q ↦ rejected reply.result_status (rw q)
    | inr (same, gone, q) ↦ deleted reply same gone q
  ]

  interpret-Reads :
      (reply : OperationResponse) (p : Result RecoveryProgress)
      → interpret handle reply mutation ≡ p
      → Reads p
  interpret-Reads reply (ok (complete r)) h = interpret-complete reply r h
  interpret-Reads reply (ok reserved) h = tt
  interpret-Reads reply (ok pending) h = tt
  interpret-Reads reply (ok (invalid e)) h = tt
  interpret-Reads reply (err e) h = err-Explains reply e h

  record_submission-err :
      (errors : RecoveryErrors) (e e' : Error) (found : Option ℕ)
      → downcast_rejection e ≡ found
      → record_submission errors e ≡ err e'
      → (status : ℕ) × (downcast_rejection e' ≡ some status)
  unfolding record_submission
  record_submission-err errors e e' none q h = ground arith
  record_submission-err errors e e' (some status) q h = (status, ground arith)

  record_submission-Explains :
      (errors : RecoveryErrors) (e e' : Error) → record_submission errors e ≡ err e' → Explains e'
  record_submission-Explains errors e e' h =
      let (status, found) = record_submission-err errors e e' (downcast_rejection e) refl h in
      rejected status found

  unresolved-Explains : (errors : RecoveryErrors) → Explains (unresolved errors handle)
  unfolding unresolved downcast_unresolved
  unresolved-Explains errors = left_open refl

module _ {S : Type 0} (attempt : RecoveryAttempt S) (handle : OperationHandle)
    (mutation : Operation) (again : RecoveryAction → RecoveryErrors → S → Resolved S)
    (rest : (action : RecoveryAction) (errors : RecoveryErrors) (s : S)
      → Settles handle mutation (again action errors s)) where
  waited-Settles :
      (action : RecoveryAction) (errors : RecoveryErrors) (w : Bool × S)
      → Settles handle mutation (waited attempt handle mutation again action errors w)
  unfolding waited
  waited-Settles action errors (true, s) = rest action errors s
  waited-Settles action errors (false, s) = unresolved-Explains handle mutation errors

  wait-Settles :
      (action : RecoveryAction) (errors : RecoveryErrors) (s : S)
      → Settles handle mutation (wait_and_repeat attempt handle mutation again action errors s)
  unfolding wait_and_repeat
  wait-Settles action errors s = waited-Settles action errors (attempt.wait_for_retry s)

  interpreted-Settles :
      (errors : RecoveryErrors) (progress : Result RecoveryProgress) (s : S)
      → Reads handle mutation progress
      → Settles handle mutation (interpreted attempt handle mutation again progress errors s)
  unfolding interpreted
  interpreted-Settles errors (err e) s h = h
  interpreted-Settles errors (ok (complete r)) s h = h
  interpreted-Settles errors (ok reserved) s h = wait-Settles submit errors s
  interpreted-Settles errors (ok pending) s h = wait-Settles query errors s
  interpreted-Settles errors (ok (invalid e)) s h = wait-Settles query (record_query errors e) s

  replied-Settles :
      (current : Result OperationResponse) (errors : RecoveryErrors) (s : S)
      → Settles handle mutation (replied attempt handle mutation again current errors s)
  unfolding replied
  replied-Settles (ok reply) errors s =
      interpreted-Settles errors (interpret handle reply mutation) s
        (interpret-Reads handle mutation reply (interpret handle reply mutation) refl)
  replied-Settles (err e) errors s = wait-Settles query (record_query errors e) s

  submitted-Settles :
      (current : Result OperationResponse) (errors : RecoveryErrors) (s : S)
      → Settles handle mutation (submitted attempt handle mutation again current errors s)
  unfolding submitted submission_recorded
  submitted-Settles (ok reply) errors s = replied-Settles (ok reply) errors s
  submitted-Settles (err e) errors s = recorded (record_submission errors e) refl
    where
      recorded :
          (r : Result RecoveryErrors)
          → record_submission errors e ≡ r
          → Settles handle mutation (submission_recorded attempt handle mutation again r s)
      recorded (ok errors') q = rest query errors' s
      recorded (err e') q = record_submission-Explains handle mutation errors e e' q

module _ {S : Type 0} (attempt : RecoveryAttempt S) (handle : OperationHandle)
    (mutation : Operation) where
  resolve_loop-Settles :
      (fuel : ℕ) (action : RecoveryAction) (errors : RecoveryErrors) (s : S)
      → Settles handle mutation (resolve_loop attempt handle mutation fuel action errors s)
  unfolding resolve_loop
  resolve_loop-Settles zero action errors s = tt
  resolve_loop-Settles (suc fuel) submit errors s =
      submitted-Settles attempt handle mutation _ (resolve_loop-Settles fuel) (attempt.submit s).0
        errors (attempt.submit s).1
  resolve_loop-Settles (suc fuel) query errors s =
      replied-Settles attempt handle mutation _ (resolve_loop-Settles fuel) (attempt.query s).0
        errors (attempt.query s).1

  -- A success of `resolve_operation` is confirmed by the driver for this very operation. A failure
  -- is a rejection by the driver, a device that was deleted since, or the typed error that the
  -- outcome of this operation is unresolved.
  pub resolve_operation-Settles :
      (fuel : ℕ) (s : S)
      → Settles handle mutation (resolve_operation attempt handle mutation fuel s)
  unfolding resolve_operation
  resolve_operation-Settles fuel s = resolve_loop-Settles fuel submit no_errors s
