-- ===== src/Recovery.antt =====
-- cli/src/driver/windows/recovery.rs, resolving a reserved operation by submitting it, querying its
-- outcome and submitting it again. The transport and the retry schedule are the `RecoveryAttempt`.
-- The loop runs on fuel, a count of its rounds; `none` means that the fuel ran out.
pub mod Outcomes
pub mod Resubmission
pub mod Deadline
use wisp_disk.Base.{
  ℕ, zero, suc, Bool, true, false, not, ◌&&◌, Option, none, some, ◌++◌, ◌==◌, if◌then◌else◌,
}
use wisp_disk.Base.Text.{Text, text, decimal}
use wisp_disk.Protocol.{
  Operation, OperationState, OperationResponse, state_code, is_negative, is_valid_reservation,
  matches_operation,
}
use wisp_disk.Errors.{
  OperationHandle, Error, message, driver_rejection, unresolved_outcome, Result, ok, err,
  downcast_rejection, is_terminal, recovery_failed,
}

-- `OperationHandle::try_from`.
unfoldable pub handle_of_response : OperationResponse → Result OperationHandle
unfolding is_valid_reservation
handle_of_response reply =
    if not (is_valid_reservation reply)
    then err (message (text "driver returned an invalid operation reservation"))
    else ok (record { adapter_instance = reply.adapter_instance; id = reply.operation_id })

pub data RecoveryAction : Type 0 where
  submit query : RecoveryAction

pub data RecoveryProgress : Type 0 where
  complete : OperationResponse → RecoveryProgress
  reserved pending : RecoveryProgress
  invalid : Error → RecoveryProgress

pub already_deleted : OperationHandle → OperationResponse → Error
already_deleted handle reply = message (
    text "operation "
    ++ (decimal handle.id
        ++ (text " created device "
            ++ (decimal reply.device_id ++ text " which has already been deleted"))))

-- `OperationHandle::interpret`.
unfoldable pub interpret : OperationHandle → OperationResponse → Operation → Result RecoveryProgress
interpret handle reply mutation =
    if not (matches_operation reply handle.adapter_instance handle.id mutation)
    then ok (invalid (message (text "operation query returned a different identity")))
    else if reply.state == state_code OperationState.succeeded && reply.result_status == 0
    then ok (complete reply)
    else if reply.state == state_code OperationState.failed && is_negative reply.result_status
    then err (driver_rejection reply.result_status)
    else if reply.state == state_code OperationState.deleted
    then err (already_deleted handle reply)
    else if reply.state == state_code OperationState.reserved
    then ok reserved
    else if reply.state == state_code OperationState.pending
    then ok pending
    else ok (invalid (message (text "driver returned an invalid operation state or result")))

pub record RecoveryErrors : Type 0 where
  pub submission : Option Error
  pub query : Option Error

abbrev pub no_errors : RecoveryErrors
no_errors = record { submission = none; query = none }

abbrev terminal_rejection : Option ℕ → Bool
terminal_rejection none = false
terminal_rejection (some status) = is_terminal status

unfoldable pub record_submission : RecoveryErrors → Error → Result RecoveryErrors
unfolding downcast_rejection
record_submission errors e =
    if terminal_rejection (downcast_rejection e)
    then err e
    else ok (record errors { submission = some e })

abbrev pub record_query : RecoveryErrors → Error → RecoveryErrors
record_query errors e = record errors { query = some e }

unresolved_cause : Option Error → Option Error → Error
unresolved_cause (some first) (some last) =
    recovery_failed first (text "operation query also failed") last
unresolved_cause (some first) none = first
unresolved_cause none (some last) = last
unresolved_cause none none = message (text "operation remained pending past the recovery deadline")

-- `RecoveryErrors::unresolved`.
unfoldable pub unresolved : RecoveryErrors → OperationHandle → Error
unfolding unresolved_cause
unresolved errors handle =
    unresolved_outcome handle (unresolved_cause errors.submission errors.query)

-- The trait. Each call changes the state of the attempt.
pub record RecoveryAttempt (S : Type 0) : Type 0 where
  pub submit : S → Result OperationResponse × S
  pub query : S → Result OperationResponse × S
  pub wait_for_retry : S → Bool × S

-- What the loop returns with the state, once it returns.
abbrev pub Resolved : Type 0 → Type 0
Resolved S = Option (Result OperationResponse × S)

module _ {S : Type 0} (attempt : RecoveryAttempt S) (handle : OperationHandle)
    (mutation : Operation) where
  -- The end of a round. `again` is the rest of the loop.
  waited :
      (RecoveryAction → RecoveryErrors → S → Resolved S)
      → RecoveryAction
      → RecoveryErrors
      → Bool × S
      → Resolved S
  waited again action errors (true, s) = again action errors s
  waited again action errors (false, s) = some (err (unresolved errors handle), s)

  wait_and_repeat :
      (RecoveryAction → RecoveryErrors → S → Resolved S)
      → RecoveryAction
      → RecoveryErrors
      → S
      → Resolved S
  unfolding waited
  wait_and_repeat again action errors s = waited again action errors (attempt.wait_for_retry s)

  interpreted :
      (RecoveryAction → RecoveryErrors → S → Resolved S)
      → Result RecoveryProgress
      → RecoveryErrors
      → S
      → Resolved S
  unfolding wait_and_repeat
  interpreted again (err e) errors s = some (err e, s)
  interpreted again (ok (complete reply)) errors s = some (ok reply, s)
  interpreted again (ok reserved) errors s = wait_and_repeat again submit errors s
  interpreted again (ok pending) errors s = wait_and_repeat again query errors s
  interpreted again (ok (invalid e)) errors s =
      wait_and_repeat again query (record_query errors e) s

  -- The `match` on `current`.
  replied :
      (RecoveryAction → RecoveryErrors → S → Resolved S)
      → Result OperationResponse
      → RecoveryErrors
      → S
      → Resolved S
  unfolding interpreted
  replied again (ok reply) errors s = interpreted again (interpret handle reply mutation) errors s
  replied again (err e) errors s = wait_and_repeat again query (record_query errors e) s

  submission_recorded :
      (RecoveryAction → RecoveryErrors → S → Resolved S) → Result RecoveryErrors → S → Resolved S
  submission_recorded again (ok errors) s = again query errors s
  submission_recorded again (err e) s = some (err e, s)

  -- A failed submission is queried at once, without a wait.
  submitted :
      (RecoveryAction → RecoveryErrors → S → Resolved S)
      → Result OperationResponse
      → RecoveryErrors
      → S
      → Resolved S
  unfolding submission_recorded replied
  submitted again (ok reply) errors s = replied again (ok reply) errors s
  submitted again (err e) errors s = submission_recorded again (record_submission errors e) s

  resolve_loop : ℕ → RecoveryAction → RecoveryErrors → S → Resolved S
  unfolding submitted
  resolve_loop zero action errors s = none
  resolve_loop (suc fuel) submit errors s =
      let (current, s') = attempt.submit s in submitted (resolve_loop fuel) current errors s'
  resolve_loop (suc fuel) query errors s =
      let (current, s') = attempt.query s in replied (resolve_loop fuel) current errors s'

  unfoldable pub resolve_operation : ℕ → S → Resolved S
  unfolding resolve_loop
  resolve_operation fuel s = resolve_loop fuel submit no_errors s
