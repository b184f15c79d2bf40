-- ===== src/Tests/Recovery.antt =====
-- Runs of cli/src/driver/windows/recovery.rs on an attempt that counts the waits it still grants.
use wisp_disk.Base.{ℕ, ◌-◌, ◌≡◌, ◌≢◌, ◌↔◌, not, [], none, ◌==◌, if◌then◌else◌, arith}
use wisp_disk.Base.Text.{text}
use wisp_disk.Protocol.{Operation}
use wisp_disk.Errors.{
  OperationHandle, Error, os_error, unresolved_outcome, recovery_failed, error_exit_code, ok, err,
}
use wisp_disk.Errors.ExitCode.{IsUnresolved, error_exit_code_iff}
use wisp_disk.Recovery.{RecoveryAttempt, resolve_operation}
use wisp_disk.Recovery.Outcomes.{Settles, resolve_operation-Settles}
use wisp_disk.Recovery.Resubmission.{watched, EndsRightly, resolve_operation-EndsRightly}
use wisp_disk.Recovery.Deadline.{HasDeadline, resolve_operation-returns}
use wisp_disk.Tests.System.{response_of}

abbrev handle : OperationHandle
handle = record { adapter_instance = 7; id = 5 }

-- A submission is lost until the waits are used up; a query says that the operation is reserved.
abbrev counting : RecoveryAttempt ℕ
counting = record {
  submit = λ s. (
    if s == 0
        then ok (response_of Operation.delete_reserved Operation.delete_disk 3 1)
        else err (os_error 1117),
    s,
  );
  query = λ s. (ok (response_of Operation.query_result Operation.delete_disk 1 1), s);
  wait_for_retry = λ s. (not (s == 0), s - 1);
}

resolve_operation-EndsRightly_example :
    EndsRightly handle Operation.delete_disk
      (resolve_operation (watched counting) handle Operation.delete_disk 8 (2, []))
resolve_operation-EndsRightly_example =
    resolve_operation-EndsRightly counting handle Operation.delete_disk 8 2

resolve_operation-Settles_example :
    Settles handle Operation.delete_disk
      (resolve_operation counting handle Operation.delete_disk 8 2)
resolve_operation-Settles_example =
    resolve_operation-Settles counting handle Operation.delete_disk 8 2

abbrev waits : ℕ → ℕ
waits s = s

counting-HasDeadline : HasDeadline counting waits
counting-HasDeadline = record {
  submit_keeps = λ s. omega arith;
  query_keeps = λ s. omega arith;
  wait_falls = λ s h. ground arith;
}

resolve_operation-returns_example :
    resolve_operation counting handle Operation.delete_disk 6 2 ≢ none
resolve_operation-returns_example =
    resolve_operation-returns counting waits counting-HasDeadline handle Operation.delete_disk 6 2
      (omega arith)

abbrev unresolved_deletion : Error
unresolved_deletion = unresolved_outcome handle (os_error 1117)

abbrev unresolved_rollback : Error
unresolved_rollback =
    recovery_failed (os_error 5) (text "driver rollback also failed") unresolved_deletion

error_exit_code_iff_example :
    (error_exit_code unresolved_rollback ≡ 3 ↔ IsUnresolved unresolved_rollback)
    × (error_exit_code unresolved_rollback ≡ 1 ↔ ¬ IsUnresolved unresolved_rollback)
error_exit_code_iff_example = error_exit_code_iff unresolved_rollback
