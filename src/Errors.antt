-- ===== src/Errors.antt =====
-- The errors of the command-line program: `anyhow::Error` as the sources under
-- cli/src/driver build and inspect it, with the typed errors of
-- cli/src/driver/windows/recovery.rs, cli/src/driver/windows/volume/mod.rs and cli/src/driver.rs.
-- An error is a chain: its root, and the contexts that were put around it, outermost first. A
-- downcast finds the first value of its type from the outside in.
pub mod ExitCode
use wisp_disk.Base.{
  ℕ, Bool, true, false, not, ◌||◌, Option, none, some, ◌++◌, ◌==◌, if◌then◌else◌, is_some,
}
use wisp_disk.Base.Text.{Text, text, decimal, hex_upper}

pub record OperationHandle : Type 0 where
  pub adapter_instance : ℕ
  pub id : ℕ

pub data Error : Type 0 where
  message : Text → Error
  os_error : (code : ℕ) → Error
  driver_rejection : (status : ℕ) → Error
  package_not_embedded : Error
  context : Text → Error → Error
  unresolved_outcome : OperationHandle → Error → Error
  recovery_failure : (action : Text) (cause primary : Error) → Error
  volume_lock_failure : Error → Error

pub data Result {ℓ} (A : Type ℓ) : Type ℓ where
  ok : A → Result A
  err : Error → Result A

-- `Result::with_context`.
abbrev pub with_context {ℓ} : {A : Type ℓ} → Result A → Text → Result A
with_context (ok a) t = ok a
with_context (err e) t = err (context t e)

-- `error.downcast_ref::<DriverRejection>()`.
unfoldable pub downcast_rejection : Error → Option ℕ
downcast_rejection (message t) = none
downcast_rejection (os_error code) = none
downcast_rejection (driver_rejection status) = some status
downcast_rejection package_not_embedded = none
downcast_rejection (context t e) = downcast_rejection e
downcast_rejection (unresolved_outcome handle e) = downcast_rejection e
downcast_rejection (recovery_failure action cause primary) = downcast_rejection primary
downcast_rejection (volume_lock_failure e) = downcast_rejection e

-- `error.downcast_ref::<UnresolvedOutcome>()`.
unfoldable pub downcast_unresolved : Error → Option OperationHandle
downcast_unresolved (message t) = none
downcast_unresolved (os_error code) = none
downcast_unresolved (driver_rejection status) = none
downcast_unresolved package_not_embedded = none
downcast_unresolved (context t e) = downcast_unresolved e
downcast_unresolved (unresolved_outcome handle e) = some handle
downcast_unresolved (recovery_failure action cause primary) = downcast_unresolved primary
downcast_unresolved (volume_lock_failure e) = downcast_unresolved e

-- `error.downcast_ref::<VolumeLockFailure>().is_some()`.
unfoldable pub has_lock_failure : Error → Bool
has_lock_failure (message t) = false
has_lock_failure (os_error code) = false
has_lock_failure (driver_rejection status) = false
has_lock_failure package_not_embedded = false
has_lock_failure (context t e) = has_lock_failure e
has_lock_failure (unresolved_outcome handle e) = has_lock_failure e
has_lock_failure (recovery_failure action cause primary) = has_lock_failure primary
has_lock_failure (volume_lock_failure e) = true

-- `error.downcast_ref::<io::Error>()`, by the raw OS code.
unfoldable pub downcast_os_error : Error → Option ℕ
downcast_os_error (message t) = none
downcast_os_error (os_error code) = some code
downcast_os_error (driver_rejection status) = none
downcast_os_error package_not_embedded = none
downcast_os_error (context t e) = downcast_os_error e
downcast_os_error (unresolved_outcome handle e) = downcast_os_error e
downcast_os_error (recovery_failure action cause primary) = downcast_os_error primary
downcast_os_error (volume_lock_failure e) = downcast_os_error e

-- The cause of the outermost `RecoveryFailure` is unresolved, for itself or by its own cause.
cause_unresolved : Error → Bool
cause_unresolved (message t) = false
cause_unresolved (os_error code) = false
cause_unresolved (driver_rejection status) = false
cause_unresolved package_not_embedded = false
cause_unresolved (context t e) = cause_unresolved e
cause_unresolved (unresolved_outcome handle e) = cause_unresolved e
cause_unresolved (recovery_failure action cause primary) =
    is_some (downcast_unresolved cause) || cause_unresolved cause
cause_unresolved (volume_lock_failure e) = cause_unresolved e

unfoldable pub is_unresolved : Error → Bool
unfolding cause_unresolved downcast_unresolved
is_unresolved e = is_some (downcast_unresolved e) || cause_unresolved e

abbrev pub recovery_failed : Error → Text → Error → Error
recovery_failed primary action recovery = recovery_failure action recovery primary

unfoldable pub error_exit_code : Error → ℕ
unfolding is_unresolved
error_exit_code e = if is_unresolved e then 3 else 1

-- `NTSTATUS` of `STATUS_DEVICE_BUSY`.
abbrev pub status_device_busy : ℕ
status_device_busy = 0x8000_0011

-- `DriverRejection::is_terminal`.
abbrev pub is_terminal : ℕ → Bool
is_terminal status = not (status == status_device_busy)

-- The `Display` of `DriverRejection` and of `UnresolvedOutcome`.
unfoldable pub show_rejection : ℕ → Text
show_rejection status = text "driver rejected operation with NTSTATUS 0x" ++ hex_upper 8 status

unfoldable pub show_unresolved : OperationHandle → Text
show_unresolved handle =
    text "outcome unresolved for adapter instance "
    ++ (decimal handle.adapter_instance
        ++ (text " operation "
            ++ (decimal handle.id ++ text "; query inventory before starting another mutation")))
