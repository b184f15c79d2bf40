-- ===== src/Errors/ExitCode.antt =====
-- cli/src/driver.rs, `error_exit_code`, against a description of the errors that stand for an unresolved
-- outcome.
use wisp_disk.Base.{◌≡◌, ◌↔◌, refl, inl, inr, true, is_some, Bool-cases, arith}
use wisp_disk.Base.Text.{Text}
use wisp_disk.Errors.{
  OperationHandle, Error, message, os_error, driver_rejection, package_not_embedded, context,
  unresolved_outcome, recovery_failure, volume_lock_failure, recovery_failed, downcast_unresolved,
  cause_unresolved, is_unresolved, error_exit_code,
}

-- An `UnresolvedOutcome` stands in the chain of the error, which goes on with the primary error of a
-- `RecoveryFailure`.
pub data HasOutcome : Error → Type 0 where
  here : {handle : OperationHandle} {e : Error} → HasOutcome (unresolved_outcome handle e)
  behind_context : {t : Text} {e : Error} → HasOutcome e → HasOutcome (context t e)
  in_primary :
      {t : Text} {cause primary : Error}
      → HasOutcome primary
      → HasOutcome (recovery_failure t cause primary)
  behind_lock_failure : {e : Error} → HasOutcome e → HasOutcome (volume_lock_failure e)

-- The cause of the outermost `RecoveryFailure` in the chain.
pub data HasCause : Error → Error → Type 0 where
  its : {t : Text} {cause primary : Error} → HasCause (recovery_failure t cause primary) cause
  cause_behind_context :
      {t : Text} {e cause : Error} → HasCause e cause → HasCause (context t e) cause
  cause_behind_outcome :
      {handle : OperationHandle} {e cause : Error}
      → HasCause e cause
      → HasCause (unresolved_outcome handle e) cause
  cause_behind_lock_failure :
      {e cause : Error} → HasCause e cause → HasCause (volume_lock_failure e) cause

-- The outcome is unresolved in the chain of the error, or in that of the cause that the outermost
-- failure of a recovery has, or in that of the cause that the outermost failure of a recovery has
-- there, and so on.
pub data IsUnresolved : Error → Type 0 where
  its_outcome : {e : Error} → HasOutcome e → IsUnresolved e
  its_cause : {e cause : Error} → HasCause e cause → IsUnresolved cause → IsUnresolved e

downcast_unresolved_sound : (e : Error) → is_some (downcast_unresolved e) ≡ true → HasOutcome e
unfolding downcast_unresolved
downcast_unresolved_sound (message t) h = cc
downcast_unresolved_sound (os_error code) h = cc
downcast_unresolved_sound (driver_rejection status) h = cc
downcast_unresolved_sound package_not_embedded h = cc
downcast_unresolved_sound (context t e) h = behind_context (downcast_unresolved_sound e h)
downcast_unresolved_sound (unresolved_outcome handle e) h = here
downcast_unresolved_sound (recovery_failure t cause primary) h =
    in_primary (downcast_unresolved_sound primary h)
downcast_unresolved_sound (volume_lock_failure e) h =
    behind_lock_failure (downcast_unresolved_sound e h)

downcast_unresolved_complete : {e : Error} → HasOutcome e → is_some (downcast_unresolved e) ≡ true
unfolding downcast_unresolved
downcast_unresolved_complete here = refl
downcast_unresolved_complete (behind_context h) = downcast_unresolved_complete h
downcast_unresolved_complete (in_primary h) = downcast_unresolved_complete h
downcast_unresolved_complete (behind_lock_failure h) = downcast_unresolved_complete h

cause_unresolved_sound :
    (e : Error)
    → cause_unresolved e ≡ true
    → (cause : Error) × HasCause e cause × IsUnresolved cause
unfolding cause_unresolved
cause_unresolved_sound (message t) h = cc
cause_unresolved_sound (os_error code) h = cc
cause_unresolved_sound (driver_rejection status) h = cc
cause_unresolved_sound package_not_embedded h = cc
cause_unresolved_sound (context t e) h =
    let (cause, has, u) = cause_unresolved_sound e h in (cause, cause_behind_context has, u)
cause_unresolved_sound (unresolved_outcome handle e) h =
    let (cause, has, u) = cause_unresolved_sound e h in (cause, cause_behind_outcome has, u)
cause_unresolved_sound (recovery_failure t cause primary) h =
    elim (Bool-cases (is_some (downcast_unresolved cause))) [
      | inl own ↦ (cause, its, its_outcome (downcast_unresolved_sound cause own))
      | inr other ↦
          let (deeper, has, u) = cause_unresolved_sound cause (ground arith) in
          (cause, its, its_cause has u)
    ]
cause_unresolved_sound (volume_lock_failure e) h =
    let (cause, has, u) = cause_unresolved_sound e h in (cause, cause_behind_lock_failure has, u)

cause_unresolved_complete :
    {e cause : Error} → HasCause e cause → is_unresolved cause ≡ true → cause_unresolved e ≡ true
unfolding cause_unresolved is_unresolved
cause_unresolved_complete its h = h
cause_unresolved_complete (cause_behind_context has) h = cause_unresolved_complete has h
cause_unresolved_complete (cause_behind_outcome has) h = cause_unresolved_complete has h
cause_unresolved_complete (cause_behind_lock_failure has) h = cause_unresolved_complete has h

is_unresolved_sound : (e : Error) → is_unresolved e ≡ true → IsUnresolved e
unfolding is_unresolved
is_unresolved_sound e h = elim (Bool-cases (is_some (downcast_unresolved e))) [
  | inl own ↦ its_outcome (downcast_unresolved_sound e own)
  | inr other ↦ let (cause, has, u) = cause_unresolved_sound e (ground arith) in its_cause has u
]

is_unresolved_complete : {e : Error} → IsUnresolved e → is_unresolved e ≡ true
unfolding is_unresolved
is_unresolved_complete (its_outcome o) = ground (arith, downcast_unresolved_complete o)
is_unresolved_complete (its_cause has u) =
    ground (arith, cause_unresolved_complete has (is_unresolved_complete u))

-- The program exits with 3 exactly when an unresolved outcome stands in the chain of the error, or
-- in that of the cause of the outermost recovery failure in it, and so on in that cause; with 1
-- exactly otherwise.
pub error_exit_code_iff :
    (e : Error)
    → (error_exit_code e ≡ 3 ↔ IsUnresolved e) × (error_exit_code e ≡ 1 ↔ ¬ IsUnresolved e)
unfolding error_exit_code
error_exit_code_iff e = elim (Bool-cases (is_unresolved e)) [
  | inl found ↦
      let u = is_unresolved_sound e found in
      (((λ h. u), (λ h. ground arith)), ((λ h. absurd (ground arith)), (λ h. absurd (h u))))
  | inr missed ↦ (
    ((λ h. absurd (ground arith)), (λ u. absurd (ground (arith, is_unresolved_complete u)))),
    ((λ h u. ground (arith, is_unresolved_complete u)), (λ h. ground arith)),
  )
]

-- A failed recovery whose own error exits with 3 makes the whole exit with 3.
pub exit_code-of_recovery :
    (primary : Error) (action : Text) (cause : Error)
    → error_exit_code cause ≡ 3
    → error_exit_code (recovery_failed primary action cause) ≡ 3
unfolding error_exit_code is_unresolved downcast_unresolved cause_unresolved
exit_code-of_recovery primary action cause h = ground arith
