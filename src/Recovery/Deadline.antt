-- ===== src/Recovery/Deadline.antt =====
-- cli/src/driver/windows/recovery.rs, `resolve_operation` under a retry schedule that ends.
use wisp_disk.Base.{
  ℕ, zero, suc, ◌+◌, ◌*◌, ◌≤◌, ◌<◌, ◌≡◌, ◌≢◌, refl, Bool, true, false, none, arith,
}
use wisp_disk.Protocol.{Operation, OperationResponse}
use wisp_disk.Errors.{OperationHandle, Result, ok, err}
use wisp_disk.Recovery.{
  RecoveryAction, submit, query, RecoveryProgress, complete, reserved, pending, invalid,
  RecoveryErrors, RecoveryAttempt, Resolved, interpret, record_submission, record_query, no_errors,
  waited, wait_and_repeat, interpreted, replied, submission_recorded, submitted, resolve_loop,
  resolve_operation,
}

-- A retry schedule that ends: `left` bounds the waits that will still be granted. Talking to the
-- driver grants no further waits.
pub record HasDeadline {S : Type 0} (attempt : RecoveryAttempt S) (left : S → ℕ) : Type 0 where
  pub submit_keeps : (s : S) → left (attempt.submit s).1 ≤ left s
  pub query_keeps : (s : S) → left (attempt.query s).1 ≤ left s
  pub wait_falls :
      (s : S) → (attempt.wait_for_retry s).0 ≡ true → left (attempt.wait_for_retry s).1 < left s

-- The rounds that are enough from an action on.
abbrev rounds : RecoveryAction → ℕ → ℕ
rounds submit n = 2 * n + 2
rounds query n = 2 * n + 1

module _ {S : Type 0} (attempt : RecoveryAttempt S) (left : S → ℕ)
    (deadline : HasDeadline attempt left) (handle : OperationHandle) (mutation : Operation)
    (fuel : ℕ) (again : RecoveryAction → RecoveryErrors → S → Resolved S)
    (rest : (action : RecoveryAction) (errors : RecoveryErrors) (s : S)
      → rounds action (left s) ≤ fuel
      → again action errors s ≢ none) where
  waited-ne-none :
      (action : RecoveryAction) (errors : RecoveryErrors) (w : Bool × S)
      → (w.0 ≡ true → rounds action (left w.1) ≤ fuel)
      → waited attempt handle mutation again action errors w ≢ none
  unfolding waited
  waited-ne-none action errors (true, s) h = rest action errors s (h refl)
  waited-ne-none action errors (false, s) h = λ e. cc

  rounds-le : (action : RecoveryAction) (m n : ℕ) → m < n → 2 * n ≤ fuel → rounds action m ≤ fuel
  rounds-le submit m n h k = omega arith
  rounds-le query m n h k = omega arith

  wait-ne-none :
      (action : RecoveryAction) (errors : RecoveryErrors) (s : S)
      → 2 * left s ≤ fuel
      → wait_and_repeat attempt handle mutation again action errors s ≢ none
  unfolding wait_and_repeat
  wait-ne-none action errors s h = waited-ne-none action errors (attempt.wait_for_retry s) (λ q.
      rounds-le action (left (attempt.wait_for_retry s).1) (left s) (deadline.wait_falls s q) h)

  interpreted-ne-none :
      (p : Result RecoveryProgress) (errors : RecoveryErrors) (s : S)
      → 2 * left s ≤ fuel
      → interpreted attempt handle mutation again p errors s ≢ none
  unfolding interpreted
  interpreted-ne-none (err e) errors s h = λ q. cc
  interpreted-ne-none (ok (complete r)) errors s h = λ q. cc
  interpreted-ne-none (ok reserved) errors s h = wait-ne-none submit errors s h
  interpreted-ne-none (ok pending) errors s h = wait-ne-none query errors s h
  interpreted-ne-none (ok (invalid e)) errors s h = wait-ne-none query (record_query errors e) s h

  replied-ne-none :
      (r : Result OperationResponse) (errors : RecoveryErrors) (s : S)
      → 2 * left s ≤ fuel
      → replied attempt handle mutation again r errors s ≢ none
  unfolding replied
  replied-ne-none (ok reply) errors s h =
      interpreted-ne-none (interpret handle reply mutation) errors s h
  replied-ne-none (err e) errors s h = wait-ne-none query (record_query errors e) s h

  submission_recorded-ne-none :
      (r : Result RecoveryErrors) (s : S)
      → 2 * left s + 1 ≤ fuel
      → submission_recorded attempt handle mutation again r s ≢ none
  unfolding submission_recorded
  submission_recorded-ne-none (ok errors) s h = rest query errors s h
  submission_recorded-ne-none (err e) s h = λ q. cc

  submitted-ne-none :
      (r : Result OperationResponse) (errors : RecoveryErrors) (s : S)
      → 2 * left s + 1 ≤ fuel
      → submitted attempt handle mutation again r errors s ≢ none
  unfolding submitted
  submitted-ne-none (ok reply) errors s h = replied-ne-none (ok reply) errors s (omega arith)
  submitted-ne-none (err e) errors s h =
      submission_recorded-ne-none (record_submission errors e) s h

module _ {S : Type 0} (attempt : RecoveryAttempt S) (left : S → ℕ)
    (deadline : HasDeadline attempt left) (handle : OperationHandle) (mutation : Operation) where
  resolve_loop-ne-none :
      (fuel : ℕ) (action : RecoveryAction) (errors : RecoveryErrors) (s : S)
      → rounds action (left s) ≤ fuel
      → resolve_loop attempt handle mutation fuel action errors s ≢ none
  unfolding resolve_loop
  resolve_loop-ne-none zero submit errors s h = absurd (omega arith)
  resolve_loop-ne-none zero query errors s h = absurd (omega arith)
  resolve_loop-ne-none (suc fuel) submit errors s h =
      submitted-ne-none attempt left deadline handle mutation fuel
        (resolve_loop attempt handle mutation fuel) (resolve_loop-ne-none fuel) (attempt.submit s).0
        errors (attempt.submit s).1 (omega (arith, deadline.submit_keeps s))
  resolve_loop-ne-none (suc fuel) query errors s h =
      replied-ne-none attempt left deadline handle mutation fuel
        (resolve_loop attempt handle mutation fuel) (resolve_loop-ne-none fuel) (attempt.query s).0
        errors (attempt.query s).1 (omega (arith, deadline.query_keeps s))

  -- With a retry schedule that grants at most `left s` waits, `resolve_operation` returns within
  -- `2 * left s + 2` rounds.
  pub resolve_operation-returns :
      (fuel : ℕ) (s : S)
      → 2 * left s + 2 ≤ fuel
      → resolve_operation attempt handle mutation fuel s ≢ none
  unfolding resolve_operation
  resolve_operation-returns fuel s h = resolve_loop-ne-none fuel submit no_errors s h
