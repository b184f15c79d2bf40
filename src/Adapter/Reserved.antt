-- ===== src/Adapter/Reserved.antt =====
-- cli/src/driver/windows/adapter/reserved_operation.rs, the transport and the deadline of one
-- reserved mutation, as the `RecoveryAttempt` of `resolve_operation`.
pub mod Schedule
use wisp_disk.Base.{ℕ, ◌+◌, ◌-◌, ◌*◌, Bool, true, false, ltb, leb, if◌then◌else◌}
use wisp_disk.Protocol.{Operation, OperationRequest, OperationResponse}
use wisp_disk.Errors.{OperationHandle, Result, ok, err}
use wisp_disk.Recovery.{RecoveryAttempt}
use wisp_disk.Machine.{Windows, Process, Io}
use wisp_disk.Machine.Io.{◌>>=◌}
use wisp_disk.Adapter.Operations.{ControlOperation, query_result_operation}
use wisp_disk.Adapter.Transport.{request_header, send}

-- 30 seconds and 200 milliseconds, in nanoseconds.
abbrev pub device_wait : ℕ
device_wait = 30_000_000_000

abbrev pub retry_interval : ℕ
retry_interval = 200_000_000

-- `operation_request::<O>(handle)`.
unfoldable pub operation_request :
    {W : Windows} {Request Response : Type 0}
    → ControlOperation Request Response
    → OperationHandle
    → Io W OperationRequest
unfolding request_header
operation_request op handle p =
    let (header, p') = request_header op p in
    elim header [
      | err e ↦ (err e, p')
      | ok h ↦ (
        ok (record {
          header = h;
          adapter_instance = handle.adapter_instance;
          operation_id = handle.id;
        }),
        p',
      )
    ]

-- `Adapter::query_operation`.
unfoldable pub query_operation : {W : Windows} → W.Handle → OperationHandle → Io W OperationResponse
unfolding operation_request
query_operation adapter handle = do
  request ← operation_request query_result_operation handle
  send query_result_operation adapter request

module _ {W : Windows} (deadline : ℕ) where
  -- `wait_for_retry`: a sleep of at most the interval, and never past the deadline by choice.
  unfoldable pub wait_for_retry : Process W → Bool × Process W
  wait_for_retry p =
      let (now, os) = W.now p.os in
      if leb deadline now
      then (false, record p { os = os })
      else let pause =
          if ltb (deadline - now) retry_interval then deadline - now else retry_interval in
        let (later, os') = W.now (W.sleep pause os) in (ltb later deadline, record p { os = os' })

-- `ReservedOperation`, with its deadline.
abbrev pub reserved_attempt :
    {W : Windows} {Request : Type 0}
    → ControlOperation Request OperationResponse
    → W.Handle
    → Request
    → OperationHandle
    → ℕ
    → RecoveryAttempt (Process W)
reserved_attempt op adapter request handle deadline = record {
  submit = send op adapter request;
  query = query_operation adapter handle;
  wait_for_retry = wait_for_retry deadline;
}

-- `ReservedOperation::new` reads the clock for the deadline.
unfoldable pub new_deadline : {W : Windows} → Process W → ℕ × Process W
new_deadline {W} p = let (now, os) = W.now p.os in (now + device_wait, record p { os = os })
