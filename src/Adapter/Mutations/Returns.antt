-- ===== src/Adapter/Mutations/Returns.antt =====
-- cli/src/driver/windows/adapter/mod.rs, on the rounds of `resolve_operation` that `create_disk`
-- and `delete_by_id` need before the deadline of thirty seconds.
use wisp_disk.Base.{ℕ, ◌≤◌, ◌≢◌, none, arith}
use wisp_disk.Args.{DriveLetter, MediaKind}
use wisp_disk.Protocol.{Operation, OperationResponse, create_disk, delete_disk}
use wisp_disk.Errors.{OperationHandle}
use wisp_disk.Recovery.Deadline.{resolve_operation-returns}
use wisp_disk.Machine.{Windows, Process, HasClock}
use wisp_disk.Machine.Loops.{run, >>=-ne-none}
use wisp_disk.Adapter.Operations.{
  ControlOperation, create_reserved_operation, delete_reserved_operation,
}
use wisp_disk.Adapter.Reserved.{reserved_attempt, new_deadline}
use wisp_disk.Adapter.Reserved.Schedule.{
  waits_left, reserved_attempt-HasDeadline, new_deadline-waits,
}
use wisp_disk.Adapter.Requests.{Adapter, recover, start_create, start_delete}
use wisp_disk.Adapter.Mutations.{create, delete_by_id}

abbrev pub enough_rounds : ℕ
enough_rounds = 302

module _ {W : Windows} (clock : HasClock W) (adapter : Adapter W) (fuel : ℕ)
    (enough : enough_rounds ≤ fuel) where
  recover-returns :
      {Request : Type 0} (op : ControlOperation Request OperationResponse)
      (handle : OperationHandle) (mutation : Operation) (request : Request) (p : Process W)
      → recover adapter fuel op handle mutation request p ≢ none
  unfolding recover
  recover-returns op handle mutation request p =
      resolve_operation-returns
        (reserved_attempt op adapter.handle request handle (new_deadline p).0)
        (waits_left clock (new_deadline p).0)
        (reserved_attempt-HasDeadline clock op adapter.handle request handle (new_deadline p).0)
        handle mutation fuel (new_deadline p).1 (omega (arith, new_deadline-waits clock p))

  -- With a clock that runs, `create_disk` returns.
  pub create-returns :
      (letter : DriveLetter) (media : MediaKind) (size_bytes : ℕ) (p : Process W)
      → create adapter fuel letter media size_bytes p ≢ none
  unfolding create
  create-returns letter media size_bytes p =
      >>=-ne-none (run (start_create adapter letter media size_bytes)) _ p (λ z. cc)
        (λ (handle, request) q.
          >>=-ne-none (recover adapter fuel create_reserved_operation handle create_disk request) _
            q (recover-returns create_reserved_operation handle create_disk request q)
            (λ a q'. λ z. cc))

  -- With a clock that runs, `delete_by_id` returns.
  pub delete_by_id-returns :
      (expected_instance device_id : ℕ) (p : Process W)
      → delete_by_id adapter fuel expected_instance device_id p ≢ none
  unfolding delete_by_id
  delete_by_id-returns expected_instance device_id p =
      >>=-ne-none (run (start_delete adapter expected_instance device_id)) _ p (λ z. cc)
        (λ (handle, request) q.
          >>=-ne-none (recover adapter fuel delete_reserved_operation handle delete_disk request) _
            q (recover-returns delete_reserved_operation handle delete_disk request q)
            (λ a q'. λ z. cc))
