-- ===== src/Adapter/Mutations/Created.antt =====
-- cli/src/driver/windows/adapter/mod.rs, what `create_disk` has established of a new disk.
use mathlib.Core.Path.{subst}
use wisp_disk.Base.{ℕ, ◌<◌, ◌≡◌, ◌≢◌, some, arith}
use wisp_disk.Args.{DriveLetter, MediaKind}
use wisp_disk.Protocol.{
  OperationResponse, ReservedCreateRequest, create_disk, maximum_disk_count, is_valid_created_disk,
  matches_operation,
}
use wisp_disk.Errors.{OperationHandle, ok}
use wisp_disk.Recovery.Outcomes.{Confirms, Settles, resolve_operation-Settles}
use wisp_disk.Machine.{Windows, Process}
use wisp_disk.Machine.Loops.{run, >>=-eq_ok}
use wisp_disk.Adapter.Operations.{create_reserved_operation}
use wisp_disk.Adapter.Reserved.{reserved_attempt, new_deadline}
use wisp_disk.Adapter.Requests.{
  Adapter, CreatedDisk, created_disk_of_response, recover, start_create, created_or_unresolved,
}
use wisp_disk.Adapter.Mutations.{create}

-- The identity of a disk that exists on the adapter instance of the operation.
pub record IsCreated (handle : OperationHandle) (created : CreatedDisk) : Type 0 where
  pub same_instance : created.adapter_instance ≡ handle.adapter_instance
  pub has_device_id : created.device_id ≢ 0
  pub on_path_zero : created.path_id ≡ 0
  pub on_target_zero : created.target_id ≡ 0
  pub lun_in_range : created.lun < maximum_disk_count

created_or_unresolved-IsCreated :
    (handle : OperationHandle) (reply : OperationResponse) (created : CreatedDisk)
    → Confirms handle create_disk reply
    → created_or_unresolved handle (created_disk_of_response reply) ≡ ok created
    → IsCreated handle created
unfolding created_or_unresolved created_disk_of_response is_valid_created_disk matches_operation
created_or_unresolved-IsCreated handle reply created c h = ground arith

module _ {W : Windows} (adapter : Adapter W) (fuel : ℕ) where
  recover-Settles :
      (handle : OperationHandle) (request : ReservedCreateRequest) (p : Process W)
      → Settles handle create_disk
          (recover adapter fuel create_reserved_operation handle create_disk request p)
  unfolding recover
  recover-Settles handle request p =
      resolve_operation-Settles
        (reserved_attempt create_reserved_operation adapter.handle request handle
          (new_deadline p).0)
        handle create_disk fuel (new_deadline p).1

  recover-Confirms :
      (handle : OperationHandle) (request : ReservedCreateRequest) (p : Process W)
      (reply : OperationResponse) (q : Process W)
      → recover adapter fuel create_reserved_operation handle create_disk request p
        ≡ some (ok reply, q)
      → Confirms handle create_disk reply
  recover-Confirms handle request p reply q h =
      subst (Settles handle create_disk) h (recover-Settles handle request p)

  -- A disk that `create_disk` returns belongs to the adapter instance that reserved the operation,
  -- has a device ID, and stands on path 0, target 0 and one of the sixteen LUNs.
  pub create-IsCreated :
      (letter : DriveLetter) (media : MediaKind) (size_bytes : ℕ) (p : Process W)
      (created : CreatedDisk) (p' : Process W)
      → create adapter fuel letter media size_bytes p ≡ some (ok created, p')
      → (handle : OperationHandle) × (request : ReservedCreateRequest) × (q : Process W)
        × (start_create adapter letter media size_bytes p ≡ (ok (handle, request), q))
        × IsCreated handle created
  unfolding create
  create-IsCreated letter media size_bytes p created p' h =
      let ((handle, request), q, started, rest) =
        >>=-eq_ok (run (start_create adapter letter media size_bytes)) _ p h in
      let (reply, q', recovered, last) =
        >>=-eq_ok (recover adapter fuel create_reserved_operation handle create_disk request) _ q
          rest in
      (
        handle,
        request,
        q,
        cc started,
        created_or_unresolved-IsCreated handle reply created
            (recover-Confirms handle request q reply q' recovered) (cc last),
      )
