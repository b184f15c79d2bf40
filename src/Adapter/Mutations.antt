-- ===== src/Adapter/Mutations.antt =====
-- cli/src/driver/windows/adapter/mod.rs, `create_disk` and `delete_by_id`. `fuel` bounds the rounds
-- of `resolve_operation`.
pub mod Created
pub mod Deleted
pub mod Returns
use wisp_disk.Base.{ℕ, Option}
use wisp_disk.Args.{DriveLetter, MediaKind}
use wisp_disk.Protocol.{OperationResponse, create_disk, delete_disk}
use wisp_disk.Errors.{OperationHandle, Result, ok, err}
use wisp_disk.Machine.{Windows, Process, M}
use wisp_disk.Machine.Io
use wisp_disk.Machine.Loops.{◌>>=◌, ◌>>◌, run}
use wisp_disk.Adapter.Operations.{create_reserved_operation, delete_reserved_operation}
use wisp_disk.Adapter.Requests.{
  Adapter, CreatedDisk, created_disk_of_response, recover, start_create, created_or_unresolved,
  start_delete, confirm_delete,
}

module _ {W : Windows} (adapter : Adapter W) (fuel : ℕ) where
  unfoldable pub create : DriveLetter → MediaKind → ℕ → M W CreatedDisk
  create letter media size_bytes = do
    (handle, request) ← run (start_create adapter letter media size_bytes)
    response ← recover adapter fuel create_reserved_operation handle create_disk request
    run (Io.of_result (created_or_unresolved handle (created_disk_of_response response)))

  unfoldable pub delete_by_id : ℕ → ℕ → M W (Unit {0})
  delete_by_id expected_instance device_id = do
    (handle, request) ← run (start_delete adapter expected_instance device_id)
    _ ← recover adapter fuel delete_reserved_operation handle delete_disk request
    run (confirm_delete adapter handle device_id)
