-- ===== src/Adapter/Requests.antt =====
-- cli/src/driver/windows/adapter/mod.rs, the operations of the protocol on one adapter: the checks
-- of `query_version`, the reservation and recovery of a mutation, `create_disk`, `delete_by_id`.
-- `fuel` bounds the rounds of `resolve_operation`.
pub mod Inventory
use Prim.Native.Nat.{bit_and}
use wisp_disk.Base.{ℕ, Bool, not, ◌||◌, List, ◌++◌, ltb, ◌==◌, if◌then◌else◌, any, take}
use wisp_disk.Base.Text.{text, decimal}
use wisp_disk.Args.{DriveLetter, MediaKind}
use wisp_disk.Protocol.{
  Operation, operation_code, media_code, QueryVersionResponse, ReservedCreateRequest,
  ReservedDeleteRequest, OperationResponse, DiskState, StateResponse, maximum_disk_count,
  cap_operation_recovery, create_disk, delete_disk, is_valid_created_disk, is_valid_state,
  ProtocolMediaKind,
}
use wisp_disk.Errors.{OperationHandle, Error, message, unresolved_outcome, Result, ok, err}
use wisp_disk.Recovery.{handle_of_response, resolve_operation}
use wisp_disk.Machine.{Windows, Io, M}
use wisp_disk.Machine.Io.{refuse_if, of_result, ◌>>=◌, ◌>>◌, pure, map_err}
use wisp_disk.Adapter.Operations.{
  ControlOperation, query_version_operation, reserve_operation, list_state_operation,
  create_reserved_operation, delete_reserved_operation,
}
use wisp_disk.Adapter.Transport.{request_header, send}
use wisp_disk.Adapter.Reserved.{reserved_attempt, new_deadline, operation_request}

-- `LOGICAL_SECTOR_SIZE` of the adapter.
abbrev pub logical_sector_size : ℕ
logical_sector_size = 512

pub record CreatedDisk : Type 0 where
  pub adapter_instance : ℕ
  pub device_id : ℕ
  pub path_id : ℕ
  pub target_id : ℕ
  pub lun : ℕ

-- `CreatedDisk::try_from`.
unfoldable pub created_disk_of_response : OperationResponse → Result CreatedDisk
unfolding is_valid_created_disk
created_disk_of_response reply =
    if not (is_valid_created_disk reply)
    then err (message (text "driver returned an invalid created disk identity"))
    else ok (record {
      adapter_instance = reply.adapter_instance;
      device_id = reply.device_id;
      path_id = reply.path_id;
      target_id = reply.target_id;
      lun = reply.lun;
    })

pub record Adapter (W : Windows) : Type 0 where
  pub handle : W.Handle
  pub port_number : ℕ

media_kind_code : MediaKind → ℕ
media_kind_code MediaKind.fixed = media_code ProtocolMediaKind.fixed
media_kind_code MediaKind.removable = media_code ProtocolMediaKind.removable

-- The entries that a state response counts: `state.disks[..state.disk_count as usize]`.
abbrev pub counted_disks : StateResponse → List DiskState
counted_disks state = take state.disk_count state.disks

abbrev pub lists_device : ℕ → StateResponse → Bool
lists_device device_id state =
    any (λ entry. entry.disk.device_id == device_id) (counted_disks state)

-- `.context(UnresolvedOutcome(handle))`.
unfoldable pub created_or_unresolved : OperationHandle → Result CreatedDisk → Result CreatedDisk
created_or_unresolved handle (ok created) = ok created
created_or_unresolved handle (err e) = err (unresolved_outcome handle e)

pub stale_instance : ℕ → Error
stale_instance device_id =
    message (text "adapter changed before deletion; refusing stale device ID " ++ decimal device_id)

unconfirmed : OperationHandle → ℕ → Error
unconfirmed handle device_id = unresolved_outcome handle (
    message (
      text "delete operation "
      ++ (decimal handle.id
          ++ (text " completed but device "
              ++ (decimal device_id ++ text " removal could not be confirmed")))))

module _ {W : Windows} (adapter : Adapter W) where
  unfoldable pub query_version : Io W QueryVersionResponse
  query_version = do
    request ← request_header query_version_operation
    response ← send query_version_operation adapter.handle request
    refuse_if (not (response.version_major == 0) || ltb response.version_minor 2) (
        message (
          text "unsupported loaded driver version "
          ++ (decimal response.version_major ++ (text "." ++ decimal response.version_minor))))
    refuse_if (ltb maximum_disk_count response.maximum_disk_count)
        (message (text "driver reports a disk-count limit larger than the shared ABI"))
    pure response

  unfoldable pub require_recovery : Io W (Unit {0})
  require_recovery = do
    version ← query_version
    refuse_if (bit_and version.capabilities cap_operation_recovery == 0) (
        message (
          text
            "loaded WispDisk driver lacks operation recovery; upgrade the driver before creating or deleting disks"))

  unfoldable pub reserve : Operation → Io W OperationHandle
  reserve mutation = do
    require_recovery
    header ← request_header reserve_operation
    response ←
        send reserve_operation adapter.handle
          (record { header = header; mutation = operation_code mutation; reserved = 0 })
    refuse_if (not (response.mutation == operation_code mutation))
        (message (text "driver returned an invalid operation reservation"))
    of_result (handle_of_response response)

  -- `Adapter::state`.
  unfoldable pub query_state : Io W StateResponse
  query_state = do
    request ← request_header list_state_operation
    response ← send list_state_operation adapter.handle request
    refuse_if (not (is_valid_state response)) (message (text "driver returned invalid inventory"))
    pure response

  -- `Adapter::recover::<O>`.
  unfoldable pub recover :
      {Request : Type 0}
      → ℕ
      → ControlOperation Request OperationResponse
      → OperationHandle
      → Operation
      → Request
      → M W OperationResponse
  recover fuel op handle mutation request p =
      let (deadline, p') = new_deadline p in
      resolve_operation (reserved_attempt op adapter.handle request handle deadline) handle mutation
        fuel p'

  reserved_create_request :
      OperationHandle → DriveLetter → MediaKind → ℕ → Io W ReservedCreateRequest
  unfolding media_kind_code
  reserved_create_request handle letter media size_bytes = do
    operation ← operation_request create_reserved_operation handle
    pure (record {
      operation = operation;
      size_bytes = size_bytes;
      logical_sector_size = logical_sector_size;
      media_kind = media_kind_code media;
      requested_drive_letter = letter.char;
      reserved16 = 0;
      reserved32 = 0;
    })

  reserved_delete_request : OperationHandle → ℕ → Io W ReservedDeleteRequest
  reserved_delete_request handle device_id = do
    operation ← operation_request delete_reserved_operation handle
    pure (record { operation = operation; device_id = device_id; reserved = 0 })

  -- The first two steps of `create_disk`.
  unfoldable pub start_create :
      DriveLetter → MediaKind → ℕ → Io W (OperationHandle × ReservedCreateRequest)
  unfolding reserved_create_request
  start_create letter media size_bytes = do
    handle ← reserve create_disk
    request ← reserved_create_request handle letter media size_bytes
    pure (handle, request)

  -- The steps of `delete_by_id` before the submission: a stale instance is refused.
  unfoldable pub start_delete : ℕ → ℕ → Io W (OperationHandle × ReservedDeleteRequest)
  unfolding reserved_delete_request
  start_delete expected_instance device_id = do
    handle ← reserve delete_disk
    refuse_if (not (handle.adapter_instance == expected_instance)) (stale_instance device_id)
    request ← reserved_delete_request handle device_id
    pure (handle, request)

  -- The steps of `delete_by_id` behind the submission: the inventory must no longer list the device.
  unfoldable pub confirm_delete : OperationHandle → ℕ → Io W (Unit {0})
  unfolding unconfirmed
  confirm_delete handle device_id = do
    state ← map_err (unresolved_outcome handle) query_state
    refuse_if
        (not (state.adapter_instance == handle.adapter_instance) || lists_device device_id state)
        (unconfirmed handle device_id)
