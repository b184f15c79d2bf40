-- ===== src/Protocol/Wire.antt =====
-- cli/src/protocol.rs, the byte layout of the `repr(C)` structs: the fields in their order, each in
-- little-endian bytes (x64 and ARM64). `DiskInfo` ends in four bytes of padding, which the others
-- do not have. A request is written as its bytes and a response is read from its bytes, which is what the
-- casts of cli/src/driver/windows/adapter/mod.rs come to. `Sizes` is about the sizes of the requests,
-- `RoundTrip` about reading a request back from its bytes.
pub mod Sizes
pub mod RoundTrip
use wisp_disk.Base.{ℕ, zero, suc, List, [], ◌∷◌, ◌++◌}
use wisp_disk.Base.Bytes.{Bytes, Reader, le_bytes, read_le, ◌>>=◌, pure}
use wisp_disk.Protocol.{
  RequestHeader, ResponseHeader, QueryVersionResponse, DiskInfo, ReserveRequest, OperationRequest,
  ReservedCreateRequest, ReservedDeleteRequest, OperationResponse, DiskState, StateResponse,
  maximum_disk_count,
}

unfoldable pub encode_request_header : RequestHeader → Bytes
encode_request_header x =
    le_bytes 4 x.struct_size
    ++ (le_bytes 4 x.protocol_version
        ++ (le_bytes 4 x.operation ++ (le_bytes 4 x.flags ++ (le_bytes 8 x.correlation_id))))

unfoldable pub read_request_header : Reader RequestHeader
read_request_header = do
  struct_size ← read_le 4
  protocol_version ← read_le 4
  operation ← read_le 4
  flags ← read_le 4
  correlation_id ← read_le 8
  pure (record {
    struct_size = struct_size;
    protocol_version = protocol_version;
    operation = operation;
    flags = flags;
    correlation_id = correlation_id;
  })

unfoldable pub read_response_header : Reader ResponseHeader
read_response_header = do
  struct_size ← read_le 4
  protocol_version ← read_le 4
  operation ← read_le 4
  status ← read_le 4
  correlation_id ← read_le 8
  pure (record {
    struct_size = struct_size;
    protocol_version = protocol_version;
    operation = operation;
    status = status;
    correlation_id = correlation_id;
  })

unfoldable pub read_query_version_response : Reader QueryVersionResponse
read_query_version_response = do
  header ← read_response_header
  version_major ← read_le 4
  version_minor ← read_le 4
  capabilities ← read_le 4
  maximum_disk_count ← read_le 4
  pure (record {
    header = header;
    version_major = version_major;
    version_minor = version_minor;
    capabilities = capabilities;
    maximum_disk_count = maximum_disk_count;
  })

unfoldable pub read_disk_info : Reader DiskInfo
read_disk_info = do
  device_id ← read_le 4
  path_id ← read_le 1
  target_id ← read_le 1
  lun ← read_le 1
  reserved8 ← read_le 1
  size_bytes ← read_le 8
  logical_sector_size ← read_le 4
  media_kind ← read_le 4
  requested_drive_letter ← read_le 2
  reserved16 ← read_le 2
  padding ← read_le 4
  pure (record {
    device_id = device_id;
    path_id = path_id;
    target_id = target_id;
    lun = lun;
    reserved8 = reserved8;
    size_bytes = size_bytes;
    logical_sector_size = logical_sector_size;
    media_kind = media_kind;
    requested_drive_letter = requested_drive_letter;
    reserved16 = reserved16;
  })

unfoldable pub encode_reserve_request : ReserveRequest → Bytes
encode_reserve_request x =
    encode_request_header x.header ++ (le_bytes 4 x.mutation ++ (le_bytes 4 x.reserved))

unfoldable pub read_reserve_request : Reader ReserveRequest
read_reserve_request = do
  header ← read_request_header
  mutation ← read_le 4
  reserved ← read_le 4
  pure (record { header = header; mutation = mutation; reserved = reserved })

unfoldable pub encode_operation_request : OperationRequest → Bytes
encode_operation_request x =
    encode_request_header x.header ++ (le_bytes 8 x.adapter_instance ++ (le_bytes 8 x.operation_id))

unfoldable pub read_operation_request : Reader OperationRequest
read_operation_request = do
  header ← read_request_header
  adapter_instance ← read_le 8
  operation_id ← read_le 8
  pure
      (record { header = header; adapter_instance = adapter_instance; operation_id = operation_id })

unfoldable pub encode_reserved_create_request : ReservedCreateRequest → Bytes
encode_reserved_create_request x =
    encode_operation_request x.operation
    ++ (le_bytes 8 x.size_bytes
        ++ (le_bytes 4 x.logical_sector_size
            ++ (le_bytes 4 x.media_kind
                ++ (le_bytes 2 x.requested_drive_letter
                    ++ (le_bytes 2 x.reserved16 ++ (le_bytes 4 x.reserved32))))))

unfoldable pub read_reserved_create_request : Reader ReservedCreateRequest
read_reserved_create_request = do
  operation ← read_operation_request
  size_bytes ← read_le 8
  logical_sector_size ← read_le 4
  media_kind ← read_le 4
  requested_drive_letter ← read_le 2
  reserved16 ← read_le 2
  reserved32 ← read_le 4
  pure (record {
    operation = operation;
    size_bytes = size_bytes;
    logical_sector_size = logical_sector_size;
    media_kind = media_kind;
    requested_drive_letter = requested_drive_letter;
    reserved16 = reserved16;
    reserved32 = reserved32;
  })

unfoldable pub encode_reserved_delete_request : ReservedDeleteRequest → Bytes
encode_reserved_delete_request x =
    encode_operation_request x.operation ++ (le_bytes 4 x.device_id ++ (le_bytes 4 x.reserved))

unfoldable pub read_reserved_delete_request : Reader ReservedDeleteRequest
read_reserved_delete_request = do
  operation ← read_operation_request
  device_id ← read_le 4
  reserved ← read_le 4
  pure (record { operation = operation; device_id = device_id; reserved = reserved })

unfoldable pub read_operation_response : Reader OperationResponse
read_operation_response = do
  header ← read_response_header
  adapter_instance ← read_le 8
  operation_id ← read_le 8
  mutation ← read_le 4
  state ← read_le 4
  result_status ← read_le 4
  device_id ← read_le 4
  path_id ← read_le 1
  target_id ← read_le 1
  lun ← read_le 1
  reserved8 ← read_le 1
  reserved32 ← read_le 4
  pure (record {
    header = header;
    adapter_instance = adapter_instance;
    operation_id = operation_id;
    mutation = mutation;
    state = state;
    result_status = result_status;
    device_id = device_id;
    path_id = path_id;
    target_id = target_id;
    lun = lun;
    reserved8 = reserved8;
    reserved32 = reserved32;
  })

unfoldable pub read_disk_state : Reader DiskState
read_disk_state = do
  disk ← read_disk_info
  create_operation_id ← read_le 8
  state ← read_le 4
  reserved ← read_le 4
  pure (record {
    disk = disk;
    create_operation_id = create_operation_id;
    state = state;
    reserved = reserved;
  })

unfoldable pub read_disks : ℕ → Reader (List DiskState)
read_disks zero = pure []
read_disks (suc n) = do x ← read_disk_state; xs ← read_disks n; pure (x ∷ xs)

unfoldable pub read_state_response : Reader StateResponse
read_state_response = do
  header ← read_response_header
  adapter_instance ← read_le 8
  allocated_bytes ← read_le 8
  disk_count ← read_le 4
  pending_operations ← read_le 4
  disks ← read_disks maximum_disk_count
  pure (record {
    header = header;
    adapter_instance = adapter_instance;
    allocated_bytes = allocated_bytes;
    disk_count = disk_count;
    pending_operations = pending_operations;
    disks = disks;
  })
