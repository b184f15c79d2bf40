-- ===== src/Protocol/Wire/RoundTrip.antt =====
-- cli/src/protocol.rs, on reading requests back from their bytes.
use wisp_disk.Base.{◌<◌, ◌≡◌, ◌++◌, append_assoc}
use wisp_disk.Base.Bytes.{Bytes, read_le-le_bytes}
use wisp_disk.Protocol.{
  RequestHeader, ReserveRequest, OperationRequest, ReservedCreateRequest, ReservedDeleteRequest,
}
use wisp_disk.Protocol.Wire.{
  encode_request_header, read_request_header, encode_reserve_request, read_reserve_request,
  encode_operation_request, read_operation_request, encode_reserved_create_request,
  read_reserved_create_request, encode_reserved_delete_request, read_reserved_delete_request,
}

-- The fields are in the range of their types.
pub record RequestHeaderFits (x : RequestHeader) : Type 0 where
  pub struct_size_fits : x.struct_size < 0x1_0000_0000
  pub protocol_version_fits : x.protocol_version < 0x1_0000_0000
  pub operation_fits : x.operation < 0x1_0000_0000
  pub flags_fits : x.flags < 0x1_0000_0000
  pub correlation_id_fits : x.correlation_id < 0x1_0000_0000_0000_0000

pub read-request_header :
    (x : RequestHeader)
    → RequestHeaderFits x
    → (rest : Bytes) → read_request_header (encode_request_header x ++ rest) ≡ (x, rest)
unfolding read_request_header encode_request_header
read-request_header x h rest = simp (
  append_assoc,
  read_le-le_bytes 4 x.struct_size h.struct_size_fits,
  read_le-le_bytes 4 x.protocol_version h.protocol_version_fits,
  read_le-le_bytes 4 x.operation h.operation_fits,
  read_le-le_bytes 4 x.flags h.flags_fits,
  read_le-le_bytes 8 x.correlation_id h.correlation_id_fits,
)

-- The fields are in the range of their types.
pub record ReserveRequestFits (x : ReserveRequest) : Type 0 where
  pub header_fits : RequestHeaderFits x.header
  pub mutation_fits : x.mutation < 0x1_0000_0000
  pub reserved_fits : x.reserved < 0x1_0000_0000

pub read-reserve_request :
    (x : ReserveRequest)
    → ReserveRequestFits x
    → (rest : Bytes) → read_reserve_request (encode_reserve_request x ++ rest) ≡ (x, rest)
unfolding read_reserve_request encode_reserve_request
read-reserve_request x h rest = simp (
  append_assoc,
  read-request_header x.header h.header_fits,
  read_le-le_bytes 4 x.mutation h.mutation_fits,
  read_le-le_bytes 4 x.reserved h.reserved_fits,
)

-- The fields are in the range of their types.
pub record OperationRequestFits (x : OperationRequest) : Type 0 where
  pub header_fits : RequestHeaderFits x.header
  pub adapter_instance_fits : x.adapter_instance < 0x1_0000_0000_0000_0000
  pub operation_id_fits : x.operation_id < 0x1_0000_0000_0000_0000

pub read-operation_request :
    (x : OperationRequest)
    → OperationRequestFits x
    → (rest : Bytes) → read_operation_request (encode_operation_request x ++ rest) ≡ (x, rest)
unfolding read_operation_request encode_operation_request
read-operation_request x h rest = simp (
  append_assoc,
  read-request_header x.header h.header_fits,
  read_le-le_bytes 8 x.adapter_instance h.adapter_instance_fits,
  read_le-le_bytes 8 x.operation_id h.operation_id_fits,
)

-- The fields are in the range of their types.
pub record ReservedCreateRequestFits (x : ReservedCreateRequest) : Type 0 where
  pub operation_fits : OperationRequestFits x.operation
  pub size_bytes_fits : x.size_bytes < 0x1_0000_0000_0000_0000
  pub logical_sector_size_fits : x.logical_sector_size < 0x1_0000_0000
  pub media_kind_fits : x.media_kind < 0x1_0000_0000
  pub requested_drive_letter_fits : x.requested_drive_letter < 0x1_0000
  pub reserved16_fits : x.reserved16 < 0x1_0000
  pub reserved32_fits : x.reserved32 < 0x1_0000_0000

-- A creation request with fields in range is read back from its bytes, whatever stands behind them.
pub read-reserved_create_request :
    (x : ReservedCreateRequest)
    → ReservedCreateRequestFits x
    → (rest : Bytes)
    → read_reserved_create_request (encode_reserved_create_request x ++ rest) ≡ (x, rest)
unfolding read_reserved_create_request encode_reserved_create_request
read-reserved_create_request x h rest = simp (
  append_assoc,
  read-operation_request x.operation h.operation_fits,
  read_le-le_bytes 8 x.size_bytes h.size_bytes_fits,
  read_le-le_bytes 4 x.logical_sector_size h.logical_sector_size_fits,
  read_le-le_bytes 4 x.media_kind h.media_kind_fits,
  read_le-le_bytes 2 x.requested_drive_letter h.requested_drive_letter_fits,
  read_le-le_bytes 2 x.reserved16 h.reserved16_fits,
  read_le-le_bytes 4 x.reserved32 h.reserved32_fits,
)

-- The fields are in the range of their types.
pub record ReservedDeleteRequestFits (x : ReservedDeleteRequest) : Type 0 where
  pub operation_fits : OperationRequestFits x.operation
  pub device_id_fits : x.device_id < 0x1_0000_0000
  pub reserved_fits : x.reserved < 0x1_0000_0000

pub read-reserved_delete_request :
    (x : ReservedDeleteRequest)
    → ReservedDeleteRequestFits x
    → (rest : Bytes)
    → read_reserved_delete_request (encode_reserved_delete_request x ++ rest) ≡ (x, rest)
unfolding read_reserved_delete_request encode_reserved_delete_request
read-reserved_delete_request x h rest = simp (
  append_assoc,
  read-operation_request x.operation h.operation_fits,
  read_le-le_bytes 4 x.device_id h.device_id_fits,
  read_le-le_bytes 4 x.reserved h.reserved_fits,
)
