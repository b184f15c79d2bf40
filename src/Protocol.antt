-- ===== src/Protocol.antt =====
-- cli/src/protocol.rs, the driver's control protocol: constants, enumerations, message structs and
-- the checks on a response's payload. A `u8` to `u64` field is a number; an `i32` status is its
-- 32-bit pattern, negative from 2^31 on.
pub mod Wire
pub mod Direct
use wisp_disk.Base.{ℕ, Bool, not, ◌&&◌, ◌||◌, List, ltb, leb, ◌==◌, length}

abbrev pub protocol_version : ℕ
protocol_version = 1

abbrev pub maximum_disk_count : ℕ
maximum_disk_count = 16

-- Capability bits, by their position.
abbrev pub cap_create_delete : ℕ
cap_create_delete = 0x1

abbrev pub cap_read_write : ℕ
cap_read_write = 0x2

abbrev pub cap_removable : ℕ
cap_removable = 0x4

abbrev pub cap_operation_recovery : ℕ
cap_operation_recovery = 0x8

pub data Operation : Type 0 where
  query_version create_disk delete_disk list_disks reserve query_result : Operation
  create_reserved delete_reserved list_state : Operation

-- `operation as u32`.
abbrev pub operation_code : Operation → ℕ
operation_code query_version = 0x800
operation_code create_disk = 0x801
operation_code delete_disk = 0x802
operation_code list_disks = 0x803
operation_code reserve = 0x804
operation_code query_result = 0x805
operation_code create_reserved = 0x806
operation_code delete_reserved = 0x807
operation_code list_state = 0x808

pub data ProtocolMediaKind : Type 0 where
  fixed removable : ProtocolMediaKind

abbrev pub media_code : ProtocolMediaKind → ℕ
media_code fixed = 1
media_code removable = 2

pub data OperationState : Type 0 where
  reserved pending succeeded failed deleted : OperationState

abbrev pub state_code : OperationState → ℕ
state_code reserved = 1
state_code pending = 2
state_code succeeded = 3
state_code failed = 4
state_code deleted = 5

pub record RequestHeader : Type 0 where
  pub struct_size : ℕ
  pub protocol_version : ℕ
  pub operation : ℕ
  pub flags : ℕ
  pub correlation_id : ℕ

pub record ResponseHeader : Type 0 where
  pub struct_size : ℕ
  pub protocol_version : ℕ
  pub operation : ℕ
  pub status : ℕ
  pub correlation_id : ℕ

pub record QueryVersionResponse : Type 0 where
  pub header : ResponseHeader
  pub version_major : ℕ
  pub version_minor : ℕ
  pub capabilities : ℕ
  pub maximum_disk_count : ℕ

pub record DiskInfo : Type 0 where
  pub device_id : ℕ
  pub path_id : ℕ
  pub target_id : ℕ
  pub lun : ℕ
  pub reserved8 : ℕ
  pub size_bytes : ℕ
  pub logical_sector_size : ℕ
  pub media_kind : ℕ
  pub requested_drive_letter : ℕ
  pub reserved16 : ℕ

pub record ReserveRequest : Type 0 where
  pub header : RequestHeader
  pub mutation : ℕ
  pub reserved : ℕ

pub record OperationRequest : Type 0 where
  pub header : RequestHeader
  pub adapter_instance : ℕ
  pub operation_id : ℕ

pub record ReservedCreateRequest : Type 0 where
  pub operation : OperationRequest
  pub size_bytes : ℕ
  pub logical_sector_size : ℕ
  pub media_kind : ℕ
  pub requested_drive_letter : ℕ
  pub reserved16 : ℕ
  pub reserved32 : ℕ

pub record ReservedDeleteRequest : Type 0 where
  pub operation : OperationRequest
  pub device_id : ℕ
  pub reserved : ℕ

pub record OperationResponse : Type 0 where
  pub header : ResponseHeader
  pub adapter_instance : ℕ
  pub operation_id : ℕ
  pub mutation : ℕ
  pub state : ℕ
  pub result_status : ℕ
  pub device_id : ℕ
  pub path_id : ℕ
  pub target_id : ℕ
  pub lun : ℕ
  pub reserved8 : ℕ
  pub reserved32 : ℕ

pub record DiskState : Type 0 where
  pub disk : DiskInfo
  pub create_operation_id : ℕ
  pub state : ℕ
  pub reserved : ℕ

-- `disks` holds all sixteen entries, used or not.
pub record StateResponse : Type 0 where
  pub header : ResponseHeader
  pub adapter_instance : ℕ
  pub allocated_bytes : ℕ
  pub disk_count : ℕ
  pub pending_operations : ℕ
  pub disks : List DiskState

-- An `i32` pattern is below zero.
abbrev pub is_negative : ℕ → Bool
is_negative status = leb 0x8000_0000 status

unfoldable pub is_valid_reservation : OperationResponse → Bool
is_valid_reservation reply =
    not (reply.adapter_instance == 0)
    && not (reply.operation_id == 0)
    && (reply.mutation == operation_code create_disk
        || reply.mutation == operation_code delete_disk)
    && reply.state == state_code OperationState.reserved

unfoldable pub matches_operation : OperationResponse → ℕ → ℕ → Operation → Bool
matches_operation reply instance_id id mutation =
    reply.adapter_instance == instance_id
    && reply.operation_id == id
    && reply.mutation == operation_code mutation

unfoldable pub is_valid_created_disk : OperationResponse → Bool
is_valid_created_disk reply =
    not (reply.adapter_instance == 0)
    && not (reply.operation_id == 0)
    && reply.mutation == operation_code create_disk
    && reply.state == state_code succeeded
    && reply.result_status == 0
    && not (reply.device_id == 0)
    && reply.path_id == 0
    && reply.target_id == 0
    && ltb reply.lun maximum_disk_count

unfoldable pub is_valid_state : StateResponse → Bool
is_valid_state reply =
    not (reply.adapter_instance == 0) && leb reply.disk_count (length reply.disks)
