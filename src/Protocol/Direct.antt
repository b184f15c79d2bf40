-- ===== src/Protocol/Direct.antt =====
-- cli/src/protocol.rs, the messages of the operations without a reservation, which this program neither
-- sends nor receives.
use wisp_disk.Base.{ℕ, List}
use wisp_disk.Protocol.{RequestHeader, ResponseHeader, DiskInfo}

pub record CreateRequest : Type 0 where
  pub header : RequestHeader
  pub size_bytes : ℕ
  pub logical_sector_size : ℕ
  pub media_kind : ℕ
  pub requested_drive_letter : ℕ
  pub reserved16 : ℕ
  pub reserved32 : ℕ

pub record CreateResponse : Type 0 where
  pub header : ResponseHeader
  pub device_id : ℕ
  pub path_id : ℕ
  pub target_id : ℕ
  pub lun : ℕ
  pub reserved : ℕ

pub record DeleteRequest : Type 0 where
  pub header : RequestHeader
  pub device_id : ℕ
  pub reserved : ℕ

pub record ListResponse : Type 0 where
  pub header : ResponseHeader
  pub disk_count : ℕ
  pub reserved : ℕ
  pub disks : List DiskInfo
