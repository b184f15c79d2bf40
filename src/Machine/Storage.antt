-- ===== src/Machine/Storage.antt =====
-- The objects of the Windows Storage WMI provider that cli/src/driver/windows/disk/provisioning.rs
-- reads, and the inputs that it writes.
use wisp_disk.Base.{ℕ, Bool, Option}
use wisp_disk.Base.Text.{Text}

-- What a call of the provider yields: an answer, or the text of a `WMIError`.
pub data Answer (A : Type 0) : Type 0 where
  answered : A → Answer A
  refused : (error : Text) → Answer A

-- `MSFT_Disk`.
pub record StorageDisk : Type 0 where
  pub path : Text
  pub number : ℕ
  pub size : ℕ
  pub partition_style : ℕ
  pub is_boot : Bool
  pub is_system : Bool
  pub is_offline : Bool
  pub is_read_only : Bool

-- `MSFT_Partition`.
pub record StoragePartition : Type 0 where
  pub path : Text
  pub disk_number : ℕ
  pub partition_number : ℕ
  pub drive_letter : Option Text
  pub offset : ℕ
  pub size : ℕ
  pub is_boot : Bool
  pub is_system : Bool

-- `MSFT_Volume`.
pub record StorageVolume : Type 0 where
  pub path : Text
  pub drive_letter : Option Text

-- The classes of the objects that a method is called on.
pub data StorageClass : Type 0 where
  disk partition volume : StorageClass

-- `()`, `SetDiskReadOnlyInput`, `InitializeDiskInput`, `AccessPathInput` and `FormatVolumeInput`.
pub data StorageInput : Type 0 where
  no_input : StorageInput
  read_only_input : (is_read_only : Bool) → StorageInput
  initialize_input : (partition_style : ℕ) → StorageInput
  access_path_input : (access_path : Text) → StorageInput
  format_input : (file_system file_system_label : Text) (full force : Bool) → StorageInput

pub record CreatePartitionInput : Type 0 where
  pub use_maximum_size : Bool
  pub drive_letter : Text
  pub mbr_type : ℕ

pub record CreatePartitionOutput : Type 0 where
  pub return_value : ℕ
  pub created_partition : Option StoragePartition
