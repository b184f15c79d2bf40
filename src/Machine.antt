-- ===== src/Machine.antt =====
-- The Windows calls of cli/src/driver/windows, as a parameter of the model, and the monads in which
-- its functions are written. A call may change the state of the system; a failed call yields the
-- last-error code. Times are nanoseconds of `Instant`.
pub mod Storage
pub mod Io
pub mod Loops
pub mod Polling
use wisp_disk.Base.{
  ℕ, ◌+◌, ◌%◌, ◌^◌, ◌≤◌, Bool, true, false, Option, none, some, List, if◌then◌else◌,
}
use wisp_disk.Base.Text.{Text}
use wisp_disk.Base.Bytes.{Bytes}
use wisp_disk.Machine.Storage.{
  Answer, StorageDisk, StoragePartition, StorageVolume, StorageClass, StorageInput,
  CreatePartitionInput, CreatePartitionOutput,
}
use wisp_disk.Errors.{Error, os_error, context, Result, ok, err}

pub data Api {ℓ} (A : Type ℓ) : Type ℓ where
  returned : A → Api A
  failed : (code : ℕ) → Api A

-- `DeviceIoControl` with an output buffer: the byte count that it reports, and the buffer.
pub record IoOutput : Type 0 where
  pub count : ℕ
  pub buffer : Bytes

-- The control codes that a volume handle is sent.
pub data VolumeCode : Type 0 where
  lock dismount unlock : VolumeCode

-- `VOLUME_DISK_EXTENTS`, with the disk of the first extent.
pub record DiskExtents : Type 0 where
  pub count : ℕ
  pub number_of_extents : ℕ
  pub disk_number : ℕ

-- `SCSI_ADDRESS`.
pub record ScsiAddress : Type 0 where
  pub count : ℕ
  pub port_number : ℕ
  pub path_id : ℕ
  pub target_id : ℕ
  pub lun : ℕ

-- `STORAGE_DEVICE_NUMBER`.
pub record DeviceNumber : Type 0 where
  pub count : ℕ
  pub device_type : ℕ
  pub device_number : ℕ

-- What `GetVolumePathNamesForVolumeNameW` leaves: whether it succeeded, the last-error code, the
-- buffer, and the size that it asks for.
pub record PathNames : Type 0 where
  pub succeeded : Bool
  pub last_error : ℕ
  pub units : List ℕ
  pub required : ℕ

-- What `SetupDiGetDeviceInterfaceDetailW` leaves when it is asked for the size.
pub record DetailSize : Type 0 where
  pub failure : Option ℕ
  pub required : ℕ

-- `WaitForSingleObject`.
pub data WaitStatus : Type 0 where
  signalled timed_out : WaitStatus
  wait_failed : (code : ℕ) → WaitStatus

-- `DIF_REGISTERDEVICE` and `DIF_REMOVE`.
pub data ClassRequest : Type 0 where
  register_device remove_device : ClassRequest

pub record Windows : Type 1 where
  pub State : Type 0
  pub Handle : Type 0
  pub now : State → ℕ × State
  pub sleep : ℕ → State → State
  -- `CreateFileW` and `CloseHandle`.
  pub create_file : Text → ℕ → State → Api Handle × State
  pub close_handle : Handle → State → State
  -- `DeviceIoControl` with `IOCTL_SCSI_MINIPORT`.
  pub scsi_miniport : Handle → Bytes → State → Api IoOutput × State
  -- `DeviceIoControl` with `FSCTL_LOCK_VOLUME`, `FSCTL_DISMOUNT_VOLUME`, `FSCTL_UNLOCK_VOLUME`.
  pub volume_control : Handle → VolumeCode → State → Api (Unit {0}) × State
  -- `DeviceIoControl` with `IOCTL_VOLUME_GET_VOLUME_DISK_EXTENTS` and `IOCTL_SCSI_GET_ADDRESS`.
  pub volume_disk_extents : Handle → State → Api DiskExtents × State
  pub scsi_get_address : Handle → State → Api ScsiAddress × State
  -- `DeleteVolumeMountPointW`, `SetVolumeMountPointW` and `GetLogicalDrives`.
  pub delete_volume_mount_point : Text → State → Api (Unit {0}) × State
  pub set_volume_mount_point : (point name : Text) → State → Api (Unit {0}) × State
  pub logical_drives : State → ℕ × State
  -- `DeviceIoControl` with `IOCTL_STORAGE_GET_DEVICE_NUMBER`.
  pub storage_device_number : Handle → State → Api DeviceNumber × State
  -- `GetVolumeNameForVolumeMountPointW`, and the enumeration of volumes. A buffer is its code units.
  pub volume_name_for_mount_point : Text → State → Api (List ℕ) × State
  pub find_first_volume : State → Api (Handle × List ℕ) × State
  pub find_next_volume : Handle → State → Api (List ℕ) × State
  pub find_volume_close : Handle → State → State
  pub volume_path_names : Text → ℕ → State → PathNames × State
  -- The `widestring` crate: `U16CStr::from_slice_truncate`, `U16CString::from_ustr`,
  -- `to_string_lossy`.
  pub from_slice_truncate : List ℕ → Answer Text
  pub from_ustr : List ℕ → Answer Text
  pub to_string_lossy : Text → Text
  -- `SetupDiGetClassDevsW` for the present disk interfaces, `SetupDiEnumDeviceInterfaces`,
  -- `SetupDiGetDeviceInterfaceDetailW` for the size and for the path, and the end of the set. The path
  -- is the units from `DevicePath` to the end of the buffer.
  pub disk_interface_set : State → Api Handle × State
  pub enum_disk_interface : Handle → ℕ → State → Api Handle × State
  pub interface_detail_size : Handle → Handle → State → DetailSize × State
  pub interface_detail : Handle → Handle → ℕ → State → Api (List ℕ) × State
  pub destroy_info_set : Handle → State → State
  -- The devices of the SCSI adapter class: `SetupDiGetClassDevsW`, `SetupDiEnumDeviceInfo`, and the
  -- hardware ids, with the size in bytes that `SetupDiGetDeviceRegistryPropertyW` reports.
  pub adapter_set : State → Api Handle × State
  pub enum_device_info : Handle → ℕ → State → Api Handle × State
  pub hardware_ids : Handle → Handle → State → Api (ℕ × List ℕ) × State
  -- `SetupDiCreateDeviceInfoList`, `SetupDiCreateDeviceInfoW`, `SetupDiSetDeviceRegistryPropertyW` for
  -- the hardware ids, and `SetupDiCallClassInstaller`.
  pub create_info_set : State → Api Handle × State
  pub create_device_info : Handle → (class_name : Text) → State → Api Handle × State
  pub set_hardware_ids : Handle → Handle → List ℕ → State → Api (Unit {0}) × State
  pub call_class_installer : ClassRequest → Handle → Handle → State → Api (Unit {0}) × State
  -- `DiInstallDriverW` and `UpdateDriverForPlugAndPlayDevicesW`, with the variable `reboot_required`
  -- behind them.
  pub install_driver : (inf : Text) → Bool → State → Api Bool × State
  pub update_driver : (hardware_id inf : Text) → Bool → State → Api Bool × State
  -- `CreateEventW`, `CM_Register_Notification` for disk arrivals on an event, `WaitForSingleObject`
  -- for some milliseconds, and `CM_Unregister_Notification`.
  pub create_event : State → Api Handle × State
  pub register_notification : Handle → State → (ℕ × Handle) × State
  pub wait_for_event : Handle → ℕ → State → WaitStatus × State
  pub unregister_notification : Handle → State → State
  -- The `wmi` crate on the Storage namespace: the connection, queries by class, and methods, which
  -- yield the provider's return value.
  pub wmi_connect : State → Answer (Unit {0}) × State
  pub query_disks : Text → State → Answer (List StorageDisk) × State
  pub query_partitions : Text → State → Answer (List StoragePartition) × State
  pub query_volumes : Text → State → Answer (List StorageVolume) × State
  pub exec_method : StorageClass → (path method : Text) → StorageInput → State → Answer ℕ × State
  pub create_partition : Text → CreatePartitionInput → State → Answer CreatePartitionOutput × State

-- The program: its one static, `NEXT_CORRELATION_ID`, and the system around it.
pub record Process (W : Windows) : Type 0 where
  pub next_correlation_id : ℕ
  pub os : W.State

-- What the model assumes of the clock: `Instant` does not run backwards, and a sleep lasts at least
-- as long as it was asked for. `time` is the time at which a state of the system stands.
pub record HasClock (W : Windows) : Type 0 where
  pub time : W.State → ℕ
  pub now_reads : (s : W.State) → (time s ≤ (W.now s).0) × ((W.now s).0 ≤ time (W.now s).1)
  pub sleep_lasts : (d : ℕ) (s : W.State) → time s + d ≤ time (W.sleep d s)
  pub miniport_keeps :
      (h : W.Handle) (b : Bytes) (s : W.State) → time s ≤ time (W.scsi_miniport h b s).1
  pub create_file_keeps :
      (path : Text) (access : ℕ) (s : W.State) → time s ≤ time (W.create_file path access s).1
  pub close_handle_keeps : (h : W.Handle) (s : W.State) → time s ≤ time (W.close_handle h s)
  pub scsi_get_address_keeps :
      (h : W.Handle) (s : W.State) → time s ≤ time (W.scsi_get_address h s).1
  pub logical_drives_keeps : (s : W.State) → time s ≤ time (W.logical_drives s).1

-- Code without a loop: it returns.
abbrev pub Io : Windows → Type 0 → Type 0
Io W A = Process W → Result A × Process W

-- Code with a loop runs on fuel; `none` means that the fuel ran out.
abbrev pub M : Windows → Type 0 → Type 0
M W A = Process W → Option (Result A × Process W)
