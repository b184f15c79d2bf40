-- ===== src/Disk/Provisioning.antt =====
-- cli/src/driver/windows/disk/provisioning.rs, its texts and its checks of what the Storage WMI provider
-- answers. The children model the calls and the wait.
pub mod Calls
pub mod Formatting
use wisp_disk.Base.{
  ℕ, Bool, true, false, not, ◌||◌, Option, none, some, List, [], ◌∷◌, ◌++◌, ◌==◌, if◌then◌else◌,
  length, any,
}
use wisp_disk.Base.Text.{
  Text, text, decimal, hex_upper, to_ascii_uppercase, is_ascii_alphabetic, trim_start_matches,
  trim_end_matches,
}
use wisp_disk.Args.{FileSystem, fat, fat32, ntfs}
use wisp_disk.Errors.{Error, message, Result, ok, err}
use wisp_disk.Machine.Storage.{StorageDisk, StoragePartition, StorageVolume}

abbrev pub partition_style_raw : ℕ
partition_style_raw = 0

abbrev pub partition_style_mbr : ℕ
partition_style_mbr = 1

unfoldable pub mbr_type : FileSystem → ℕ
mbr_type fat = 4
mbr_type fat32 = 12
mbr_type ntfs = 7

unfoldable pub wmi_file_system : FileSystem → Text
wmi_file_system fat = text "FAT"
wmi_file_system fat32 = text "FAT32"
wmi_file_system ntfs = text "NTFS"

unfoldable pub volume_label : FileSystem → ℕ → Text
volume_label fat device_id = text "WD-" ++ hex_upper 8 device_id
volume_label fat32 device_id = text "WD-" ++ hex_upper 8 device_id
volume_label ntfs device_id = text "WispDisk-" ++ hex_upper 8 device_id

one_letter : Text → Option ℕ
one_letter [] = none
one_letter (c ∷ []) = if is_ascii_alphabetic c then some (to_ascii_uppercase c) else none
one_letter (c ∷ d ∷ s) = none

-- `wmi_drive_letter`.
unfoldable pub wmi_drive_letter : Option Text → Option ℕ
unfolding one_letter
wmi_drive_letter none = none
wmi_drive_letter (some value) = one_letter (
    trim_end_matches (λ c. c == b':')
      (trim_end_matches (λ c. c == 0) (trim_start_matches (λ c. c == 0) value)))

-- `eq_ignore_ascii_case` on `char`s.
is_same_letter : ℕ → Option ℕ → Bool
is_same_letter expected none = false
is_same_letter expected (some actual) = to_ascii_uppercase actual == to_ascii_uppercase expected

unfoldable pub volume_has_drive_letter : StorageVolume → ℕ → Bool
unfolding is_same_letter
volume_has_drive_letter volume expected =
    is_same_letter expected (wmi_drive_letter volume.drive_letter)

unfoldable pub volume_query : ℕ → Text
volume_query letter =
    text "SELECT __Path, DriveLetter FROM MSFT_Volume WHERE DriveLetter = '" ++ (letter ∷ text "'")

unfoldable pub storage_status_name : ℕ → Text
storage_status_name status =
    if status == 1
    then text "not supported"
    else if status == 2
    then text "unspecified error"
    else if status == 3
    then text "timeout"
    else if status == 4
    then text "failed"
    else if status == 5
    then text "invalid parameter"
    else if status == 6
    then text "disk in use"
    else if status == 7
    then text "unsupported process architecture"
    else if status == 4096
    then text "operation started as an asynchronous job"
    else if status == 4097
    then text "size not supported"
    else if status == 40000
    then text "not enough free space"
    else if status == 40001
    then text "access denied"
    else if status == 40002
    then text "insufficient resources"
    else if status == 40003
    then text "provider cache out of date"
    else if status == 40004
    then text "unexpected I/O error"
    else if status == 41000
    then text "disk not initialized"
    else if status == 41001
    then text "disk already initialized"
    else if status == 41002
    then text "disk read-only"
    else if status == 41003
    then text "disk offline"
    else if status == 41004
    then text "partition limit reached"
    else if status == 42002
    then text "access path already in use"
    else if status == 42007
    then text "invalid access path"
    else if status == 43000
    then text "invalid allocation unit size"
    else if status == 43001
    then text "file system not supported"
    else if status == 43002
    then text "quick format unavailable"
    else if status == 43005
    then text "allocation unit incompatible with sector size"
    else if status == 43006
    then text "volume read-only"
    else text "unrecognized storage-provider status"

unfoldable pub check_storage_method : Text → ℕ → Result (Unit {0})
check_storage_method operation return_value =
    if not (return_value == 0)
    then err (
        message (
          operation
          ++ (text ": Windows Storage WMI returned "
              ++ (decimal return_value
                  ++ (text " (" ++ (storage_status_name return_value ++ text ")"))))))
    else ok tt

physical_drive : ℕ → Text
physical_drive number = text "PhysicalDrive" ++ decimal number

wrong_disk_count : ℕ → ℕ → Error
unfolding physical_drive
wrong_disk_count disk_number count = message (
    text "expected one WMI disk for "
    ++ (physical_drive disk_number ++ (text ", found " ++ decimal count)))

unfoldable pub only_disk : ℕ → List StorageDisk → Result StorageDisk
unfolding wrong_disk_count physical_drive
only_disk disk_number (disk ∷ []) =
    if not (disk.number == disk_number)
    then err (
        message (
          text "WMI returned disk "
          ++ (decimal disk.number
              ++ (text " for " ++ (physical_drive disk_number ++ text "; refusing to continue")))))
    else ok disk
only_disk disk_number [] = err (wrong_disk_count disk_number 0)
only_disk disk_number (a ∷ b ∷ disks) = err (wrong_disk_count disk_number (length (a ∷ b ∷ disks)))

created_or_error : Option StoragePartition → Result StoragePartition
created_or_error none =
    err
      (message (text "Windows Storage WMI created the partition but returned no partition object"))
created_or_error (some partition) = ok partition

-- The checks on the one partition of a removable disk.
unfoldable pub whole_partition : StorageDisk → StoragePartition → Result (StoragePartition × Bool)
unfolding physical_drive
whole_partition disk partition =
    if not (partition.offset == 0) || not (partition.size == disk.size)
    then err (
        message (
          text "refusing to use removable "
          ++ (physical_drive disk.number
              ++ (text " partition "
                  ++ (decimal partition.partition_number
                      ++ text " because it does not span the whole medium")))))
    else if partition.is_boot || partition.is_system
    then err (
        message
          (text "refusing to use a boot or system partition on " ++ physical_drive disk.number))
    else ok (partition, false)

too_many_partitions : StorageDisk → ℕ → Error
unfolding physical_drive
too_many_partitions disk count = message (
    text "refusing to use removable "
    ++ (physical_drive disk.number
        ++ (text " because WMI reports " ++ (decimal count ++ text " partitions"))))

unexpected_style : StorageDisk → Error
unfolding physical_drive
unexpected_style disk = message (
    text "refusing to prepare "
    ++ (physical_drive disk.number
        ++ (text " because WMI reports unexpected partition style "
            ++ decimal disk.partition_style)))

multiple_volumes : ℕ → Error
multiple_volumes letter =
    message (text "WMI returned multiple volumes for drive " ++ (letter ∷ text ":"))

-- The volumes with the letter, of which there may be one.
unfoldable pub matching_volume : ℕ → List StorageVolume → Result (Option StorageVolume)
unfolding volume_has_drive_letter multiple_volumes
matching_volume letter [] = ok none
matching_volume letter (volume ∷ volumes) =
    let rest = matching_volume letter volumes in
    if volume_has_drive_letter volume letter
    then (if any (λ v. volume_has_drive_letter v letter) volumes
        then err (multiple_volumes letter)
        else ok (some volume))
    else rest
