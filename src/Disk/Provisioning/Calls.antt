-- ===== src/Disk/Provisioning/Calls.antt =====
-- cli/src/driver/windows/disk/provisioning.rs, the calls of the Storage WMI provider.
use wisp_disk.Base.{
  ℕ, Bool, true, false, not, ◌||◌, ◌&&◌, Option, none, some, List, [], ◌∷◌, ◌++◌, ◌==◌,
  if◌then◌else◌, length, any,
}
use wisp_disk.Base.Text.{Text, text, decimal, to_ascii_uppercase}
use wisp_disk.Args.{MediaKind, FileSystem, fixed, removable}
use wisp_disk.Args.Display.{show_file_system}
use wisp_disk.Errors.{Error, message}
use wisp_disk.Machine.{Windows, Io}
use wisp_disk.Machine.Storage.{
  StorageDisk, StoragePartition, StorageVolume, StorageClass, StorageInput, no_input,
  read_only_input, initialize_input, access_path_input, format_input,
}
use wisp_disk.Machine.Io.{storage_call, refuse_if, of_result, when, fail, pure, ◌>>=◌, ◌>>◌}
use wisp_disk.Disk.Provisioning.{
  physical_drive, too_many_partitions, created_or_error, whole_partition, matching_volume,
  only_disk, unexpected_style, mbr_type, wmi_file_system, volume_query, check_storage_method,
  partition_style_raw, partition_style_mbr, wmi_drive_letter,
}

abbrev pub disk_query : ℕ → Text
disk_query disk_number =
    text
      "SELECT __Path, Number, Size, PartitionStyle, IsBoot, IsSystem, IsOffline, IsReadOnly FROM MSFT_Disk WHERE Number = "
    ++ decimal disk_number

unfoldable pub is_removable : MediaKind → Bool
is_removable fixed = false
is_removable removable = true

size_changed : ℕ → ℕ → Error
size_changed expected actual = message (
    text "disk size changed before initialization: expected "
    ++ (decimal expected ++ (text ", got " ++ decimal actual)))

abbrev pub format_operation : FileSystem → Text
format_operation file_system = text "format the WispDisk volume as " ++ show_file_system file_system

module _ {W : Windows} where
  -- `StorageWmi::exec_method`.
  unfoldable pub exec_method : StorageClass → Text → Text → StorageInput → Text → Io W (Unit {0})
  exec_method class path method input operation = do
    return_value ← storage_call operation (W.exec_method class path method input)
    of_result (check_storage_method operation return_value)

  unfoldable pub get_disk : ℕ → Io W StorageDisk
  get_disk disk_number = do
    disks ← storage_call (text "query the new disk") (W.query_disks (disk_query disk_number))
    of_result (only_disk disk_number disks)

  unfoldable pub online_disk : StorageDisk → Io W (Unit {0})
  online_disk disk =
      exec_method StorageClass.disk disk.path (text "Online") no_input
        (text "bring the new disk online")

  unfoldable pub set_disk_read_only : StorageDisk → Bool → Io W (Unit {0})
  set_disk_read_only disk read_only =
      exec_method StorageClass.disk disk.path (text "SetAttributes") (read_only_input read_only)
        (text "set the new disk writable")

  unfoldable pub initialize_mbr : StorageDisk → Io W (Unit {0})
  unfolding physical_drive
  initialize_mbr disk = do
    refuse_if (not (disk.partition_style == partition_style_raw)) (
        message (
          text "refusing to initialize "
          ++ (physical_drive disk.number
              ++ (text " because WMI reports partition style "
                  ++ (decimal disk.partition_style ++ text " instead of RAW")))))
    exec_method StorageClass.disk disk.path (text "Initialize")
        (initialize_input partition_style_mbr) (text "initialize the new disk as MBR")

  unfoldable pub create_max_partition : StorageDisk → ℕ → FileSystem → Io W StoragePartition
  unfolding created_or_error
  create_max_partition disk letter file_system = do
    output ← storage_call (text "create the WispDisk partition") (
        W.create_partition disk.path (record {
          use_maximum_size = true;
          drive_letter = letter ∷ [];
          mbr_type = mbr_type file_system;
        }))
    of_result (check_storage_method (text "create the WispDisk partition") output.return_value)
    of_result (created_or_error output.created_partition)

  -- The arm for a RAW disk.
  unfoldable pub initialize_raw : StorageDisk → ℕ → FileSystem → Io W (StoragePartition × Bool)
  initialize_raw disk letter file_system = do
    initialize_mbr disk
    partition ← create_max_partition disk letter file_system
    pure (partition, true)

  unfoldable pub get_partitions : ℕ → Io W (List StoragePartition)
  get_partitions disk_number = do
    partitions ← storage_call (text "query the new partition") (
        W.query_partitions (
          text
            "SELECT __Path, DiskNumber, PartitionNumber, DriveLetter, Offset, Size, IsBoot, IsSystem FROM MSFT_Partition WHERE DiskNumber = "
          ++ decimal disk_number))
    refuse_if (any (λ partition. not (partition.disk_number == disk_number)) partitions)
        (message (text "WMI returned a partition belonging to a different disk"))
    pure partitions

  -- The `match` on the number of partitions.
  unfoldable pub removable_partition :
      StorageDisk → ℕ → FileSystem → List StoragePartition → Io W (StoragePartition × Bool)
  unfolding too_many_partitions
  removable_partition disk letter file_system [] = do
    partition ← create_max_partition disk letter file_system
    pure (partition, true)
  removable_partition disk letter file_system (partition ∷ []) =
      of_result (whole_partition disk partition)
  removable_partition disk letter file_system (a ∷ b ∷ partitions) =
      fail (too_many_partitions disk (length (a ∷ b ∷ partitions)))

  unfoldable pub get_or_create_removable_partition :
      StorageDisk → ℕ → FileSystem → Io W (StoragePartition × Bool)
  get_or_create_removable_partition disk letter file_system = do
    partitions ← get_partitions disk.number
    removable_partition disk letter file_system partitions

  add_access_path : StoragePartition → ℕ → Io W (Unit {0})
  add_access_path partition letter =
      exec_method StorageClass.partition partition.path (text "AddAccessPath")
        (access_path_input (letter ∷ text ":")) (text "assign the requested drive letter")

  replace_access_path : StoragePartition → ℕ → ℕ → Io W (Unit {0})
  unfolding add_access_path
  replace_access_path partition letter current = do
    exec_method StorageClass.partition partition.path (text "RemoveAccessPath")
        (access_path_input (current ∷ text ":"))
        (text "remove the automatically assigned drive letter")
    add_access_path partition letter

  reassign : StoragePartition → ℕ → Option ℕ → Io W (Unit {0})
  unfolding replace_access_path
  reassign partition letter none = add_access_path partition letter
  reassign partition letter (some current) =
      if to_ascii_uppercase current == to_ascii_uppercase letter
      then pure tt
      else replace_access_path partition letter current

  unfoldable pub assign_drive_letter : StoragePartition → ℕ → Io W (Unit {0})
  unfolding reassign
  assign_drive_letter partition letter =
      reassign partition letter (wmi_drive_letter partition.drive_letter)

  -- The `match` on the partition style.
  unfoldable pub prepare_partition :
      StorageDisk → ℕ → MediaKind → FileSystem → Io W (StoragePartition × Bool)
  unfolding is_removable unexpected_style
  prepare_partition disk letter media file_system =
      if disk.partition_style == partition_style_raw
      then initialize_raw disk letter file_system
      else if disk.partition_style == partition_style_mbr && is_removable media
      then get_or_create_removable_partition disk letter file_system
      else fail (unexpected_style disk)

  -- `initialize_and_format` from the connection to the wait for the volume.
  unfoldable pub initialize_disk : ℕ → ℕ → MediaKind → ℕ → FileSystem → Io W (Unit {0})
  unfolding size_changed
  initialize_disk disk_number letter media expected_size file_system = do
    storage_call (text "connect to the Windows Storage WMI provider") W.wmi_connect
    disk ← get_disk disk_number
    refuse_if (disk.is_system || disk.is_boot)
        (message (text "refusing to initialize a boot or system disk"))
    refuse_if (not (disk.size == expected_size)) (size_changed expected_size disk.size)
    when disk.is_offline (online_disk disk)
    when disk.is_read_only (set_disk_read_only disk false)
    prepared ← prepare_partition disk letter media file_system
    when (not prepared.1) (assign_drive_letter prepared.0 letter)

  -- One look for the volume.
  unfoldable pub look_for_volume : ℕ → Io W (Option StorageVolume)
  look_for_volume letter = do
    volumes ← storage_call (text "query the new volume") (W.query_volumes (volume_query letter))
    of_result (matching_volume letter volumes)

  unfoldable pub format_volume :
      StorageVolume → Text → (quick force : Bool) → FileSystem → Io W (Unit {0})
  format_volume volume label quick force file_system =
      exec_method StorageClass.volume volume.path (text "Format")
        (format_input (wmi_file_system file_system) label (not quick) force)
        (format_operation file_system)
