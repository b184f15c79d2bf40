-- ===== src/Tests/Provisioning.antt =====
-- Runs of cli/src/driver/windows/disk/provisioning.rs.
use wisp_disk.Base.{ℕ, ◌≡◌, refl, some, true, [], arith}
use wisp_disk.Base.Text
use wisp_disk.Base.Text.{Text, text, to_ascii_uppercase}
use wisp_disk.Args.{DriveLetter, fixed, fat32}
use wisp_disk.Errors.{ok}
use wisp_disk.Machine.{Process}
use wisp_disk.Machine.Polling.{poll}
use wisp_disk.Volume.Identity
use wisp_disk.Volume.Identity.{ScsiLocation}
use wisp_disk.Volume.Letters
use wisp_disk.Disk.Provisioning
use wisp_disk.Disk.Provisioning.Calls
use wisp_disk.Disk.Provisioning.Formatting.{initialize_and_format, wait_for_volume}
use wisp_disk.Disk.Provisioning.Formatting.Guards.{
  IsFormatted, IsExpectedDisk, initialize_and_format-IsFormatted,
}
use wisp_disk.Machine.Storage.{StorageDisk}
use wisp_disk.Tests.System.{simulated, process, opened_file, new_volume}

abbrev pub letter : DriveLetter
letter = record { char = b'D' }

abbrev pub location : ScsiLocation
location = record { port = 2; path = 0; target = 0; lun = 0 }

initialized :
    (id : ℕ)
    → Calls.initialize_disk 4 (to_ascii_uppercase b'D') fixed 4_194_304 fat32 (process [] id)
      ≡ (ok tt, process [] id)
unfolding Calls.initialize_disk Calls.get_disk Provisioning.only_disk Calls.online_disk
    Calls.exec_method Provisioning.check_storage_method Calls.set_disk_read_only
    Calls.prepare_partition Calls.initialize_raw Calls.initialize_mbr Calls.create_max_partition
initialized id = refl

shown :
    (id : ℕ)
    → wait_for_volume 5 (to_ascii_uppercase b'D') (process [] id)
      ≡ some (ok new_volume, process [] id)
unfolding wait_for_volume poll Calls.look_for_volume Provisioning.matching_volume
    Provisioning.volume_has_drive_letter Provisioning.wmi_drive_letter text Text.trim_end_matches
    Text.trim_start_matches Text.is_ascii_alphabetic to_ascii_uppercase
shown id = refl

pub located :
    (id : ℕ)
    → Identity.verify_physical_disk_location 4 location (process [] id) ≡ (ok tt, process [] id)
unfolding Identity.verify_physical_disk_location Identity.physical_disk_address
    Identity.open_physical_drive Identity.closing_location Identity.scsi_location opened_file text
located id = refl

formatted :
    (id : ℕ)
    → Calls.format_volume new_volume
        (Provisioning.volume_label fat32 3)
        true
        true
        fat32
        (process [] id)
      ≡ (ok tt, process [] id)
unfolding Calls.format_volume Calls.exec_method Provisioning.check_storage_method
formatted id = refl

pub available :
    (id : ℕ) → Letters.ensure_drive_letter_available letter (process [] id) ≡ (ok tt, process [] id)
unfolding Letters.ensure_drive_letter_available Letters.drive_letter_in_use Letters.letter_bit
available id = refl

pub formatted_run :
    (id : ℕ)
    → initialize_and_format 5 4 letter fixed 4_194_304 3 location fat32 (process [] id)
      ≡ some (ok tt, process [] id)
unfolding initialize_and_format
formatted_run id = ground (arith, available id, initialized id, shown id, located id, formatted id)

initialize_and_format-IsFormatted_example :
    ((disk : StorageDisk) × (before : Process simulated) × ((Calls.get_disk 4 before).0 ≡ ok disk)
      × IsExpectedDisk 4 4_194_304 disk)
    × IsFormatted 4 (to_ascii_uppercase b'D') 3 location fat32 (process [] 1)
initialize_and_format-IsFormatted_example =
    initialize_and_format-IsFormatted 5 4 letter fixed 4_194_304 3 location fat32 (process [] 1)
      (process [] 1) (formatted_run 1)
