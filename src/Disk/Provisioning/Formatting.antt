-- ===== src/Disk/Provisioning/Formatting.antt =====
-- cli/src/driver/windows/disk/provisioning.rs, `initialize_and_format`. The wait for the volume runs on
-- fuel, a count of its rounds.
pub mod Guards
use wisp_disk.Base.{ℕ, Bool, true, false, ◌+◌, Option, List, ◌∷◌, ◌++◌}
use wisp_disk.Base.Text.{Text, text, to_ascii_uppercase}
use wisp_disk.Args.{DriveLetter, MediaKind, FileSystem}
use wisp_disk.Errors.{Error, message, Result, ok, err}
use wisp_disk.Machine.{Windows, Process, M}
use wisp_disk.Machine.Storage.{StorageVolume}
use wisp_disk.Machine.Loops.{run, ◌>>=◌, ◌>>◌}
use wisp_disk.Machine.Polling.{poll, sleep_for}
use wisp_disk.Adapter.Reserved.{device_wait, retry_interval}
use wisp_disk.Volume.Identity.{ScsiLocation, verify_physical_disk_location}
use wisp_disk.Volume.Letters.{ensure_drive_letter_available}
use wisp_disk.Disk.Provisioning.{volume_label}
use wisp_disk.Disk.Provisioning.Calls.{look_for_volume, initialize_disk, format_volume}

no_volume : ℕ → Error
no_volume letter =
    message (text "drive " ++ (letter ∷ text ": did not appear in WMI within 30 seconds"))

module _ {W : Windows} where
  unfoldable pub wait_for_volume : ℕ → ℕ → M W StorageVolume
  unfolding no_volume
  wait_for_volume fuel letter p =
      let (now, os) = W.now p.os in
      poll (run (look_for_volume letter)) (sleep_for retry_interval) (no_volume letter)
        (now + device_wait) fuel (record p { os = os })

  unfoldable pub initialize_and_format :
      ℕ
      → ℕ
      → DriveLetter
      → MediaKind
      → (expected_size device_id : ℕ) → ScsiLocation
      → FileSystem
      → M W (Unit {0})
  initialize_and_format fuel disk_number letter media expected_size device_id expected_location
        file_system =
      do
        run (ensure_drive_letter_available letter)
        run (
            initialize_disk disk_number (to_ascii_uppercase letter.char) media expected_size
              file_system)
        volume ← wait_for_volume fuel (to_ascii_uppercase letter.char)
        run (verify_physical_disk_location disk_number expected_location)
        run (format_volume volume (volume_label file_system device_id) true true file_system)
