-- ===== src/Disk/Provisioning/Formatting/Guards.antt =====
-- cli/src/driver/windows/disk/provisioning.rs, what `initialize_and_format` ascertains before it formats.
use wisp_disk.Base.{ℕ, ◌≡◌, true, false, some, List, [], ◌∷◌, arith, Bool-cases, inl, inr}
use wisp_disk.Base.Text.{Text, text, to_ascii_uppercase}
use wisp_disk.Args.{DriveLetter, MediaKind, FileSystem}
use wisp_disk.Errors.{ok}
use wisp_disk.Machine.{Windows, Process}
use wisp_disk.Machine.Storage.{
  answered, StorageDisk, StorageVolume, StorageClass, StorageInput, format_input,
}
use wisp_disk.Machine.Io
use wisp_disk.Machine.Io.{storage_call, of_result, refuse_if, when, storage_call-eq_ok}
use wisp_disk.Machine.Loops
use wisp_disk.Machine.Loops.{run}
use wisp_disk.Machine.Polling.{poll-found}
use wisp_disk.Volume.Identity.{
  ScsiLocation, same_location, physical_disk_address, verify_physical_disk_location,
}
use wisp_disk.Volume.Identity.Opened.{verify_physical_disk_location-eq_ok}
use wisp_disk.Volume.Letters.{ensure_drive_letter_available}
use wisp_disk.Disk.Provisioning.{
  only_disk, volume_has_drive_letter, matching_volume, volume_query, check_storage_method,
  wmi_file_system, volume_label,
}
use wisp_disk.Disk.Provisioning.Calls.{
  exec_method, get_disk, initialize_disk, look_for_volume, format_volume, format_operation,
  disk_query,
}
use wisp_disk.Disk.Provisioning.Formatting.{wait_for_volume, initialize_and_format}

-- The disk that the provider described, before anything was done to it.
pub record IsExpectedDisk (number size : ℕ) (disk : StorageDisk) : Type 0 where
  pub same_number : disk.number ≡ number
  pub same_size : disk.size ≡ size
  pub not_boot : disk.is_boot ≡ false
  pub not_system : disk.is_system ≡ false

-- The last things done: the disk is at the SCSI address, and the volume with the letter is formatted.
pub record IsFormatted {W : Windows} (number letter device_id : ℕ) (location : ScsiLocation)
    (file_system : FileSystem) (p' : Process W) : Type 0 where
  pub volume : StorageVolume
  pub has_letter : volume_has_drive_letter volume letter ≡ true
  pub before : Process W
  pub checked : Process W
  pub actual : ScsiLocation
  pub asked : physical_disk_address number before ≡ (ok actual, checked)
  pub same_place : same_location actual location ≡ true
  pub formatted :
      W.exec_method StorageClass.volume volume.path
        (text "Format")
        (format_input (wmi_file_system file_system) (volume_label file_system device_id) false true)
        checked.os
      ≡ (answered 0, p'.os)

only_disk-eq_ok :
    (number : ℕ) (disks : List StorageDisk) {disk : StorageDisk}
    → only_disk number disks ≡ ok disk
    → disk.number ≡ number
unfolding only_disk
only_disk-eq_ok number [] h = cc
only_disk-eq_ok number (d ∷ []) h = ground arith
only_disk-eq_ok number (a ∷ b ∷ disks) h = cc

matching_volume-eq_ok :
    (letter : ℕ) (volumes : List StorageVolume) {volume : StorageVolume}
    → matching_volume letter volumes ≡ ok (some volume)
    → volume_has_drive_letter volume letter ≡ true
unfolding matching_volume
matching_volume-eq_ok letter [] h = cc
matching_volume-eq_ok letter (v ∷ volumes) {volume} h =
    elim (Bool-cases (volume_has_drive_letter v letter)) [
      | inl e ↦ ground arith
      | inr e ↦ matching_volume-eq_ok letter volumes {volume = volume} (ground arith)
    ]

check_storage_method-eq_ok :
    (operation : Text) (value : ℕ) → check_storage_method operation value ≡ ok tt → value ≡ 0
unfolding check_storage_method
check_storage_method-eq_ok operation value h = ground arith

module _ {W : Windows} where
  get_disk-eq_ok :
      (number : ℕ) (p : Process W) {disk : StorageDisk}
      → (get_disk number p).0 ≡ ok disk
      → disk.number ≡ number
  unfolding get_disk
  get_disk-eq_ok number p {disk} h =
      let query = storage_call (text "query the new disk") (W.query_disks (disk_query number)) in
      let (disks, found, rest) =
        Io.>>=-eq_ok query (λ disks. of_result (only_disk number disks)) p {b = disk}
          {p' = (get_disk number p).1} (ground arith) in
      only_disk-eq_ok number disks {disk = disk} (ground arith)

  initialize_disk-IsExpectedDisk :
      (number letter : ℕ) (media : MediaKind) (size : ℕ) (file_system : FileSystem)
      (p p' : Process W)
      → initialize_disk number letter media size file_system p ≡ (ok tt, p')
      → (disk : StorageDisk) × (before : Process W) × ((get_disk number before).0 ≡ ok disk)
        × IsExpectedDisk number size disk
  unfolding initialize_disk
  initialize_disk-IsExpectedDisk number letter media size file_system p p' h =
      let (connected, _, h1) =
        Io.>>=-eq_ok
          (storage_call (text "connect to the Windows Storage WMI provider") W.wmi_connect) _ p h in
      let q =
        (storage_call (text "connect to the Windows Storage WMI provider") W.wmi_connect p).1 in
      let (disk, got, h2) = Io.>>=-eq_ok (get_disk number) _ q h1 in
      (
        disk,
        q,
        got,
        record {
          same_number = get_disk-eq_ok number q got;
          same_size = ground arith;
          not_boot = ground arith;
          not_system = ground arith;
        },
      )

  exec_method-eq_ok :
      (class : StorageClass) (path method : Text) (input : StorageInput) (operation : Text)
      (p p' : Process W)
      → exec_method class path method input operation p ≡ (ok tt, p')
      → W.exec_method class path method input p.os ≡ (answered 0, p'.os)
  unfolding exec_method
  exec_method-eq_ok class path method input operation p p' h =
      let called = storage_call operation (W.exec_method class path method input) in
      let (value, found, rest) = Io.>>=-eq_ok called _ p h in
      let accepted = check_storage_method-eq_ok operation value (ground arith) in
      ground (arith, storage_call-eq_ok operation (W.exec_method class path method input) p found)

  wait_for_volume-eq_ok :
      (fuel letter : ℕ) (p p' : Process W) {volume : StorageVolume}
      → wait_for_volume fuel letter p ≡ some (ok volume, p')
      → volume_has_drive_letter volume letter ≡ true
  unfolding wait_for_volume look_for_volume
  wait_for_volume-eq_ok fuel letter p p' {volume} h =
      let (q, found) = poll-found _ _ _ _ fuel _ h in
      let (volumes, asked, rest) =
        Io.>>=-eq_ok
          (storage_call (text "query the new volume") (W.query_volumes (volume_query letter)))
          (λ volumes. of_result (matching_volume letter volumes)) q {b = some volume} {p' = p'}
          (ground arith) in
      matching_volume-eq_ok letter volumes (ground arith)

  format_volume-eq_ok :
      (volume : StorageVolume) (device_id : ℕ) (file_system : FileSystem) (p p' : Process W)
      → format_volume volume (volume_label file_system device_id) true true file_system p
        ≡ (ok tt, p')
      → W.exec_method StorageClass.volume volume.path
          (text "Format")
          (format_input
            (wmi_file_system file_system)
            (volume_label file_system device_id)
            false
            true)
          p.os
        ≡ (answered 0, p'.os)
  unfolding format_volume
  format_volume-eq_ok volume device_id file_system p p' h =
      exec_method-eq_ok StorageClass.volume volume.path (text "Format")
        (format_input (wmi_file_system file_system) (volume_label file_system device_id) false true)
        (format_operation file_system) p p' h

  -- initialize_and_format succeeds only when the provider described the disk with the number and
  -- the size expected and neither as boot nor as system disk, the volume has the letter, and the
  -- disk answered at the SCSI address expected in the state in which the volume was then
  -- formatted.
  pub initialize_and_format-IsFormatted :
      (fuel number : ℕ) (letter : DriveLetter) (media : MediaKind) (size device_id : ℕ)
      (location : ScsiLocation) (file_system : FileSystem) (p p' : Process W)
      → initialize_and_format fuel number letter media size device_id location file_system p
        ≡ some (ok tt, p')
      → ((disk : StorageDisk) × (before : Process W) × ((get_disk number before).0 ≡ ok disk)
          × IsExpectedDisk number size disk)
        × IsFormatted number (to_ascii_uppercase letter.char) device_id location file_system p'
  unfolding initialize_and_format
  initialize_and_format-IsFormatted fuel number letter media size device_id location file_system p
        p' h =
      let c = to_ascii_uppercase letter.char in
      let (_, q, available, h1) =
        Loops.>>=-eq_ok (run (ensure_drive_letter_available letter)) _ p h in
      let (_, q1, initialized, h2) =
        Loops.>>=-eq_ok (run (initialize_disk number c media size file_system)) _ q h1 in
      let (volume, q2, waited, h3) = Loops.>>=-eq_ok (wait_for_volume fuel c) _ q1 h2 in
      let (_, q3, verified, h4) =
        Loops.>>=-eq_ok (run (verify_physical_disk_location number location)) _ q2 h3 in
      let (actual, asked, same) =
        verify_physical_disk_location-eq_ok number location q2 q3 (ground arith) in
      (
        initialize_disk-IsExpectedDisk number c media size file_system q q1 (ground arith),
        record {
          volume = volume;
          has_letter = wait_for_volume-eq_ok fuel c q1 q2 waited;
          before = q2;
          checked = q3;
          actual = actual;
          asked = asked;
          same_place = same;
          formatted = format_volume-eq_ok volume device_id file_system q3 p' (ground arith);
        },
      )
