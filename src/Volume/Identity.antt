-- ===== src/Volume/Identity.antt =====
-- cli/src/driver/windows/volume/mod.rs, which disk a volume is on, with `physical_disk_address`,
-- `scsi_location` and `verify_physical_disk_location` of cli/src/driver/windows/disk/mod.rs. A
-- handle that is opened for a query is closed behind it.
pub mod Opened
use Prim.Native.Nat.{bit_and}
use mathlib.Core.Path.{subst}
use wisp_disk.Base.{
  arith, ◌≤◌, refl, ℕ, zero, suc, ◌+◌, ◌-◌, ◌*◌, ◌^◌, ◌≡◌, Bool, true, false, not, ◌&&◌, Option,
  none, some, List, [], ◌∷◌, ◌++◌, ltb, leb, ◌==◌, if◌then◌else◌,
}
use wisp_disk.Base.Text.{Text, text, decimal}
use wisp_disk.Errors.{Error, message, context, with_context, Result, ok, err}
use wisp_disk.Args.{DriveLetter}
use wisp_disk.Args.Display.{show_drive_letter}
use wisp_disk.Machine.{
  Api, returned, failed, Windows, Process, VolumeCode, DiskExtents, ScsiAddress, Io, M,
}
use wisp_disk.Machine.Io.{
  call, map_err, call_for, ask, tell, refuse_if, of_result, outcome, pure, fail, ◌>>=◌, ◌>>◌,
  >>=-eq_ok, call_for-eq_ok,
}
use wisp_disk.Volume.{VolumeInfo, Volume}

pub record ScsiLocation : Type 0 where
  pub port : ℕ
  pub path : ℕ
  pub target : ℕ
  pub lun : ℕ

abbrev pub same_location : ScsiLocation → ScsiLocation → Bool
same_location a b = a.port == b.port && a.path == b.path && a.target == b.target && a.lun == b.lun

-- The sizes of `VOLUME_DISK_EXTENTS` with one extent, and of `SCSI_ADDRESS`.
abbrev disk_extents_size : ℕ
disk_extents_size = 32

abbrev scsi_address_size : ℕ
scsi_address_size = 8

-- `GENERIC_READ` and `GENERIC_WRITE`.
abbrev pub generic_read : ℕ
generic_read = 0x8000_0000

abbrev pub generic_write : ℕ
generic_write = 0x4000_0000

without_suffix : ℕ → Text → Option Text
without_suffix c [] = none
without_suffix c (a ∷ []) = if a == c then some [] else none
without_suffix c (a ∷ b ∷ t) = elim (without_suffix c (b ∷ t)) [
  | none ↦ none
  | some u ↦ some (a ∷ u)
]

path_or_error : Option Text → Result Text
path_or_error none = err (message (text "volume name is missing its trailing backslash"))
path_or_error (some path) = ok path

unfoldable pub volume_device_path : Text → Result Text
unfolding without_suffix path_or_error
volume_device_path name = path_or_error (without_suffix b'\\' name)

truncated : Text → ℕ → Error
truncated what count = message (what ++ (text " (" ++ (decimal count ++ text " bytes)")))

spanning : ℕ → Error
spanning count =
    message
      (text "refusing to delete a volume spanning " ++ (decimal count ++ text " physical disks"))

wrong_disk : DriveLetter → ℕ → ℕ → Error
wrong_disk letter actual expected = message (
    text "new mount "
    ++ (show_drive_letter letter
        ++ (text " resolved to PhysicalDrive"
            ++ (decimal actual ++ (text ", not the created PhysicalDrive" ++ decimal expected)))))

module _ {W : Windows} where
  -- What is done with a handle that is dropped behind it.
  abbrev pub closed : {A : Type 0} → W.Handle → Result A × Process W → Result A × Process W
  closed handle (r, p) = (r, record p { os = W.close_handle handle p.os })

  abbrev pub with_handle : {A : Type 0} → (W.Handle → Io W A) → W.Handle → Io W A
  with_handle f handle p = closed handle (f handle p)

  -- `Volume::disk_number`.
  unfoldable pub disk_number : W.Handle → Io W ℕ
  unfolding truncated spanning
  disk_number handle = do
    extents ← call_for (text "resolve volume to a physical disk") (W.volume_disk_extents handle)
    refuse_if (ltb extents.count disk_extents_size)
        (truncated (text "volume returned truncated disk extents") extents.count)
    refuse_if (not (extents.number_of_extents == 1)) (spanning extents.number_of_extents)
    pure extents.disk_number

  -- The check of `Volume::open`, and the handle, which is closed when it fails.
  checked_handle : ℕ → W.Handle → Io W W.Handle
  checked_handle expected_disk handle = do
    actual ← disk_number handle
    refuse_if (not (actual == expected_disk))
        (message (text "volume changed disk identity before deletion"))
    pure handle

  kept : {A : Type 0} → W.Handle → Result A × Process W → Result A × Process W
  kept handle (ok a, p) = (ok a, p)
  kept handle (err e, p) = closed handle (err e, p)

  -- `Volume::open`.
  unfoldable pub open_volume : VolumeInfo → ℕ → Io W (Volume W)
  unfolding checked_handle kept
  open_volume info expected_disk = do
    path ← of_result (volume_device_path info.name)
    handle ←
        call_for (text "open target volume") (W.create_file path (generic_read + generic_write))
    owned ← (λ p. kept handle (checked_handle expected_disk handle p))
    pure (record {
      name = info.name;
      mount_points = info.mount_points;
      handle = owned;
      locked = false;
      removed_mount_points = [];
    })

  unfoldable pub scsi_location : W.Handle → Io W ScsiLocation
  unfolding truncated
  scsi_location handle = do
    address ← call_for (text "query SCSI address") (W.scsi_get_address handle)
    refuse_if (ltb address.count scsi_address_size)
        (truncated (text "disk returned a truncated SCSI address") address.count)
    pure (record {
      port = address.port_number;
      path = address.path_id;
      target = address.target_id;
      lun = address.lun;
    })

  -- The address of a disk that is open; it is closed behind the query.
  unfoldable pub closing_location : ℕ → W.Handle → Io W ScsiLocation
  closing_location number disk =
      map_err (context (text "query PhysicalDrive" ++ (decimal number ++ text " SCSI address")))
        (with_handle scsi_location disk)

  unfoldable pub open_physical_drive : ℕ → Io W W.Handle
  open_physical_drive number =
      call_for (text "open PhysicalDrive" ++ decimal number)
        (W.create_file (text "\\\\.\\PhysicalDrive" ++ decimal number) 0)

  unfoldable pub physical_disk_address : ℕ → Io W ScsiLocation
  physical_disk_address number = do disk ← open_physical_drive number; closing_location number disk

  unfoldable pub verify_physical_disk_location : ℕ → ScsiLocation → Io W (Unit {0})
  verify_physical_disk_location number expected = do
    actual ← physical_disk_address number
    refuse_if (not (same_location actual expected)) (
        message (
          text "PhysicalDrive"
          ++ (decimal number
              ++ text " changed identity before initialization; refusing to format it")))

  unfoldable pub verify_mounted_drive : DriveLetter → ℕ → ScsiLocation → Io W (Unit {0})
  unfolding wrong_disk
  verify_mounted_drive letter expected_number expected_location = do
    volume ←
        call_for (text "open newly formatted volume")
          (W.create_file (text "\\\\.\\" ++ (letter.char ∷ text ":")) generic_read)
    with_handle
        (λ handle. do
          actual ← disk_number handle
          refuse_if (not (actual == expected_number)) (wrong_disk letter actual expected_number)
          verify_physical_disk_location actual expected_location)
        volume
