-- ===== src/Tests/Volume.antt =====
-- Runs of cli/src/driver/windows/volume/mod.rs and cli/src/driver/windows/disk/deletion.rs.
use wisp_disk.Base.{ℕ, ◌≡◌, refl, true, false, ◌&&◌, some, [], ◌∷◌, ◌++◌, all, ◌==◌}
use wisp_disk.Base.Text.{text}
use wisp_disk.Args.{DriveLetter}
use wisp_disk.Errors.{os_error, volume_lock_failure, ok, err}
use wisp_disk.Machine.{Process, failed, VolumeCode}
use wisp_disk.Volume.{
  VolumeInfo, Volume, lock, remove_mounts, restore_mounts, volume_control, is_lock_refusal,
}
use wisp_disk.Volume.Mounts.{
  succeeds, attempts, all_accepted, deletable, all_deletable, restore_mounts-attempts,
  restore_mounts-succeeds, remove_mounts-deletable,
}
use wisp_disk.Volume.Refusals.{is_lock, volume_control-refusal}
use wisp_disk.Volume.Identity.{open_volume, volume_device_path, disk_number}
use wisp_disk.Volume.Identity.Opened.{IsOnDisk, open_volume-IsOnDisk}
use wisp_disk.Volume.Letters.{wait_for_drive_state, drive_letter_in_use, letter_bit}
use wisp_disk.Disk.Deletion.{lock_all, is_locked, lock_all-all_locked}
use wisp_disk.Tests.System.{opened_file, simulated, process}

abbrev info : VolumeInfo
info = record { name = b'v' ∷ b'\\' ∷ []; mount_points = (b'R' ∷ []) ∷ (b'S' ∷ []) ∷ [] }

abbrev pub fresh : Volume simulated
fresh = record {
  name = info.name;
  mount_points = info.mount_points;
  handle = 9;
  locked = false;
  removed_mount_points = [];
}

-- A volume that is held, with both of its mount points removed.
abbrev pub held : Volume simulated
held = record fresh { locked = true; removed_mount_points = info.mount_points }

abbrev start : Process simulated
start = process [] 1

-- The same, when another program keeps the volume open.
abbrev busy : Process simulated
busy = record start { os = record start.os { refuses_lock = true } }

restore_mounts-attempts_example :
    (restore_mounts held start).2.os ≡ attempts simulated held held.removed_mount_points start.os
restore_mounts-attempts_example = restore_mounts-attempts held start

restore_mounts-succeeds_example :
    succeeds (restore_mounts held start).0
    ≡ all_accepted simulated held held.removed_mount_points start.os
restore_mounts-succeeds_example = restore_mounts-succeeds held start

remove_mounts-deletable_example :
    ((remove_mounts fresh start).1 ≡ record fresh {
      removed_mount_points = [] ++ deletable simulated info.mount_points start.os;
    })
    × (succeeds (remove_mounts fresh start).0 ≡ all_deletable simulated info.mount_points start.os)
remove_mounts-deletable_example = remove_mounts-deletable fresh start

refused :
    (volume_control 9 VolumeCode.lock (text "lock target volume") busy).0
    ≡ err (volume_lock_failure (os_error 5))
unfolding volume_control
refused = refl

volume_control-refusal_example :
    (last_error : ℕ) × ((simulated.volume_control 9 VolumeCode.lock busy.os).0 ≡ failed last_error)
    × (is_lock_refusal (volume_lock_failure (os_error 5))
        ≡ (is_lock VolumeCode.lock && last_error == 5))
volume_control-refusal_example =
    volume_control-refusal 9 VolumeCode.lock (text "lock target volume") busy
      (volume_lock_failure (os_error 5)) refused

all_granted : (lock_all false (fresh ∷ fresh ∷ []) start).0 ≡ ok tt
unfolding lock_all lock volume_control
all_granted = refl

lock_all-all_locked_example : all is_locked (lock_all false (fresh ∷ fresh ∷ []) start).1 ≡ true
lock_all-all_locked_example = lock_all-all_locked (fresh ∷ fresh ∷ []) start all_granted

opened : open_volume info 4 start ≡ (ok fresh, start)
unfolding open_volume volume_device_path disk_number opened_file text
opened = refl

open_volume-IsOnDisk_example : IsOnDisk info 4 fresh
open_volume-IsOnDisk_example = open_volume-IsOnDisk info 4 fresh start start opened

abbrev letter : DriveLetter
letter = record { char = b'D' }

-- The letter comes into use during the third wait.
abbrev later : Process simulated
later = record start { os = record start.os { clock = 600_001_000 } }

appeared : wait_for_drive_state 5 letter true 1_000_000_000 start ≡ some (ok tt, later)
unfolding wait_for_drive_state drive_letter_in_use letter_bit
appeared = refl
