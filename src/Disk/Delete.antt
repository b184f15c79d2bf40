-- ===== src/Disk/Delete.antt =====
-- cli/src/driver/windows/disk/removal.rs, `delete_allocation`, `delete_by_identity` and `delete_disk`
-- put together. All loops in them run on one amount of fuel.
pub mod Confirmed
pub mod Unique
use wisp_disk.Base.{ℕ, Bool, not, false, ◌∷◌, ◌++◌}
use wisp_disk.Base.Text.{text}
use wisp_disk.Args.{DriveLetter}
use wisp_disk.Args.Display.{show_drive_letter}
use wisp_disk.Errors.{message}
use wisp_disk.Machine.{Windows, M}
use wisp_disk.Machine.Loops.{run, ◌>>=◌, ◌>>◌}
use wisp_disk.Adapter.Requests.{Adapter}
use wisp_disk.Adapter.Reserved.{device_wait}
use wisp_disk.Adapter.Discovery.{ports_from, scsi_port_limit}
use wisp_disk.Volume.Letters.{wait_for_drive_state}
use wisp_disk.Disk.Absence.{wait_for_physical_disk_absent}
use wisp_disk.Disk.Arrival.{wait_for_physical_disk}
use wisp_disk.Disk.Opening.{open_deletion}
use wisp_disk.Disk.Allocation.{locate_allocation, remove_opened, confirming}
use wisp_disk.Disk.Owner.{find_instance, find_owner, Owner}

module _ {W : Windows} (fuel : ℕ) where
  unfoldable pub delete_allocation : Adapter W → (instance_id device_id : ℕ) → Bool → M W (Unit {0})
  delete_allocation adapter instance_id device_id force = do
    location ← run (locate_allocation adapter instance_id device_id)
    number ← wait_for_physical_disk fuel location device_wait
    volumes ← open_deletion fuel number location
    remove_opened adapter fuel instance_id device_id force volumes
    confirming device_id (wait_for_physical_disk_absent number location fuel device_wait)

  unfoldable pub delete_by_identity : (instance_id device_id : ℕ) → Bool → M W (Unit {0})
  delete_by_identity instance_id device_id force = do
    adapter ← run (find_instance instance_id)
    delete_allocation adapter instance_id device_id force

  unfoldable pub delete_disk : DriveLetter → Bool → M W (Unit {0})
  delete_disk letter force = do
    owner ← run (find_owner letter)
    delete_by_identity owner.instance_id owner.device_id force
    wait_for_drive_state fuel letter false device_wait
