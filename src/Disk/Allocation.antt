-- ===== src/Disk/Allocation.antt =====
-- cli/src/driver/windows/disk/removal.rs, `delete_allocation`, with `disk_location` of
-- cli/src/driver/windows/disk/mod.rs. The loops run on fuel.
use wisp_disk.Base.{ℕ, Bool, not, Option, none, some, ◌++◌, find, ◌==◌}
use wisp_disk.Base.Text.{Text, text, decimal}
use wisp_disk.Protocol.{DiskState}
use wisp_disk.Errors.{Error, message, context, Result, ok, err}
use wisp_disk.Machine.{Windows, Process, Io, M}
use wisp_disk.Machine.Io.{contextual, refuse_if, of_result, pure, ◌>>=◌, ◌>>◌}
use wisp_disk.Adapter.Requests.{Adapter, query_state, counted_disks}
use wisp_disk.Volume.{Changed}
use wisp_disk.Volume.Identity.{ScsiLocation}
use wisp_disk.Disk.Removal.{Volumes, remove_allocation}

absent_device : Error
absent_device = message (text "device ID is absent; refresh /list")

already_stopping : ℕ → Error
already_stopping device_id = message (
    text "device "
    ++ (decimal device_id ++ text " is already stopping; query inventory until removal completes"))

present_or_error : Option DiskState → Result DiskState
unfolding absent_device
present_or_error none = err absent_device
present_or_error (some entry) = ok entry

not_disappeared : ℕ → Text
not_disappeared device_id =
    text "driver allocation for device "
    ++ (decimal device_id ++ text " was removed, but Windows disappearance was not confirmed")

module _ {W : Windows} where
  unfoldable pub disk_location : Adapter W → DiskState → ScsiLocation
  disk_location adapter entry = record {
    port = adapter.port_number;
    path = entry.disk.path_id;
    target = entry.disk.target_id;
    lun = entry.disk.lun;
  }

  -- `delete_allocation` up to the location of the disk.
  unfoldable pub locate_allocation : Adapter W → (instance_id device_id : ℕ) → Io W ScsiLocation
  unfolding present_or_error already_stopping
  locate_allocation adapter instance_id device_id = do
    state ← query_state adapter
    refuse_if (not (state.adapter_instance == instance_id))
        (message (text "adapter instance changed before deletion"))
    entry ←
        of_result (
          present_or_error
            (find (λ entry. entry.disk.device_id == device_id) (counted_disks state)))
    refuse_if (not (entry.state == 1)) (already_stopping device_id)
    pure (disk_location adapter entry)

  -- The deletion is dropped.
  unfoldable pub without_volumes :
      Option (Changed W (Volumes W)) → Option (Result (Unit {0}) × Process W)
  without_volumes none = none
  without_volumes (some (r, volumes, p)) = some (r, p)

  -- From the preparation of the volumes to the answer of the driver.
  unfoldable pub remove_opened :
      Adapter W → (fuel instance_id device_id : ℕ) → Bool → Volumes W → M W (Unit {0})
  unfolding without_volumes
  remove_opened adapter fuel instance_id device_id force volumes p =
      without_volumes (remove_allocation adapter fuel instance_id device_id force volumes p)

  unfoldable pub disappearance :
      ℕ → Option (Result (Unit {0}) × Process W) → Option (Result (Unit {0}) × Process W)
  unfolding not_disappeared
  disappearance device_id none = none
  disappearance device_id (some (r, p)) =
      some (contextual (context (not_disappeared device_id)) r, p)

  -- `.with_context(...)` around the wait for the disk's absence.
  unfoldable pub confirming : ℕ → M W (Unit {0}) → M W (Unit {0})
  unfolding disappearance
  confirming device_id m p = disappearance device_id (m p)
