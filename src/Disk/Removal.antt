-- ===== src/Disk/Removal.antt =====
-- cli/src/driver/windows/disk/removal.rs, `delete_allocation` from the preparation of the volumes to
-- the answer of the driver. The waits for the disk before and behind it are not part of it.
pub mod Outcomes
use wisp_disk.Base.{
  ℕ, Bool, true, false, not, ◌&&◌, Option, none, some, List, ◌++◌, any, ◌==◌, if◌then◌else◌,
  is_some,
}
use wisp_disk.Base.Text.{Text, text, decimal}
use wisp_disk.Protocol.{DiskState, StateResponse}
use wisp_disk.Errors.{
  OperationHandle, Error, context, Result, ok, err, downcast_unresolved, recovery_failed,
}
use wisp_disk.Machine.{Windows, Process}
use wisp_disk.Adapter.Requests.{Adapter, query_state, counted_disks}
use wisp_disk.Adapter.Mutations.{delete_by_id}
use wisp_disk.Volume.{Volume, Changed}
use wisp_disk.Disk.Deletion.{lock_all, dismount_all, remove_all, restore_all}

-- `entry.disk.device_id == id && entry.state == 1` of some entry, in the inventory of `instance`.
unfoldable pub still_online : ℕ → ℕ → StateResponse → Bool
still_online instance_id device_id state =
    state.adapter_instance == instance_id
    && any (λ entry. entry.disk.device_id == device_id && entry.state == 1) (counted_disks state)

not_confirmed : ℕ → Text
not_confirmed device_id =
    text "device "
    ++ (decimal device_id ++ text " removal is not confirmed; inspect /list /json before retrying")

abbrev pub Volumes : Windows → Type 0
Volumes W = List (Volume W)

module _ {W : Windows} where
  and_then :
      Changed W (Volumes W)
      → (Volumes W → Process W → Changed W (Volumes W))
      → Changed W (Volumes W)
  and_then (ok done, vs, p) next = next vs p
  and_then (err e, vs, p) next = (err e, vs, p)

  -- `prepared`.
  unfoldable pub prepare : Bool → Volumes W → Process W → Changed W (Volumes W)
  unfolding and_then
  prepare force vs p = and_then (and_then (lock_all force vs p) dismount_all) remove_all

  restored : Error → Text → Error → Changed W (Volumes W) → Changed W (Volumes W)
  restored e action otherwise (ok done, vs, p) = (err otherwise, vs, p)
  restored e action otherwise (err restore, vs, p) = (err (recovery_failed e action restore), vs, p)

  -- The error path of the preparation.
  unfoldable pub abandon : Error → Volumes W → Process W → Changed W (Volumes W)
  unfolding restored
  abandon e vs p = restored e (text "volume restoration also failed") e (restore_all vs p)

  module _ (adapter : Adapter W) (fuel : ℕ) (instance_id device_id : ℕ) where
    -- The deletion was rejected: the disk is still there.
    rejected : Error → Volumes W → Process W → Changed W (Volumes W)
    unfolding restored
    rejected e vs p =
        restored e (text "mount restoration also failed")
          (context (text "deletion rejected; original mount points restored") e) (restore_all vs p)

    left : Error → Volumes W → Process W → Changed W (Volumes W)
    unfolding not_confirmed
    left e vs p = (err (context (not_confirmed device_id) e), vs, p)

    inventory_read : Error → Volumes W → Result StateResponse × Process W → Changed W (Volumes W)
    unfolding rejected left still_online
    inventory_read e vs (ok state, p) =
        if still_online instance_id device_id state then rejected e vs p else left e vs p
    inventory_read e vs (err _, p) = left e vs p

    -- The error path of `delete_by_id`. The inventory is read only for a resolved outcome.
    deletion_failed : Option OperationHandle → Error → Volumes W → Process W → Changed W (Volumes W)
    unfolding inventory_read left
    deletion_failed (some unresolved) e vs p = left e vs p
    deletion_failed none e vs p = inventory_read e vs (query_state adapter p)

    deletion_answered :
        Volumes W → Option (Result (Unit {0}) × Process W) → Option (Changed W (Volumes W))
    unfolding deletion_failed downcast_unresolved
    deletion_answered vs none = none
    deletion_answered vs (some (ok done, p)) = some (ok tt, vs, p)
    deletion_answered vs (some (err e, p)) = some (deletion_failed (downcast_unresolved e) e vs p)

    prepared : Changed W (Volumes W) → Option (Changed W (Volumes W))
    unfolding deletion_answered
    prepared (ok done, vs, p) =
        deletion_answered vs (delete_by_id adapter fuel instance_id device_id p)
    prepared (err e, vs, p) = some (abandon e vs p)

    unfoldable pub remove_allocation : Bool → Volumes W → Process W → Option (Changed W (Volumes W))
    unfolding prepared
    remove_allocation force vs p = prepared (prepare force vs p)
