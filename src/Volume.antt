-- ===== src/Volume.antt =====
-- cli/src/driver/windows/volume/mod.rs, the volume of a disk that is about to be deleted: locking,
-- dismounting, removing and restoring its mount points. A method that takes `&mut self` yields the
-- volume beside its result. Closing the handle of a dropped volume is not modelled.
pub mod Mounts
pub mod Refusals
pub mod Identity
pub mod Letters
pub mod Finder
pub mod Name
pub mod Discovery
use wisp_disk.Base.{
  ℕ, Bool, true, false, ◌&&◌, Option, none, some, List, [], ◌∷◌, ◌++◌, ◌==◌, if◌then◌else◌,
}
use wisp_disk.Base.Text.{Text, text}
use wisp_disk.Errors.{
  Error, os_error, context, volume_lock_failure, has_lock_failure, downcast_os_error, Result, ok,
  err, recovery_failed,
}
use wisp_disk.Machine.{Windows, Process, VolumeCode, Io}
use wisp_disk.Machine.Io.{call, map_err, call_for}

pub record VolumeInfo : Type 0 where
  pub name : Text
  pub mount_points : List Text

pub record Volume (W : Windows) : Type 0 where
  pub name : Text
  pub mount_points : List Text
  pub handle : W.Handle
  pub locked : Bool
  pub removed_mount_points : List Text

-- What a method on `&mut T` yields.
abbrev pub Changed : Windows → Type 0 → Type 0
Changed W T = Result (Unit {0}) × T × Process W

-- The context that `volume_control` puts around the last-error code.
control_error : VolumeCode → Text → Error → Error
control_error VolumeCode.lock operation e = volume_lock_failure e
control_error VolumeCode.dismount operation e = context operation e
control_error VolumeCode.unlock operation e = context operation e

unfoldable pub volume_control : {W : Windows} → W.Handle → VolumeCode → Text → Io W (Unit {0})
unfolding control_error
volume_control {W} handle code operation =
    map_err (control_error code operation) (call (W.volume_control handle code))

is_access_denied : Option ℕ → Bool
is_access_denied none = false
is_access_denied (some code) = code == 5

-- `is_lock_refusal`.
unfoldable pub is_lock_refusal : Error → Bool
unfolding is_access_denied has_lock_failure downcast_os_error
is_lock_refusal e = has_lock_failure e && is_access_denied (downcast_os_error e)

-- `failure` in the loops that restore: the first error, and the later ones around it.
unfoldable pub add_failure : Option Error → Result (Unit {0}) → Option Error
add_failure failure (ok done) = failure
add_failure none (err e) = some e
add_failure (some first) (err e) =
    some (recovery_failed first (text "another mount restoration failed") e)

unfoldable pub as_result : Option Error → Result (Unit {0})
as_result none = ok tt
as_result (some e) = err e

unfoldable pub is_last : List Text → Bool
is_last [] = true
is_last (point ∷ points) = false

-- The end of `restore_removed_mount`: the error of the mount and the error of the unlocking.
joined : Result (Unit {0}) → Result (Unit {0}) → Result (Unit {0})
joined (ok done) (ok done') = ok tt
joined (err e) (ok done) = err e
joined (ok done) (err e) = err e
joined (err mount) (err e) = err (recovery_failed mount (text "unlock also failed") e)

restore_operation : Bool → Text
restore_operation true = text "restore drive-letter mount point"
restore_operation false = text "restore volume mount point"

module _ {W : Windows} where
  lock_tried : Bool → Volume W → Result (Unit {0}) × Process W → Changed W (Volume W)
  lock_tried force v (ok done, p) = (ok tt, record v { locked = true }, p)
  lock_tried true v (err e, p) = (ok tt, v, p)
  lock_tried false v (err e, p) = (err e, v, p)

  unfoldable pub lock : Bool → Volume W → Process W → Changed W (Volume W)
  unfolding lock_tried
  lock force v p =
      lock_tried force v (volume_control v.handle VolumeCode.lock (text "lock target volume") p)

  unfoldable pub dismount : Volume W → Io W (Unit {0})
  dismount v = volume_control v.handle VolumeCode.dismount (text "dismount target volume")

  -- One round of `remove_mounts`; `again` is the rest of the loop.
  mount_removed :
      Text
      → (Volume W → Process W → Changed W (Volume W))
      → Volume W
      → Result (Unit {0}) × Process W
      → Changed W (Volume W)
  mount_removed point again v (ok done, p) =
      again (record v { removed_mount_points = v.removed_mount_points ++ (point ∷ []) }) p
  mount_removed point again v (err e, p) = (err e, v, p)

  unfoldable pub remove_each : List Text → Volume W → Process W → Changed W (Volume W)
  unfolding mount_removed
  remove_each [] v p = (ok tt, v, p)
  remove_each (point ∷ points) v p =
      mount_removed point (remove_each points) v
        (call_for (text "remove volume mount point") (W.delete_volume_mount_point point) p)

  unfoldable pub remove_mounts : Volume W → Process W → Changed W (Volume W)
  remove_mounts v p = remove_each v.mount_points v p

  unlocked : Volume W → Result (Unit {0}) × Process W → Changed W (Volume W)
  unlocked v (ok done, p) = (ok tt, record v { locked = false }, p)
  unlocked v (err e, p) = (err e, v, p)

  unfoldable pub unlock : Volume W → Process W → Changed W (Volume W)
  unfolding unlocked
  unlock v p =
      unlocked v (volume_control v.handle VolumeCode.unlock (text "unlock restored volume") p)

  after_mount : Result (Unit {0}) → Changed W (Volume W) → Changed W (Volume W)
  unfolding joined
  after_mount mount (release, v, p) = (joined mount release, v, p)

  released : Bool → Volume W → Result (Unit {0}) × Process W → Changed W (Volume W)
  unfolding after_mount
  released true v (mount, p) = after_mount mount (unlock v p)
  released false v (mount, p) = after_mount mount (ok tt, v, p)

  -- `last` is `index + 1 == self.removed_mount_points.len()`.
  unfoldable pub restore_removed_mount :
      (point : Text) (last : Bool) → Volume W → Process W → Changed W (Volume W)
  unfolding released restore_operation
  restore_removed_mount point last v p =
      let release_lock = last && v.locked in
      released release_lock v
        (call_for (restore_operation release_lock) (W.set_volume_mount_point point v.name) p)

  mount_restored :
      (Option Error → Volume W → Process W → Changed W (Volume W))
      → Option Error
      → Changed W (Volume W)
      → Changed W (Volume W)
  mount_restored again failure (result, v, p) = again (add_failure failure result) v p

  -- The loop of `restore_mounts` over the indices that are left.
  unfoldable pub restore_each :
      List Text → Option Error → Volume W → Process W → Changed W (Volume W)
  unfolding mount_restored
  restore_each [] failure v p = (as_result failure, v, p)
  restore_each (point ∷ points) failure v p =
      mount_restored (restore_each points) failure
        (restore_removed_mount point (is_last points) v p)

  unfoldable pub restore_mounts : Volume W → Process W → Changed W (Volume W)
  restore_mounts v p = restore_each v.removed_mount_points none v p
