-- ===== src/Volume/Mounts.antt =====
-- cli/src/driver/windows/volume/mod.rs, what removing and restoring mount points leaves behind.
use wisp_disk.Base.{
  if◌then◌else◌, ◌∙◌, ap, ◌&&◌, ◌≡◌, refl, Bool, true, false, Option, none, some, List, [], ◌∷◌,
  ◌++◌, append_assoc, append-nil, arith,
}
use wisp_disk.Base.Text.{Text}
use wisp_disk.Errors.{Error, Result, ok, err}
use wisp_disk.Machine.{Windows, Process, Api, returned, failed, VolumeCode}
use wisp_disk.Machine.Io.{call_for}
use wisp_disk.Volume.{
  Volume, remove_each, remove_mounts, restore_each, restore_mounts, restore_removed_mount, is_last,
  add_failure, as_result, unlock, volume_control, restore_operation, mount_restored, released,
  after_mount, joined, mount_removed,
}

abbrev pub succeeds : Result (Unit {0}) → Bool
succeeds (ok done) = true
succeeds (err e) = false

abbrev pub accepted : Api (Unit {0}) → Bool
accepted (returned done) = true
accepted (failed code) = false

module _ (W : Windows) where
  -- The mount points before the first that Windows refuses to delete, and whether it refuses none.
  abbrev pub deletable : List Text → W.State → List Text
  deletable [] s = []
  deletable (point ∷ points) s =
      let (reply, s') = W.delete_volume_mount_point point s in
      if accepted reply then point ∷ deletable points s' else []

  abbrev pub all_deletable : List Text → W.State → Bool
  all_deletable [] s = true
  all_deletable (point ∷ points) s =
      let (reply, s') = W.delete_volume_mount_point point s in
      accepted reply && all_deletable points s'

  -- The system after the mount points were set again, each once, in order, whatever came of it.
  abbrev pub set_each : Text → List Text → W.State → W.State
  set_each name [] s = s
  set_each name (point ∷ points) s = set_each name points (W.set_volume_mount_point point name s).1

  -- Then the lock of the volume is released, if it is held.
  abbrev pub release_held : W.Handle → Bool → W.State → W.State
  release_held handle true s = (W.volume_control handle VolumeCode.unlock s).1
  release_held handle false s = s

  abbrev pub attempts : Volume W → List Text → W.State → W.State
  attempts v [] s = s
  attempts v (point ∷ points) s =
      release_held v.handle v.locked (set_each v.name (point ∷ points) s)

  -- Windows accepted every mount point, and the unlocking if there was one.
  abbrev pub all_set : Text → List Text → W.State → Bool
  all_set name [] s = true
  all_set name (point ∷ points) s =
      accepted (W.set_volume_mount_point point name s).0
      && all_set name points (W.set_volume_mount_point point name s).1

  abbrev pub release_accepted : W.Handle → Bool → W.State → Bool
  release_accepted handle true s = accepted (W.volume_control handle VolumeCode.unlock s).0
  release_accepted handle false s = true

  abbrev pub all_accepted : Volume W → List Text → W.State → Bool
  all_accepted v [] s = true
  all_accepted v (point ∷ points) s =
      all_set v.name (point ∷ points) s
      && release_accepted v.handle v.locked (set_each v.name (point ∷ points) s)

is_none : Option Error → Bool
is_none none = true
is_none (some e) = false

add_failure-is_none :
    (failure : Option Error) (r : Result (Unit {0}))
    → is_none (add_failure failure r) ≡ (is_none failure && succeeds r)
unfolding is_none add_failure
add_failure-is_none none (ok done) = refl
add_failure-is_none none (err e) = refl
add_failure-is_none (some first) (ok done) = refl
add_failure-is_none (some first) (err e) = refl

as_result-succeeds : (failure : Option Error) → succeeds (as_result failure) ≡ is_none failure
unfolding is_none as_result
as_result-succeeds none = refl
as_result-succeeds (some e) = refl

module _ {W : Windows} where
  unlock-succeeds :
      (v : Volume W) (p : Process W)
      → succeeds (unlock v p).0 ≡ accepted (W.volume_control v.handle VolumeCode.unlock p.os).0
  unfolding unlock volume_control
  unlock-succeeds v p = ground arith

  restore_removed_mount-succeeds :
      (point : Text) (last : Bool) (v : Volume W) (p : Process W)
      → succeeds (restore_removed_mount point last v p).0 ≡ (
          accepted (W.set_volume_mount_point point v.name p.os).0
          && release_accepted W v.handle
              (last && v.locked)
              (W.set_volume_mount_point point v.name p.os).1)
  unfolding restore_removed_mount released after_mount joined
  restore_removed_mount-succeeds point last v p = ground (
    arith,
    unlock-succeeds v
        (call_for (restore_operation (last && v.locked)) (W.set_volume_mount_point point v.name)
          p).1,
  )

  unlock-os :
      (v : Volume W) (p : Process W)
      → (unlock v p).2.os ≡ (W.volume_control v.handle VolumeCode.unlock p.os).1
  unfolding unlock volume_control
  unlock-os v p = ground arith

  restore_removed_mount-os :
      (point : Text) (last : Bool) (v : Volume W) (p : Process W)
      → (restore_removed_mount point last v p).2.os
        ≡ release_held W v.handle (last && v.locked) (W.set_volume_mount_point point v.name p.os).1
  unfolding restore_removed_mount released after_mount
  restore_removed_mount-os point last v p = ground (
    arith,
    unlock-os v
        (call_for (restore_operation (last && v.locked)) (W.set_volume_mount_point point v.name)
          p).1,
  )

  restore_removed_mount-keeps :
      (point : Text) (v : Volume W) (p : Process W) → (restore_removed_mount point false v p).1 ≡ v
  unfolding restore_removed_mount released after_mount
  restore_removed_mount-keeps point v p = ground arith

  restore_each-attempts :
      (points : List Text) (failure : Option Error) (v : Volume W) (p : Process W)
      → (restore_each points failure v p).2.os ≡ attempts W v points p.os
  unfolding restore_each mount_restored is_last
  restore_each-attempts [] failure v p = refl
  restore_each-attempts (point ∷ []) failure v p = restore_removed_mount-os point true v p
  restore_each-attempts (point ∷ point' ∷ points) failure v p =
      let first = restore_removed_mount point false v p in
      restore_each-attempts (point' ∷ points) (add_failure failure first.0) first.1 first.2
      ∙ ap (λ w. attempts W w (point' ∷ points) first.2.os) (restore_removed_mount-keeps point v p)
      ∙ ap (attempts W v (point' ∷ points)) (restore_removed_mount-os point false v p)

  -- `restore_mounts` sets every removed mount point again, in order, whatever the earlier ones came
  -- to, and calls nothing else but one unlocking behind the last of them, when the volume is held.
  pub restore_mounts-attempts :
      (v : Volume W) (p : Process W)
      → (restore_mounts v p).2.os ≡ attempts W v v.removed_mount_points p.os
  unfolding restore_mounts
  restore_mounts-attempts v p = restore_each-attempts v.removed_mount_points none v p

  restore_each-succeeds :
      (points : List Text) (failure : Option Error) (v : Volume W) (p : Process W)
      → succeeds (restore_each points failure v p).0
        ≡ (is_none failure && all_accepted W v points p.os)
  unfolding restore_each mount_restored is_last
  restore_each-succeeds [] failure v p = ground (arith, as_result-succeeds failure)
  restore_each-succeeds (point ∷ []) failure v p =
      let first = restore_removed_mount point true v p in
      ground (
        arith,
        as_result-succeeds (add_failure failure first.0),
        add_failure-is_none failure first.0,
        restore_removed_mount-succeeds point true v p,
      )
  restore_each-succeeds (point ∷ point' ∷ points) failure v p =
      let first = restore_removed_mount point false v p in
      ground (
        arith,
        restore_each-succeeds (point' ∷ points) (add_failure failure first.0) first.1 first.2,
        add_failure-is_none failure first.0,
        restore_removed_mount-succeeds point false v p,
        restore_removed_mount-keeps point v p,
        restore_removed_mount-os point false v p,
      )

  -- `restore_mounts` succeeds exactly when Windows accepted every mount point that was removed and,
  -- when the volume is held, the unlocking behind them: a later success hides no earlier failure.
  pub restore_mounts-succeeds :
      (v : Volume W) (p : Process W)
      → succeeds (restore_mounts v p).0 ≡ all_accepted W v v.removed_mount_points p.os
  unfolding restore_mounts is_none
  restore_mounts-succeeds v p = restore_each-succeeds v.removed_mount_points none v p

  remove_each-deletable :
      (points : List Text) (v : Volume W) (p : Process W)
      → ((remove_each points v p).1
          ≡ record v { removed_mount_points = v.removed_mount_points ++ deletable W points p.os })
        × (succeeds (remove_each points v p).0 ≡ all_deletable W points p.os)
  unfolding remove_each mount_removed
  remove_each-deletable [] v p = (ground (arith, append-nil v.removed_mount_points), refl)
  remove_each-deletable (point ∷ points) v p =
      let s' = (W.delete_volume_mount_point point p.os).1 in
      let v' = record v { removed_mount_points = v.removed_mount_points ++ (point ∷ []) } in
      ground (
        arith,
        remove_each-deletable points v' (record p { os = s' }),
        append_assoc v.removed_mount_points (point ∷ []) (deletable W points s'),
        append-nil v.removed_mount_points,
      )

  -- `remove_mounts` records exactly the mount points that it removed, also when it stops at one that
  -- Windows refuses to delete, which is when it fails; nothing else of the volume changes.
  pub remove_mounts-deletable :
      (v : Volume W) (p : Process W)
      → ((remove_mounts v p).1 ≡ record v {
        removed_mount_points = v.removed_mount_points ++ deletable W v.mount_points p.os;
      })
        × (succeeds (remove_mounts v p).0 ≡ all_deletable W v.mount_points p.os)
  unfolding remove_mounts
  remove_mounts-deletable v p = remove_each-deletable v.mount_points v p
