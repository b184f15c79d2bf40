-- ===== src/Disk/Deletion.antt =====
-- cli/src/driver/windows/disk/deletion.rs, the volumes of one disk, prepared for its deletion and
-- restored. `DiskDeletion` is the list of its volumes.
use wisp_disk.Base.{◌≡◌, refl, Bool, true, false, Option, none, ℕ, List, [], ◌∷◌, all, arith}
use wisp_disk.Errors.{Error, ok, err}
use wisp_disk.Machine.{Windows, Process}
use wisp_disk.Volume.{
  Volume, Changed, lock, dismount, remove_mounts, restore_mounts, add_failure, as_result,
}
use wisp_disk.Volume.{VolumeInfo}
use wisp_disk.Machine.{Io}
use wisp_disk.Machine.Io.{pure, ◌>>=◌, ◌>>◌}
use wisp_disk.Volume.Identity.{ScsiLocation, open_volume, verify_physical_disk_location}
use wisp_disk.Volume.Refusals.{lock-grants}

module _ {W : Windows} where
  -- The `map` and the `collect` of `DiskDeletion::open`, which stops at the first error.
  unfoldable pub open_all : ℕ → List VolumeInfo → Io W (List (Volume W))
  open_all number [] = pure []
  open_all number (info ∷ infos) = do
    volume ← open_volume info number
    volumes ← open_all number infos
    pure (volume ∷ volumes)

  -- The end of `DiskDeletion::open`.
  unfoldable pub verified : ℕ → ScsiLocation → List (Volume W) → Io W (List (Volume W))
  verified number location volumes = do verify_physical_disk_location number location; pure volumes

  consed : Volume W → Changed W (List (Volume W)) → Changed W (List (Volume W))
  consed v (result, vs, p) = (result, v ∷ vs, p)

  -- One round of a loop over the volumes that stops at an error; `again` is the rest of the loop.
  visited :
      (Process W → Changed W (List (Volume W)))
      → List (Volume W)
      → Changed W (Volume W)
      → Changed W (List (Volume W))
  unfolding consed
  visited again vs (ok done, v, p) = consed v (again p)
  visited again vs (err e, v, p) = (err e, v ∷ vs, p)

  for_each :
      (Volume W → Process W → Changed W (Volume W))
      → List (Volume W)
      → Process W
      → Changed W (List (Volume W))
  unfolding visited
  for_each f [] p = (ok tt, [], p)
  for_each f (v ∷ vs) p = visited (for_each f vs) vs (f v p)

  -- `DiskDeletion::lock`, `DiskDeletion::dismount` and `DiskDeletion::remove_mounts`.
  unfoldable pub lock_all : Bool → List (Volume W) → Process W → Changed W (List (Volume W))
  unfolding for_each
  lock_all force = for_each (lock force)

  unfoldable pub dismount_all : List (Volume W) → Process W → Changed W (List (Volume W))
  unfolding for_each
  dismount_all = for_each (λ v p. ((dismount v p).0, v, (dismount v p).1))

  unfoldable pub remove_all : List (Volume W) → Process W → Changed W (List (Volume W))
  unfolding for_each
  remove_all = for_each remove_mounts

  volume_restored :
      (Option Error → Process W → Changed W (List (Volume W)))
      → Option Error
      → Changed W (Volume W)
      → Changed W (List (Volume W))
  unfolding consed
  volume_restored again failure (result, v, p) = consed v (again (add_failure failure result) p)

  restore_rest : List (Volume W) → Option Error → Process W → Changed W (List (Volume W))
  unfolding volume_restored
  restore_rest [] failure p = (as_result failure, [], p)
  restore_rest (v ∷ vs) failure p = volume_restored (restore_rest vs) failure (restore_mounts v p)

  -- `DiskDeletion::restore`: an error does not keep the other volumes from being restored.
  unfoldable pub restore_all : List (Volume W) → Process W → Changed W (List (Volume W))
  unfolding restore_rest
  restore_all vs p = restore_rest vs none p

  abbrev pub is_locked : Volume W → Bool
  is_locked v = v.locked

  -- Without `/force`, `DiskDeletion::lock` succeeds only when every volume of the disk is held.
  pub lock_all-all_locked :
      (vs : List (Volume W)) (p : Process W)
      → (lock_all false vs p).0 ≡ ok tt
      → all is_locked (lock_all false vs p).1 ≡ true
  unfolding lock_all for_each visited consed
  lock_all-all_locked [] p h = refl
  lock_all-all_locked (v ∷ vs) p h =
      ground (arith, lock-grants false v p, lock_all-all_locked vs (lock false v p).2)
