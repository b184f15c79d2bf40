-- ===== src/Volume/Identity/Opened.antt =====
-- cli/src/driver/windows/volume/mod.rs, what `Volume::open` ascertains.
use mathlib.Core.Path.{subst}
use wisp_disk.Base.{arith, ◌≤◌, ℕ, ◌+◌, ◌≡◌, true, false, []}
use wisp_disk.Base.Text.{text}
use wisp_disk.Errors.{Result, ok, err}
use wisp_disk.Machine.{returned, Windows, Process, DiskExtents}
use wisp_disk.Machine.Io.{call_for, of_result, >>=-eq_ok, call_for-eq_ok}
use wisp_disk.Volume.{VolumeInfo, Volume}
use wisp_disk.Volume.Identity.{
  disk_number, checked_handle, kept, open_volume, volume_device_path, disk_extents_size,
  generic_read, generic_write, ScsiLocation, same_location, physical_disk_address,
  verify_physical_disk_location,
}

-- A volume that was opened is on the disk that was asked for, and on no other: Windows said so of the
-- very handle that the volume keeps. It is not held, and nothing of it was removed.
pub record IsOnDisk {W : Windows} (info : VolumeInfo) (number : ℕ) (v : Volume W) : Type 0 where
  pub asked : W.State
  pub extents : DiskExtents
  pub answered : (W.volume_disk_extents v.handle asked).0 ≡ returned extents
  pub whole_answer : disk_extents_size ≤ extents.count
  pub one_extent : extents.number_of_extents ≡ 1
  pub same_disk : extents.disk_number ≡ number
  pub same_name : v.name ≡ info.name
  pub same_mounts : v.mount_points ≡ info.mount_points
  pub not_held : v.locked ≡ false
  pub none_removed : v.removed_mount_points ≡ []

module _ {W : Windows} where
  pub disk_number-eq_ok :
      (handle : W.Handle) (p p' : Process W) (number : ℕ)
      → disk_number handle p ≡ (ok number, p')
      → (e : DiskExtents) × ((W.volume_disk_extents handle p.os).0 ≡ returned e)
        × (disk_extents_size ≤ e.count)
        × (e.number_of_extents ≡ 1)
        × (e.disk_number ≡ number)
  unfolding disk_number
  disk_number-eq_ok handle p p' number h =
      let (e, found, rest) =
        >>=-eq_ok
          (call_for (text "resolve volume to a physical disk") (W.volume_disk_extents handle)) _ p
          h in
      let answered =
        call_for-eq_ok (text "resolve volume to a physical disk") (W.volume_disk_extents handle) p
          found in
      (e, answered, ground arith, ground arith, ground arith)

  checked_handle-eq_ok :
      (expected_disk : ℕ) (handle handle' : W.Handle) (p p' : Process W)
      → checked_handle expected_disk handle p ≡ (ok handle', p')
      → (handle' ≡ handle) × (q : Process W) × (disk_number handle p ≡ (ok expected_disk, q))
  unfolding checked_handle
  checked_handle-eq_ok expected_disk handle handle' p p' h =
      let (actual, found, rest) = >>=-eq_ok (disk_number handle) _ p h in
      (ground arith, (disk_number handle p).1, ground arith)

  kept-eq_ok :
      {A : Type 0} (handle : W.Handle) (x : Result A × Process W) {a : A}
      → (kept handle x).0 ≡ ok a
      → x.0 ≡ ok a
  unfolding kept
  kept-eq_ok handle (ok b, p) h = h
  kept-eq_ok handle (err e, p) h = cc

  -- `Volume::open` yields a volume only when Windows says that it lies on the one disk asked for.
  pub open_volume-IsOnDisk :
      (info : VolumeInfo) (number : ℕ) (v : Volume W) (p p' : Process W)
      → open_volume info number p ≡ (ok v, p')
      → IsOnDisk info number v
  unfolding open_volume
  open_volume-IsOnDisk info number v p p' h =
      let (path, found, rest) = >>=-eq_ok (of_result (volume_device_path info.name)) _ p h in
      let (handle, opened, rest') =
        >>=-eq_ok
          (call_for (text "open target volume") (W.create_file path (generic_read + generic_write)))
          _ p rest in
      let q =
        (call_for (text "open target volume") (W.create_file path (generic_read + generic_write))
          p).1 in
      let (owned, checked, last) =
        >>=-eq_ok (λ p. kept handle (checked_handle number handle p)) _ q rest' in
      let (same, q', asked) =
        checked_handle-eq_ok number handle owned q (checked_handle number handle q).1
          (ground (arith, kept-eq_ok handle (checked_handle number handle q) checked)) in
      let (e, answered, whole, one, disk) = disk_number-eq_ok handle q q' number asked in
      record {
        asked = q.os;
        extents = e;
        answered =
            subst (λ kept_handle. (W.volume_disk_extents kept_handle q.os).0 ≡ returned e)
              (ground arith) answered;
        whole_answer = whole;
        one_extent = one;
        same_disk = disk;
        same_name = ground arith;
        same_mounts = ground arith;
        not_held = ground arith;
        none_removed = ground arith;
      }

  -- A check of a disk's address that succeeds was answered with the address expected.
  pub verify_physical_disk_location-eq_ok :
      (number : ℕ) (location : ScsiLocation) (p p' : Process W)
      → verify_physical_disk_location number location p ≡ (ok tt, p')
      → (actual : ScsiLocation) × (physical_disk_address number p ≡ (ok actual, p'))
        × (same_location actual location ≡ true)
  unfolding verify_physical_disk_location
  verify_physical_disk_location-eq_ok number location p p' h =
      let (actual, found, rest) = >>=-eq_ok (physical_disk_address number) _ p h in
      (actual, ground arith, ground arith)
