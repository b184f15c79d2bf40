-- ===== src/Disk/Delete/Confirmed.antt =====
-- cli/src/driver/windows/disk/removal.rs, what a success of `delete_allocation` rests on.
use wisp_disk.Base.{ℕ, ◌≡◌, refl, Bool, Option, none, some, List, arith}
use wisp_disk.Errors.{Result, ok, err}
use wisp_disk.Machine.{Windows, Process}
use wisp_disk.Machine.Loops
use wisp_disk.Machine.Loops.{run}
use wisp_disk.Adapter.Requests.{Adapter}
use wisp_disk.Adapter.Reserved.{device_wait}
use wisp_disk.Adapter.Mutations.Deleted.{IsGone}
use wisp_disk.Volume.{Volume, Changed}
use wisp_disk.Volume.Identity.{ScsiLocation}
use wisp_disk.Disk.Absence.{
  wait_for_physical_disk_absent, IsAbsent, wait_for_physical_disk_absent-IsAbsent,
}
use wisp_disk.Disk.Arrival.{wait_for_physical_disk}
use wisp_disk.Disk.Opening.{open_deletion}
use wisp_disk.Disk.Removal.{Volumes, remove_allocation}
use wisp_disk.Disk.Removal.Outcomes.{
  Ends, gone, not_prepared, put_back, left_alone, remove_allocation-Ends,
}
use wisp_disk.Disk.Allocation.{
  locate_allocation, without_volumes, remove_opened, disappearance, confirming,
}
use wisp_disk.Disk.Delete.{delete_allocation}

-- What is known behind a success: the driver listed the device at the location, all volumes of the disk
-- were open, then the inventory did not list the device any more, and at last the disk was not found at
-- the location.
pub record IsDeleted {W : Windows} (fuel : ℕ) (adapter : Adapter W) (instance_id device_id : ℕ)
    (p p' : Process W) : Type 0 where
  pub location : ScsiLocation
  pub number : ℕ
  pub listed : Process W
  pub found : Process W
  pub opened : Process W
  pub removed : Process W
  pub volumes : List (Volume W)
  pub located : locate_allocation adapter instance_id device_id p ≡ (ok location, listed)
  pub appeared : wait_for_physical_disk fuel location device_wait listed ≡ some (ok number, found)
  pub held : open_deletion fuel number location found ≡ some (ok volumes, opened)
  pub is_gone : IsGone adapter instance_id device_id removed
  pub is_absent : IsAbsent number location p'

module _ {W : Windows} (adapter : Adapter W) (fuel instance_id device_id : ℕ) where
  Ends-IsGone :
      (force : Bool) (vs : Volumes W) (p : Process W) {x : Changed W (Volumes W)}
      → Ends adapter fuel instance_id device_id force vs p x
      → x.0 ≡ ok tt
      → IsGone adapter instance_id device_id x.2
  Ends-IsGone force vs p (gone g) h = g
  Ends-IsGone force vs p (not_prepared e e' vs₁ p₁ r a b) h = cc
  Ends-IsGone force vs p (put_back e e' vs₁ p₁ p₂ p₃ state r a b c d f g) h = cc
  Ends-IsGone force vs p (left_alone e e' p₁ p₂ a b) h = cc

  without_volumes-eq_ok :
      (o : Option (Changed W (Volumes W))) {p' : Process W}
      → without_volumes o ≡ some (ok tt, p')
      → (vs : Volumes W) × (o ≡ some (ok tt, vs, p'))
  unfolding without_volumes
  without_volumes-eq_ok none h = cc
  without_volumes-eq_ok (some (r, vs, p)) h = (vs, ground arith)

  remove_opened-IsGone :
      (force : Bool) (vs : Volumes W) (p p' : Process W)
      → remove_opened adapter fuel instance_id device_id force vs p ≡ some (ok tt, p')
      → IsGone adapter instance_id device_id p'
  unfolding remove_opened
  remove_opened-IsGone force vs p p' h =
      let (left, removed) =
        without_volumes-eq_ok (remove_allocation adapter fuel instance_id device_id force vs p) h in
      Ends-IsGone force vs p {x = (ok tt, left, p')}
        (remove_allocation-Ends adapter fuel instance_id device_id force vs p removed) refl

  disappearance-eq_ok :
      (o : Option (Result (Unit {0}) × Process W)) {p' : Process W}
      → disappearance device_id o ≡ some (ok tt, p')
      → o ≡ some (ok tt, p')
  unfolding disappearance
  disappearance-eq_ok none h = cc
  disappearance-eq_ok (some (ok done, p)) h = h
  disappearance-eq_ok (some (err e, p)) h = cc

  -- A success of `delete_allocation`.
  pub delete_allocation-IsDeleted :
      (force : Bool) (p p' : Process W)
      → delete_allocation fuel adapter instance_id device_id force p ≡ some (ok tt, p')
      → IsDeleted fuel adapter instance_id device_id p p'
  unfolding delete_allocation confirming
  delete_allocation-IsDeleted force p p' h =
      let (location, q, located, h1) =
        Loops.>>=-eq_ok (run (locate_allocation adapter instance_id device_id)) _ p h in
      let (number, q1, appeared, h2) =
        Loops.>>=-eq_ok (wait_for_physical_disk fuel location device_wait) _ q h1 in
      let (volumes, q2, held, h3) = Loops.>>=-eq_ok (open_deletion fuel number location) _ q1 h2 in
      let (_, q3, removed, h4) =
        Loops.>>=-eq_ok (remove_opened adapter fuel instance_id device_id force volumes) _ q2 h3 in
      record {
        location = location;
        number = number;
        listed = q;
        found = q1;
        opened = q2;
        removed = q3;
        volumes = volumes;
        located = ground arith;
        appeared = appeared;
        held = held;
        is_gone = remove_opened-IsGone force volumes q2 q3 removed;
        is_absent = wait_for_physical_disk_absent-IsAbsent number location fuel device_wait q3 p' (
            disappearance-eq_ok (wait_for_physical_disk_absent number location fuel device_wait q3)
              h4);
      }
