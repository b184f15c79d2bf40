-- ===== src/Disk/Delete/Unique.antt =====
-- cli/src/driver/windows/disk/removal.rs, what a success of `delete_disk` rests on.
use wisp_disk.Base.{ℕ, ◌≡◌, Bool, false, some, [], ◌∷◌, arith}
use wisp_disk.Args.{DriveLetter}
use wisp_disk.Errors.{ok}
use wisp_disk.Machine.{Windows, Process}
use wisp_disk.Machine.Loops
use wisp_disk.Machine.Loops.{run}
use wisp_disk.Adapter.Requests.{Adapter}
use wisp_disk.Adapter.Discovery.{ports_from, scsi_port_limit}
use wisp_disk.Adapter.Reserved.{device_wait}
use wisp_disk.Volume.Identity.{ScsiLocation}
use wisp_disk.Volume.Letters.{Shows, wait_for_drive_state-Shows}
use wisp_disk.Disk.Owner.{Owner, letter_address, find_owner, find_instance}
use wisp_disk.Disk.Owner.Scanning.{Scans}
use wisp_disk.Disk.Owner.Claims.{ClaimsOf, InstanceOf, find_owner-Scans, find_instance-Scans}
use wisp_disk.Disk.Delete.{delete_by_identity, delete_disk}
use wisp_disk.Disk.Delete.Confirmed.{IsDeleted, delete_allocation-IsDeleted}

-- The one adapter of the instance, found by a scan of all ports, and the deletion on it.
pub record IsDeletedOn {W : Windows} (fuel instance_id device_id : ℕ) (p p' : Process W)
    : Type 0 where
  pub adapter : Adapter W
  pub scanned : Process W
  pub one_adapter :
      Scans (InstanceOf {W = W} instance_id) (ports_from 0 scsi_port_limit) p (adapter ∷ []) scanned
  pub is_deleted : IsDeleted fuel adapter instance_id device_id scanned p'

-- The one owner of the letter, found by a scan of all ports, its deletion, and the letter free behind it.
pub record IsFreed {W : Windows} (fuel : ℕ) (letter : DriveLetter) (p p' : Process W) : Type 0 where
  pub address : ScsiLocation
  pub owner : Owner
  pub asked : Process W
  pub scanned : Process W
  pub deleted : Process W
  pub located : letter_address letter p ≡ (ok address, asked)
  pub one_owner :
      Scans (ClaimsOf {W = W} address) (ports_from 0 scsi_port_limit) asked (owner ∷ []) scanned
  pub is_deleted : IsDeletedOn fuel owner.instance_id owner.device_id scanned deleted
  pub is_free : Shows letter false p'

module _ {W : Windows} (fuel : ℕ) where
  pub delete_by_identity-IsDeletedOn :
      (instance_id device_id : ℕ) (force : Bool) (p p' : Process W)
      → delete_by_identity fuel instance_id device_id force p ≡ some (ok tt, p')
      → IsDeletedOn fuel instance_id device_id p p'
  unfolding delete_by_identity
  delete_by_identity-IsDeletedOn instance_id device_id force p p' h =
      let (adapter, q, found, h1) = Loops.>>=-eq_ok (run (find_instance instance_id)) _ p h in
      record {
        adapter = adapter;
        scanned = q;
        one_adapter = find_instance-Scans instance_id p q adapter (ground arith);
        is_deleted = delete_allocation-IsDeleted adapter fuel instance_id device_id force q p' h1;
      }

  -- A success of delete_disk rests on the one claim that a scan of all adapters finds on the
  -- address of the letter, on the one adapter of its instance, on a deletion there that the
  -- inventory and the absence of the disk confirm, and on the letter being free.
  pub delete_disk-IsFreed :
      (letter : DriveLetter) (force : Bool) (p p' : Process W)
      → delete_disk fuel letter force p ≡ some (ok tt, p')
      → IsFreed fuel letter p p'
  unfolding delete_disk
  delete_disk-IsFreed letter force p p' h =
      let (owner, q, found, h1) = Loops.>>=-eq_ok (run (find_owner letter)) _ p h in
      let (_, q1, deleted, h2) =
        Loops.>>=-eq_ok (delete_by_identity fuel owner.instance_id owner.device_id force) _ q h1 in
      let (address, asked, located, scans) = find_owner-Scans letter p q owner (ground arith) in
      record {
        address = address;
        owner = owner;
        asked = asked;
        scanned = q;
        deleted = q1;
        located = located;
        one_owner = scans;
        is_deleted =
            delete_by_identity-IsDeletedOn owner.instance_id owner.device_id force q q1 deleted;
        is_free = wait_for_drive_state-Shows fuel letter false device_wait q1 p' h2;
      }
