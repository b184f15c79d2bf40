-- ===== src/Disk/Interfaces/Located.antt =====
-- cli/src/driver/windows/disk/mod.rs, what an interface must answer before its disk is taken.
use wisp_disk.Base.{ℕ, ◌≡◌, refl, ap, true, Option, some, Bool-cases, inl, inr, arith}
use wisp_disk.Base.Text.{text}
use wisp_disk.Errors.{Result, ok, err}
use wisp_disk.Machine.{Windows, Process, returned, DeviceNumber, Io}
use wisp_disk.Machine.Io.{call, call_for, pure, >>=-eq_ok, call_for-eq_ok}
use wisp_disk.Volume.Identity.{ScsiLocation, same_location, scsi_location}
use wisp_disk.Disk.Interfaces.{
  skipped, or_continue, numbered, sighted, examine_interface, disk_interface_path,
  storage_device_number, file_device_disk,
}

-- The same open disk answered that it is at the address and that it has the number.
pub record IsLocated (W : Windows) (expected : ScsiLocation) (number : ℕ) : Type 0 where
  pub handle : W.Handle
  pub before : Process W
  pub after : Process W
  pub actual : ScsiLocation
  pub asked : scsi_location handle before ≡ (ok actual, after)
  pub same_place : same_location actual expected ≡ true
  pub answer : DeviceNumber
  pub answered : (W.storage_device_number handle after.os).0 ≡ returned answer
  pub is_disk : answer.device_type ≡ file_device_disk
  pub same_number : answer.device_number ≡ number

module _ {W : Windows} where
  skipped-eq_some :
      {A : Type 0} (r : Result A × Process W) (rest : A → Io W (Option ℕ)) {number : ℕ}
      → (skipped r rest).0 ≡ ok (some number)
      → (a : A) × (r.0 ≡ ok a) × ((rest a r.1).0 ≡ ok (some number))
  unfolding skipped
  skipped-eq_some (ok a, p) rest h = (a, refl, h)
  skipped-eq_some (err e, p) rest h = cc

  storage_device_number-eq_ok :
      (handle : W.Handle) (p : Process W) {number : ℕ}
      → (storage_device_number handle p).0 ≡ ok number
      → (answer : DeviceNumber) × ((W.storage_device_number handle p.os).0 ≡ returned answer)
        × (answer.device_type ≡ file_device_disk)
        × (answer.device_number ≡ number)
  unfolding storage_device_number
  storage_device_number-eq_ok handle p {number} h =
      let whole : storage_device_number handle p ≡ (ok number, (storage_device_number handle p).1) =
        ground arith in
      let (answer, found, rest) =
        >>=-eq_ok
          (call_for (text "query disk-interface device number") (W.storage_device_number handle)) _
          p whole in
      (
        answer,
        call_for-eq_ok (text "query disk-interface device number") (W.storage_device_number handle)
            p found,
        ground arith,
        ground arith,
      )

  sighted-IsLocated :
      (expected : ScsiLocation) (handle : W.Handle) (p : Process W) {number : ℕ}
      → (sighted expected handle p).0 ≡ ok (some number)
      → IsLocated W expected number
  unfolding sighted numbered or_continue
  sighted-IsLocated expected handle p {number} h =
      let (actual, asked, h1) =
        skipped-eq_some (scsi_location handle p) (numbered expected handle) {number = number} h in
      let q = (scsi_location handle p).1 in
      elim (Bool-cases (same_location actual expected)) [
        | inl e ↦
            let (n, got, h2) =
              skipped-eq_some (storage_device_number handle q) (λ n. pure (some n))
                {number = number} (ground arith) in
            let (answer, answered, disk, same) =
              storage_device_number-eq_ok handle q {number = n} got in
            record {
              handle = handle;
              before = p;
              after = q;
              actual = actual;
              asked = ground arith;
              same_place = e;
              answer = answer;
              answered = answered;
              is_disk = disk;
              same_number = ground arith;
            }
        | inr e ↦ absurd (ground arith)
      ]

  -- The number that find_physical_disk takes from an interface is that of an open disk that
  -- answered at the SCSI address and as a device of the disk type.
  pub examine_interface-IsLocated :
      (expected : ScsiLocation) (set interface : W.Handle) (p p' : Process W) (number : ℕ)
      → examine_interface expected set interface p ≡ (ok (some number), p')
      → IsLocated W expected number
  unfolding examine_interface or_continue
  examine_interface-IsLocated expected set interface p p' number h =
      let (path, named, h1) =
        skipped-eq_some (disk_interface_path set interface p) _ {number = number}
          (ap (λ r. r.0) h) in
      let q = (disk_interface_path set interface p).1 in
      let (disk, opened, h2) =
        skipped-eq_some (call (W.create_file path 0) q) _ {number = number} h1 in
      sighted-IsLocated expected disk (call (W.create_file path 0) q).1 h2
