-- ===== src/Disk/Creation/Checks.antt =====
-- cli/src/driver/windows/disk/creation.rs, the ends of `add_disk`.
use wisp_disk.Base.{ℕ, ◌≡◌, ◌≢◌, ◌&&◌, true, not, Option, none, some, ◌==◌, arith}
use wisp_disk.Args.{DriveLetter, MediaKind, FileSystem}
use wisp_disk.Base.Text.{text, to_ascii_uppercase}
use Prim.Native.Nat.{bit_and}
use wisp_disk.Protocol.{QueryVersionResponse, cap_removable}
use wisp_disk.Disk.Provisioning.Calls.{is_removable}
use wisp_disk.Errors.{message, Error, Result, ok, err}
use wisp_disk.Machine.{Windows, Process, M}
use wisp_disk.Machine.Loops
use wisp_disk.Machine.Loops.{run}
use wisp_disk.Adapter.Requests.{Adapter, CreatedDisk, query_version, require_recovery}
use wisp_disk.Adapter.Mutations.{create}
use wisp_disk.Adapter.Reserved.{device_wait}
use wisp_disk.Volume.Identity.{verify_physical_disk_location, verify_mounted_drive}
use wisp_disk.Volume.Letters.{
  ensure_drive_letter_available, wait_for_drive_state, Shows, wait_for_drive_state-Shows,
}
use wisp_disk.Disk.Arrival.{wait_for_physical_disk}
use wisp_disk.Disk.Provisioning.Formatting.{initialize_and_format}
use wisp_disk.Disk.Provisioning.Formatting.Guards.{IsFormatted, initialize_and_format-IsFormatted}
use wisp_disk.Disk.Creation.{
  expected_location, initialize_created_disk, rollback_created_disk, rolled, initialized,
  set_up_or_roll_back, ensure_adapter, add_disk, required_capabilities, lacking_capabilities,
}

-- The disk is found at the location that the driver named, formatted there, its letter shows, and the
-- volume behind the letter is on this disk, as the last check says.
pub record IsReady {W : Windows} (fuel : ℕ) (adapter : Adapter W) (created : CreatedDisk)
    (letter : DriveLetter) (file_system : FileSystem) (p' : Process W) : Type 0 where
  pub number : ℕ
  pub before : Process W
  pub found : Process W
  pub formatted : Process W
  pub shown : Process W
  pub appeared :
      wait_for_physical_disk fuel (expected_location adapter created) device_wait before
      ≡ some (ok number, found)
  pub is_formatted :
      IsFormatted number
        (to_ascii_uppercase letter.char)
        created.device_id
        (expected_location adapter created)
        file_system
        formatted
  pub shows : Shows letter true shown
  pub mounted :
      verify_mounted_drive letter number (expected_location adapter created) shown ≡ (ok tt, p')

pub rolled-eq :
    {W : Windows} (o : Option (Error × Process W)) {r : Result (Unit {0})} {p' : Process W}
    → rolled o ≡ some (r, p')
    → (e : Error) × (r ≡ err e) × (o ≡ some (e, p'))
unfolding rolled
rolled-eq none h = cc
rolled-eq (some (e, q)) h = (e, ground arith, ground arith)

module _ {W : Windows} (fuel : ℕ) (adapter : Adapter W) (created : CreatedDisk)
    (letter : DriveLetter) (media : MediaKind) (size_bytes : ℕ) (file_system : FileSystem) where
  initialize_created_disk-IsReady :
      (p p' : Process W)
      → initialize_created_disk fuel adapter created letter media size_bytes file_system p
        ≡ some (ok tt, p')
      → IsReady fuel adapter created letter file_system p'
  unfolding initialize_created_disk
  initialize_created_disk-IsReady p p' h =
      let location = expected_location adapter created in
      let (_, q, free, h1) = Loops.>>=-eq_ok (run (ensure_drive_letter_available letter)) _ p h in
      let (number, q1, appeared, h2) =
        Loops.>>=-eq_ok (wait_for_physical_disk fuel location device_wait) _ q h1 in
      let (_, q2, located, h3) =
        Loops.>>=-eq_ok (run (verify_physical_disk_location number location)) _ q1 h2 in
      let (_, q3, done, h4) =
        Loops.>>=-eq_ok
          (initialize_and_format fuel number letter media size_bytes created.device_id location
            file_system)
          _ q2 h3 in
      let (_, q4, shown, h5) =
        Loops.>>=-eq_ok (wait_for_drive_state fuel letter true device_wait) _ q3 h4 in
      record {
        number = number;
        before = q;
        found = q1;
        formatted = q3;
        shown = q4;
        appeared = appeared;
        is_formatted =
            (initialize_and_format-IsFormatted fuel number letter media size_bytes created.device_id
              location file_system q2 q3 done).1;
        shows = wait_for_drive_state-Shows fuel letter true device_wait q3 q4 shown;
        mounted = ground arith;
      }

  initialized-eq_ok :
      (o : Option (Result (Unit {0}) × Process W)) {p' : Process W}
      → initialized fuel adapter created o ≡ some (ok tt, p')
      → o ≡ some (ok tt, p')
  unfolding initialized rolled
  initialized-eq_ok none h = cc
  initialized-eq_ok (some (ok done, q)) h = ground arith
  initialized-eq_ok (some (err e, q)) h =
      let (e', same, rollback) = rolled-eq (rollback_created_disk fuel adapter created e q) h in cc

  set_up_or_roll_back-IsReady :
      (p p' : Process W)
      → set_up_or_roll_back fuel adapter created letter media size_bytes file_system p
        ≡ some (ok tt, p')
      → IsReady fuel adapter created letter file_system p'
  unfolding set_up_or_roll_back
  set_up_or_roll_back-IsReady p p' h = initialize_created_disk-IsReady p p' (
      initialized-eq_ok
        (initialize_created_disk fuel adapter created letter media size_bytes file_system p) h)

-- A disk that `add_disk` has made: the driver is capable, created it on the adapter, and it is ready.
pub record IsAdded {W : Windows} (fuel : ℕ) (letter : DriveLetter) (media : MediaKind)
    (size_bytes : ℕ) (file_system : FileSystem) (p' : Process W) : Type 0 where
  pub adapter : Adapter W
  pub version : QueryVersionResponse
  pub asked : Process W
  pub answered : (query_version adapter asked).0 ≡ ok version
  pub capable : bit_and version.capabilities required_capabilities ≡ required_capabilities
  pub removable_if_asked :
      is_removable media ≡ true → bit_and version.capabilities cap_removable ≢ 0
  pub created : CreatedDisk
  pub before : Process W
  pub after : Process W
  pub made : create adapter fuel letter media size_bytes before ≡ some (ok created, after)
  pub is_ready : IsReady fuel adapter created letter file_system p'

module _ {W : Windows} (fuel : ℕ) where
  -- add_disk succeeds only when the driver reports the capabilities asked for, has created the
  -- disk, and this disk was found at its SCSI address, was formatted there, shows its letter, and
  -- is the one behind the letter by the last check.
  pub add_disk-IsAdded :
      (install : M W (Unit {0})) (letter : DriveLetter) (media : MediaKind) (size_bytes : ℕ)
      (file_system : FileSystem) (p p' : Process W)
      → add_disk fuel install letter media size_bytes file_system p ≡ some (ok tt, p')
      → IsAdded fuel letter media size_bytes file_system p'
  unfolding add_disk
  add_disk-IsAdded install letter media size_bytes file_system p p' h =
      let (_, q, free, h1) = Loops.>>=-eq_ok (run (ensure_drive_letter_available letter)) _ p h in
      let (adapter, q1, had, h2) = Loops.>>=-eq_ok (ensure_adapter fuel install) _ q h1 in
      let (version, q2, answered, h3) = Loops.>>=-eq_ok (run (query_version adapter)) _ q1 h2 in
      let (_, q3, capable, h4) =
        Loops.>>=-eq_ok
          (Loops.refuse_if
            (not (bit_and version.capabilities required_capabilities == required_capabilities))
            (lacking_capabilities version.capabilities))
          _ q2 h3 in
      let (_, q4, removable, h5) =
        Loops.>>=-eq_ok
          (Loops.refuse_if (is_removable media && bit_and version.capabilities cap_removable == 0)
            (message (text "loaded driver does not support removable-media disks")))
          _ q3 h4 in
      let (_, q5, recovers, h6) = Loops.>>=-eq_ok (run (require_recovery adapter)) _ q4 h5 in
      let (created, q6, made, h7) =
        Loops.>>=-eq_ok (create adapter fuel letter media size_bytes) _ q5 h6 in
      record {
        adapter = adapter;
        version = version;
        asked = q1;
        answered = ground arith;
        capable = ground arith;
        removable_if_asked = λ m. ground arith;
        created = created;
        before = q5;
        after = q6;
        made = made;
        is_ready =
            set_up_or_roll_back-IsReady fuel adapter created letter media size_bytes file_system q6
              p' h7;
      }
