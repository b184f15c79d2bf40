-- ===== src/Disk/Owner.antt =====
-- cli/src/driver/windows/disk/removal.rs, the searches of all adapters: for the one that claims a drive
-- letter, and for the one of an instance.
pub mod Claims
pub mod Scanning
use wisp_disk.Base.{
  ℕ, Bool, not, ◌&&◌, Option, none, some, List, [], ◌∷◌, ◌++◌, ◌==◌, if◌then◌else◌,
}
use wisp_disk.Base.Text.{Text, text, decimal}
use wisp_disk.Protocol.{DiskState, StateResponse}
use wisp_disk.Args.{DriveLetter}
use wisp_disk.Args.Display.{show_drive_letter}
use wisp_disk.Errors.{Error, message, context, Result, ok, err}
use wisp_disk.Machine.{Windows, Process, Io}
use wisp_disk.Machine.Io.{call_for, refuse_if, of_result, fail, pure, ◌>>=◌, ◌>>◌}
use wisp_disk.Adapter.Requests.{Adapter, require_recovery, query_state, counted_disks}
use wisp_disk.Adapter.Discovery.{adapter_at, ports_from, scsi_port_limit}
use wisp_disk.Volume.Identity.{
  ScsiLocation, disk_number, physical_disk_address, with_handle, generic_read,
}
use wisp_disk.Volume.Letters.{drive_letter_in_use}
use wisp_disk.Volume.Name.{mount_point, get_volume_name}

-- The tuple in `matched`.
pub record Owner : Type 0 where
  pub port_number : ℕ
  pub instance_id : ℕ
  pub device_id : ℕ

-- `entry.disk.path_id == address.path && ...`.
unfoldable pub is_at : ScsiLocation → DiskState → Bool
is_at address entry =
    entry.disk.path_id == address.path
    && entry.disk.target_id == address.target
    && entry.disk.lun == address.lun

multiple_claims : DriveLetter → Error
multiple_claims letter =
    message (text "multiple WispDisk LUNs claim drive " ++ show_drive_letter letter)

multiple_adapters : ℕ → Error
multiple_adapters instance_id =
    message (text "multiple adapters claim instance " ++ decimal instance_id)

-- `matched` with one more claim, which there may be one of.
claimed : {A : Type 0} → Error → Option A → A → Result (Option A)
claimed e none a = ok (some a)
claimed e (some before) a = err e

next_entry : {A : Type 0} → Result (Option A) → (Option A → Result (Option A)) → Result (Option A)
next_entry (ok matched) rest = rest matched
next_entry (err e) rest = err e

-- The loop over the entries of one inventory.
unfoldable pub claims_among :
    DriveLetter
    → ScsiLocation
    → (port instance_id : ℕ) → List DiskState
    → Option Owner
    → Result (Option Owner)
unfolding claimed next_entry multiple_claims
claims_among letter address port instance_id [] matched = ok matched
claims_among letter address port instance_id (entry ∷ entries) matched =
    next_entry
      (if is_at address entry
        then claimed (multiple_claims letter) matched (record {
          port_number = port;
          instance_id = instance_id;
          device_id = entry.disk.device_id;
        })
        else ok matched)
      (claims_among letter address port instance_id entries)

found_or_error : {A : Type 0} → Text → Option A → Result A
found_or_error e none = err (message e)
found_or_error e (some a) = ok a

module _ {W : Windows} where
  -- One port of `for adapter in adapters()`: the body, when the port answers, and `rest`, the others.
  scanned :
      {A : Type 0}
      → (Adapter W → Option A → Io W (Option A))
      → (Option A → Io W (Option A))
      → Option A
      → Option (Adapter W) × Process W
      → Result (Option A) × Process W
  scanned visit rest matched (none, p) = rest matched p
  scanned visit rest matched (some adapter, p) = (visit adapter matched >>= rest) p

  -- The loop over the ports that are left; `visit` is its body.
  unfoldable pub scan :
      {A : Type 0} → (Adapter W → Option A → Io W (Option A)) → List ℕ → Option A → Io W (Option A)
  unfolding scanned
  scan visit [] matched p = (ok matched, p)
  scan visit (port ∷ ports) matched p = scanned visit (scan visit ports) matched (adapter_at port p)

  -- The body of the loop of `delete_disk`.
  search_adapter : DriveLetter → ScsiLocation → Adapter W → Option Owner → Io W (Option Owner)
  search_adapter letter address adapter matched = do
    require_recovery adapter
    state ← query_state adapter
    of_result (
        claims_among letter address adapter.port_number state.adapter_instance (counted_disks state)
          matched)

  unfoldable pub visit_port :
      DriveLetter → ScsiLocation → Adapter W → Option Owner → Io W (Option Owner)
  unfolding search_adapter
  visit_port letter address adapter matched =
      if not (adapter.port_number == address.port)
      then pure matched
      else search_adapter letter address adapter matched

  -- The disk that the letter's volume lies on, by its SCSI address.
  unfoldable pub address_of_volume : W.Handle → Io W ScsiLocation
  address_of_volume volume = do number ← disk_number volume; physical_disk_address number

  unfoldable pub letter_address : DriveLetter → Io W ScsiLocation
  letter_address letter = do
    used ← drive_letter_in_use letter
    refuse_if (not used)
        (message (text "drive " ++ (show_drive_letter letter ++ text " is not mounted")))
    _ ← get_volume_name (mount_point letter)
    volume ←
        call_for (text "open target volume for identity")
          (W.create_file (text "\\\\.\\" ++ (letter.char ∷ text ":")) generic_read)
    with_handle address_of_volume volume

  -- `delete_disk` up to the deletion.
  unfoldable pub find_owner : DriveLetter → Io W Owner
  unfolding found_or_error
  find_owner letter = do
    address ← letter_address letter
    matched ← scan (visit_port letter address) (ports_from 0 scsi_port_limit) none
    of_result (found_or_error (text "volume is not uniquely owned by WispDisk") matched)

  -- The body of the loop of `delete_by_identity`.
  unfoldable pub visit_instance : ℕ → Adapter W → Option (Adapter W) → Io W (Option (Adapter W))
  unfolding claimed multiple_adapters
  visit_instance instance_id adapter matched = do
    require_recovery adapter
    state ← query_state adapter
    of_result (
        if state.adapter_instance == instance_id
        then claimed (multiple_adapters instance_id) matched adapter
        else ok matched)

  -- `delete_by_identity` up to the deletion.
  unfoldable pub find_instance : ℕ → Io W (Adapter W)
  unfolding found_or_error
  find_instance instance_id = do
    matched ← scan (visit_instance instance_id) (ports_from 0 scsi_port_limit) none
    of_result (
        found_or_error (text "adapter instance is absent or stale; refresh /list before deletion")
          matched)
