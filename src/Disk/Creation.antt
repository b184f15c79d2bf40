-- ===== src/Disk/Creation.antt =====
-- cli/src/driver/windows/disk/creation.rs. The installation of the driver, of
-- cli/src/driver/windows/adapter/install.rs, is a parameter. All loops run on one amount of fuel.
pub mod Checks
pub mod Rollback
pub mod Undone
use Prim.Native.Nat.{bit_and, bit_or}
use wisp_disk.Base.{
  ℕ, zero, suc, ◌+◌, Bool, false, true, not, ◌&&◌, Option, none, some, ◌++◌, ltb, ◌==◌,
  if◌then◌else◌,
}
use wisp_disk.Base.Text.{Text, text, decimal, hex_upper}
use wisp_disk.Args.{DriveLetter, MediaKind, FileSystem}
use wisp_disk.Protocol.{QueryVersionResponse, cap_create_delete, cap_read_write, cap_removable}
use wisp_disk.Errors.{Error, message, context, recovery_failed, Result, ok, err}
use wisp_disk.Machine.{Windows, Process, M}
use wisp_disk.Machine.Loops.{refuse_if, pure, run, ◌>>=◌, ◌>>◌}
use wisp_disk.Adapter.Requests.{Adapter, CreatedDisk, query_version, require_recovery}
use wisp_disk.Adapter.Reserved.{device_wait, retry_interval}
use wisp_disk.Adapter.Mutations.{create}
use wisp_disk.Adapter.Discovery.{next_adapter, wait_for_adapter}
use wisp_disk.Volume.{is_lock_refusal}
use wisp_disk.Volume.Identity.{ScsiLocation, verify_physical_disk_location, verify_mounted_drive}
use wisp_disk.Volume.Letters.{ensure_drive_letter_available, wait_for_drive_state}
use wisp_disk.Disk.Arrival.{wait_for_physical_disk}
use wisp_disk.Disk.Provisioning.Calls.{is_removable}
use wisp_disk.Disk.Provisioning.Formatting.{initialize_and_format}
use wisp_disk.Disk.Delete.{delete_allocation}

-- `CAP_CREATE_DELETE | CAP_READ_WRITE`.
unfoldable pub required_capabilities : ℕ
required_capabilities = bit_or cap_create_delete cap_read_write

lacking_capabilities : ℕ → Error
lacking_capabilities capabilities = message (
    text "loaded driver lacks required capabilities (reported 0x"
    ++ (hex_upper 8 capabilities ++ text ")"))

pub rolled_back : Text
rolled_back = text "failed to initialize the new disk; the driver allocation was rolled back"

pub rollback_action : CreatedDisk → Text
rollback_action created =
    text "failed to initialize device "
    ++ (decimal created.device_id
        ++ (text " on adapter instance "
            ++ (decimal created.adapter_instance ++ text "; driver rollback also failed")))

-- The error of the whole: that of the setup, around which that of the rollback stands.
rollback_error : CreatedDisk → Error → Result (Unit {0}) → Error
unfolding rolled_back rollback_action
rollback_error created e (ok done) = context rolled_back e
rollback_error created e (err failure) = recovery_failed e (rollback_action created) failure

module _ {W : Windows} where
  unfoldable pub expected_location : Adapter W → CreatedDisk → ScsiLocation
  expected_location adapter created = record {
    port = adapter.port_number;
    path = created.path_id;
    target = created.target_id;
    lun = created.lun;
  }

  -- The guard of the first arm, whose clock is read only behind a refusal, and the second arm; `again` is
  -- the rest of the loop.
  decide : ℕ → M W (Unit {0}) → Error → Bool → M W (Unit {0})
  decide deadline again e false p = some (err e, p)
  decide deadline again e true p =
      let (now, os) = W.now p.os in
      if ltb now deadline
      then again (record p { os = W.sleep retry_interval os })
      else some (err e, record p { os = os })

  attempted :
      ℕ
      → M W (Unit {0})
      → Option (Result (Unit {0}) × Process W)
      → Option (Result (Unit {0}) × Process W)
  unfolding decide
  attempted deadline again none = none
  attempted deadline again (some (ok done, p)) = some (ok tt, p)
  attempted deadline again (some (err e, p)) = decide deadline again e (is_lock_refusal e) p

  -- The loop of `rollback_created_disk`; `tries` counts its rounds.
  unfoldable pub rollback_rounds : M W (Unit {0}) → (deadline tries : ℕ) → M W (Unit {0})
  unfolding attempted
  rollback_rounds delete deadline zero p = none
  rollback_rounds delete deadline (suc tries) p =
      attempted deadline (rollback_rounds delete deadline tries) (delete p)

  with_error :
      CreatedDisk → Error → Option (Result (Unit {0}) × Process W) → Option (Error × Process W)
  unfolding rollback_error
  with_error created e none = none
  with_error created e (some (r, p)) = some (rollback_error created e r, p)

  pub rolled : Option (Error × Process W) → Option (Result (Unit {0}) × Process W)
  rolled none = none
  rolled (some (e, p)) = some (err e, p)

module _ {W : Windows} (fuel : ℕ) where
  unfoldable pub initialize_created_disk :
      Adapter W → CreatedDisk → DriveLetter → MediaKind → ℕ → FileSystem → M W (Unit {0})
  initialize_created_disk adapter created letter media size_bytes file_system = do
    run (ensure_drive_letter_available letter)
    number ← wait_for_physical_disk fuel (expected_location adapter created) device_wait
    run (verify_physical_disk_location number (expected_location adapter created))
    initialize_and_format fuel number letter media size_bytes created.device_id
        (expected_location adapter created) file_system
    wait_for_drive_state fuel letter true device_wait
    run (verify_mounted_drive letter number (expected_location adapter created))

  unfoldable pub rollback_created_disk :
      Adapter W → CreatedDisk → Error → Process W → Option (Error × Process W)
  unfolding with_error
  rollback_created_disk adapter created e p =
      let (now, os) = W.now p.os in
      with_error created e (
        rollback_rounds
          (delete_allocation fuel adapter created.adapter_instance created.device_id false)
          (now + device_wait) fuel (record p { os = os }))

  initialized :
      Adapter W
      → CreatedDisk
      → Option (Result (Unit {0}) × Process W)
      → Option (Result (Unit {0}) × Process W)
  unfolding rolled
  initialized adapter created none = none
  initialized adapter created (some (ok done, p)) = some (ok tt, p)
  initialized adapter created (some (err e, p)) = rolled (rollback_created_disk adapter created e p)

  -- `add_disk` behind the creation of the disk.
  unfoldable pub set_up_or_roll_back :
      Adapter W → CreatedDisk → DriveLetter → MediaKind → ℕ → FileSystem → M W (Unit {0})
  unfolding initialized
  set_up_or_roll_back adapter created letter media size_bytes file_system p =
      initialized adapter created
        (initialize_created_disk adapter created letter media size_bytes file_system p)

  module _ (install_embedded_driver : M W (Unit {0})) where
    install_and_wait : M W (Adapter W)
    install_and_wait = do install_embedded_driver; wait_for_adapter fuel device_wait

    or_installed : Option (Adapter W) → M W (Adapter W)
    unfolding install_and_wait
    or_installed (some adapter) = pure adapter
    or_installed none = install_and_wait

    unfoldable pub ensure_adapter : M W (Adapter W)
    unfolding or_installed
    ensure_adapter = do found ← run next_adapter; or_installed found

    unfoldable pub add_disk : DriveLetter → MediaKind → ℕ → FileSystem → M W (Unit {0})
    unfolding lacking_capabilities required_capabilities
    add_disk letter media size_bytes file_system = do
      run (ensure_drive_letter_available letter)
      adapter ← ensure_adapter
      version ← run (query_version adapter)
      refuse_if (not (bit_and version.capabilities required_capabilities == required_capabilities))
          (lacking_capabilities version.capabilities)
      refuse_if (is_removable media && bit_and version.capabilities cap_removable == 0)
          (message (text "loaded driver does not support removable-media disks"))
      run (require_recovery adapter)
      created ← create adapter fuel letter media size_bytes
      set_up_or_roll_back adapter created letter media size_bytes file_system
