-- ===== src/Adapter/Install.antt =====
-- cli/src/driver/windows/adapter/install.rs, the installation of an extracted driver package. The search
-- for the root device runs on fuel, a count of the devices. The extraction of the package and the drop
-- of a created device's set are not modelled.
pub mod Installed
use wisp_disk.Base.{
  ℕ, zero, suc, ◌+◌, ◌*◌, ◌/◌, Bool, true, false, not, Option, none, some, List, [], ◌∷◌, ◌++◌, map,
  any, take, leb, ltb, length, ◌==◌, if◌then◌else◌,
}
use wisp_disk.Base.Text.{Text, text, text_eq, to_ascii_lowercase}
use wisp_disk.Errors.{Error, message, os_error, context, recovery_failed, Result, ok, err}
use wisp_disk.Machine.{Windows, Process, Api, returned, failed, ClassRequest, Io, M}
use wisp_disk.Machine.Io.{call_for, fail, pure, ask, of_result, refuse_if, ◌>>=◌, ◌>>◌}
use wisp_disk.Volume.Discovery.{multisz_entries}

abbrev pub root_hardware_id : Text
root_hardware_id = text "ROOT\\WISPDISK"

-- `ERROR_INVALID_DATA`, and `ERROR_NO_MORE_ITEMS`.
abbrev error_invalid_data : ℕ
error_invalid_data = 13

abbrev pub error_no_more_devices : ℕ
error_no_more_devices = 259

-- The length of the buffer for hardware ids, in units.
abbrev hardware_id_units : ℕ
hardware_id_units = 512

min : ℕ → ℕ → ℕ
min a b = if leb a b then a else b

-- `eq_ignore_ascii_case`.
same_ignoring_case : Text → Text → Bool
same_ignoring_case a b = text_eq (map to_ascii_lowercase a) (map to_ascii_lowercase b)

-- `multisz_entries(&buffer[..units]).any(...)`.
unfoldable pub names_hardware_id : (W : Windows) → (required : ℕ) → List ℕ → Text → Bool
unfolding min same_ignoring_case
names_hardware_id W required buffer expected =
    any (λ value. same_ignoring_case (W.to_string_lossy value) expected)
      (multisz_entries (take (min (required / 2) hardware_id_units) buffer))

id_read : (W : Windows) → Text → Api (ℕ × List ℕ) → Result Bool
id_read W expected (returned (required, buffer)) = ok (names_hardware_id W required buffer expected)
id_read W expected (failed code) =
    if code == error_invalid_data
    then ok false
    else err (context (text "read adapter hardware id") (os_error code))

pub record CreatedDevice (W : Windows) : Type 0 where
  pub set : W.Handle
  pub data_handle : W.Handle

module _ {W : Windows} where
  unfoldable pub device_has_hardware_id : W.Handle → W.Handle → Text → Io W Bool
  unfolding id_read
  device_has_hardware_id set device expected = do
    answer ← ask (W.hardware_ids set device)
    of_result (id_read W expected answer)

  found : M W Bool → Result Bool × Process W → Option (Result Bool × Process W)
  found again (ok true, p) = some (ok true, p)
  found again (ok false, p) = again p
  found again (err e, p) = some (err e, p)

  -- What a round makes of the enumeration's answer; `again` is the rest of the loop.
  enumerated :
      W.Handle → M W Bool → Api W.Handle × W.State → Process W → Option (Result Bool × Process W)
  unfolding found
  enumerated set again (returned device, os) p =
      found again (device_has_hardware_id set device root_hardware_id (record p { os = os }))
  enumerated set again (failed code, os) p =
      let q : Process W = record p { os = os } in
      if code == error_no_more_devices
      then some (ok false, q)
      else some (err (context (text "enumerate SCSI adapter") (os_error code)), q)

  unfoldable pub exists_rounds : W.Handle → (index fuel : ℕ) → M W Bool
  unfolding enumerated
  exists_rounds set index zero p = none
  exists_rounds set index (suc fuel) p =
      enumerated set (exists_rounds set (suc index) fuel) (W.enum_device_info set index p.os) p

  dropping_set : W.Handle → Option (Result Bool × Process W) → Option (Result Bool × Process W)
  dropping_set set none = none
  dropping_set set (some (r, p)) = some (r, record p { os = W.destroy_info_set set p.os })

  searched : ℕ → Result W.Handle × Process W → Option (Result Bool × Process W)
  unfolding dropping_set
  searched fuel (ok set, p) = dropping_set set (exists_rounds set 0 fuel p)
  searched fuel (err e, p) = some (err e, p)

  -- `CreatedDevice::exists`.
  unfoldable pub device_exists : ℕ → M W Bool
  unfolding searched
  device_exists fuel p = searched fuel (call_for (text "enumerate SCSI adapters") W.adapter_set p)

  -- `CreatedDevice::create_if_missing` behind the search. The hardware ids keep both terminating NULs.
  unfoldable pub register_root_device : Io W (CreatedDevice W)
  register_root_device = do
    set ← call_for (text "create device-information set") W.create_info_set
    device ←
        call_for (text "create WispDisk root device")
          (W.create_device_info set (text "SCSIAdapter"))
    call_for (text "set WispDisk root-device hardware id")
        (W.set_hardware_ids set device (root_hardware_id ++ (0 ∷ 0 ∷ [])))
    call_for (text "register WispDisk root device")
        (W.call_class_installer ClassRequest.register_device set device)
    pure (record { set = set; data_handle = device })

  unfoldable pub remove_root_device : CreatedDevice W → Io W (Unit {0})
  remove_root_device device =
      call_for (text "remove newly created WispDisk root device")
        (W.call_class_installer ClassRequest.remove_device device.set device.data_handle)

  removed : Error → Result (Unit {0}) × Process W → Result (Unit {0}) × Process W
  removed e (ok done, p) = (err e, p)
  removed e (err recovery, p) = (
    err (recovery_failed e (text "removing the newly created root device also failed") recovery),
    p,
  )

  -- The error path of the binding.
  unfoldable pub undo_device :
      Option (CreatedDevice W) → Error → Process W → Result (Unit {0}) × Process W
  unfolding removed
  undo_device none e p = (err e, p)
  undo_device (some device) e p = removed e (remove_root_device device p)

  bound : Option (CreatedDevice W) → Result Bool × Process W → Result (Unit {0}) × Process W
  bound created (ok reboot_required, p) = (
    if reboot_required
        then err (
            message (
              text
                "Windows installed the driver package but requires a reboot before it can start"))
        else ok tt,
    p,
  )
  bound created (err e, p) = undo_device created e p

  -- `DriverPackage::install` behind the root device.
  unfoldable pub bind_driver : Text → Bool → Option (CreatedDevice W) → Io W (Unit {0})
  unfolding bound
  bind_driver inf reboot_required created p = bound created (
      call_for (text "bind and start WispDisk driver")
        (W.update_driver root_hardware_id inf reboot_required) p)

  unfoldable pub stage_package : Text → Io W Bool
  stage_package inf =
      call_for (text "stage driver package (is this console elevated, and is the package signed?)")
        (W.install_driver inf false)

  unfoldable pub create_unless : Bool → Io W (Option (CreatedDevice W))
  create_unless true = pure none
  create_unless false = do device ← register_root_device; pure (some device)
