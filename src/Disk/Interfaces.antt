-- ===== src/Disk/Interfaces.antt =====
-- cli/src/driver/windows/disk/mod.rs, the search of the present disk interfaces for a SCSI address. The
-- enumeration runs on fuel, a count of the interfaces.
pub mod Sightings
pub mod Located
pub mod Returns
use wisp_disk.Base.{
  ℕ, zero, suc, ◌+◌, ◌-◌, ◌*◌, ◌/◌, Bool, true, false, not, Option, none, some, List, ◌++◌, ltb,
  ◌==◌, if◌then◌else◌,
}
use wisp_disk.Base.Text.{Text, text, decimal}
use wisp_disk.Errors.{Error, message, os_error, context, Result, ok, err}
use wisp_disk.Machine.{Windows, Process, Api, returned, failed, Io, M}
use wisp_disk.Machine.Io.{call, call_for, map_err, ask, refuse_if, of_result, pure, ◌>>=◌, ◌>>◌}
use wisp_disk.Volume.Identity.{ScsiLocation, same_location, scsi_location, with_handle}
use wisp_disk.Volume.Finder.{wide_from_buffer}

-- `ERROR_INSUFFICIENT_BUFFER`, `ERROR_NO_MORE_ITEMS` and `FILE_DEVICE_DISK`.
abbrev error_insufficient_buffer : ℕ
error_insufficient_buffer = 122

abbrev pub error_no_more_items : ℕ
error_no_more_items = 259

abbrev file_device_disk : ℕ
file_device_disk = 7

-- The sizes of `STORAGE_DEVICE_NUMBER`, of `SP_DEVICE_INTERFACE_DETAIL_DATA_W` and of `usize`.
abbrev device_number_size : ℕ
device_number_size = 12

abbrev detail_size : ℕ
detail_size = 8

abbrev word_size : ℕ
word_size = 8

-- The bytes of `vec![0_usize; required_size.div_ceil(size_of::<usize>())]`.
storage_bytes : ℕ → ℕ
storage_bytes required = (required + (word_size - 1)) / word_size * word_size

size_answered : Option ℕ → Result (Unit {0})
size_answered none = ok tt
size_answered (some code) =
    if not (code == error_insufficient_buffer)
    then err (context (text "query disk-interface path size") (os_error code))
    else ok tt

truncated_number : ℕ → Error
truncated_number count = message (
    text "disk interface returned a truncated device number (" ++ (decimal count ++ text " bytes)"))

unexpected_type : ℕ → Error
unexpected_type device_type =
    message (text "disk interface reported unexpected device type " ++ decimal device_type)

unfoldable pub show_location : ScsiLocation → Text
show_location location =
    decimal location.port
    ++ (text ":"
        ++ (decimal location.path
            ++ (text ":" ++ (decimal location.target ++ (text ":" ++ decimal location.lun)))))

multiple_disks : ScsiLocation → Error
unfolding show_location
multiple_disks expected =
    message (text "multiple physical disks reported SCSI " ++ show_location expected)

-- What `matched` becomes with the number of one more interface.
unfoldable pub matched_with : ScsiLocation → Option ℕ → Option ℕ → Result (Option ℕ)
unfolding multiple_disks
matched_with expected matched none = ok matched
matched_with expected none (some number) = ok (some number)
matched_with expected (some previous) (some number) =
    if not (previous == number) then err (multiple_disks expected) else ok (some previous)

module _ {W : Windows} where
  unfoldable pub storage_device_number : W.Handle → Io W ℕ
  unfolding truncated_number unexpected_type
  storage_device_number device = do
    number ← call_for (text "query disk-interface device number") (W.storage_device_number device)
    refuse_if (ltb number.count device_number_size) (truncated_number number.count)
    refuse_if (not (number.device_type == file_device_disk)) (unexpected_type number.device_type)
    pure number.device_number

  unfoldable pub disk_interface_path : W.Handle → W.Handle → Io W Text
  unfolding size_answered storage_bytes
  disk_interface_path set interface = do
    asked ← ask (W.interface_detail_size set interface)
    of_result (size_answered asked.failure)
    refuse_if (ltb asked.required detail_size)
        (message (text "SetupAPI returned an invalid disk-interface path size"))
    units ←
        call_for (text "read disk-interface path")
          (W.interface_detail set interface (storage_bytes asked.required))
    map_err (context (text "SetupAPI returned an unterminated disk-interface path"))
        (of_result (wide_from_buffer W units))

  skipped :
      {A : Type 0} → Result A × Process W → (A → Io W (Option ℕ)) → Result (Option ℕ) × Process W
  skipped (ok a, p) rest = rest a p
  skipped (err e, p) rest = (ok none, p)

  -- `let Ok(a) = m else { continue }`.
  or_continue : {A : Type 0} → Io W A → (A → Io W (Option ℕ)) → Io W (Option ℕ)
  unfolding skipped
  or_continue m rest p = skipped (m p) rest

  numbered : ScsiLocation → W.Handle → ScsiLocation → Io W (Option ℕ)
  unfolding or_continue
  numbered expected disk actual p =
      if not (same_location actual expected)
      then (ok none, p)
      else or_continue (storage_device_number disk) (λ number. pure (some number)) p

  -- The disk number behind a disk that is open, when it is at the address.
  unfoldable pub sighted : ScsiLocation → W.Handle → Io W (Option ℕ)
  unfolding numbered or_continue
  sighted expected disk = or_continue (scsi_location disk) (numbered expected disk)

  -- The rest of the loop's body for one interface.
  unfoldable pub examine_interface : ScsiLocation → W.Handle → W.Handle → Io W (Option ℕ)
  unfolding or_continue
  examine_interface expected set interface =
      or_continue (disk_interface_path set interface)
        (λ path. or_continue (call (W.create_file path 0)) (with_handle (sighted expected)))

  proceed :
      Result (Option ℕ) × Process W
      → (Option ℕ → M W (Option ℕ))
      → Option (Result (Option ℕ) × Process W)
  proceed (ok matched, p) again = again matched p
  proceed (err e, p) again = some (err e, p)

  checked : ScsiLocation → Option ℕ → Result (Option ℕ) × Process W → Result (Option ℕ) × Process W
  checked expected matched (ok number, p) = (matched_with expected matched number, p)
  checked expected matched (err e, p) = (err e, p)

  -- What a round makes of the enumeration's answer; `again` is the rest of the loop.
  enumerated :
      ScsiLocation
      → W.Handle
      → Option ℕ
      → (Option ℕ → M W (Option ℕ))
      → Api W.Handle × W.State
      → Process W
      → Option (Result (Option ℕ) × Process W)
  unfolding proceed checked
  enumerated expected set matched again (failed code, os) p =
      let q : Process W = record p { os = os } in
      if code == error_no_more_items
      then some (ok matched, q)
      else some (err (context (text "enumerate disk interface") (os_error code)), q)
  enumerated expected set matched again (returned interface, os) p =
      proceed
        (checked expected matched (examine_interface expected set interface (record p { os = os })))
        again

  unfoldable pub find_rounds :
      ScsiLocation → W.Handle → (index fuel : ℕ) → Option ℕ → M W (Option ℕ)
  unfolding enumerated
  find_rounds expected set index zero matched p = none
  find_rounds expected set index (suc fuel) matched p =
      enumerated expected set matched (find_rounds expected set (suc index) fuel)
        (W.enum_disk_interface set index p.os) p

  -- The set is dropped behind the loop.
  dropping_set :
      W.Handle → Option (Result (Option ℕ) × Process W) → Option (Result (Option ℕ) × Process W)
  dropping_set set none = none
  dropping_set set (some (r, p)) = some (r, record p { os = W.destroy_info_set set p.os })

  searched : ScsiLocation → ℕ → Result W.Handle × Process W → Option (Result (Option ℕ) × Process W)
  unfolding dropping_set
  searched expected fuel (ok set, p) = dropping_set set (find_rounds expected set 0 fuel none p)
  searched expected fuel (err e, p) = some (err e, p)

  unfoldable pub find_physical_disk : ℕ → ScsiLocation → M W (Option ℕ)
  unfolding searched
  find_physical_disk fuel expected p =
      searched expected fuel
        (call_for (text "enumerate present disk interfaces") W.disk_interface_set p)
