-- ===== src/Tests/System.antt =====
-- A simulated Windows: its clock advances by sleeping, its miniport answers from a list of replies,
-- its volumes grant what the state says, and a drive letter appears after a time.
use wisp_disk.Base.{
  ℕ, ◌+◌, Bool, true, false, List, [], ◌∷◌, ◌++◌, replicate, take, zero, suc, ◌*◌, not, ◌&&◌, ◌||◌,
  some, ltb, ◌==◌, if◌then◌else◌, arith,
}
use wisp_disk.Base.Bytes.{Bytes}
use wisp_disk.Base.Text.{Text, text, text_eq}
use wisp_disk.Machine.{timed_out}
use wisp_disk.Machine.Storage.{
  Answer, answered, refused, StorageDisk, StoragePartition, StorageVolume,
}
use wisp_disk.Protocol.{
  Operation, operation_code, ResponseHeader, OperationResponse, StateResponse, DiskState,
  protocol_version,
}
use wisp_disk.Tests.Responses.{
  encode_query_version_response, encode_operation_response, encode_state_response,
}
use wisp_disk.Machine.{Windows, Process, HasClock, Api, returned, failed, IoOutput, VolumeCode}
use wisp_disk.Adapter.Transport.{
  encode_srb, srb_size, srb_signature, control_buffer_size, control_timeout_seconds,
}

pub record Sim : Type 0 where
  pub clock : ℕ
  pub replies : List Bytes
  -- The lock of the volume is refused.
  pub refuses_lock : Bool
  -- From this time on, these drive letters are in use.
  pub drives_at : ℕ
  pub drives : ℕ
  -- The disk and its letter are gone once the last reply was given.
  pub leaves : Bool

abbrev first_reply : List Bytes → Api IoOutput
first_reply [] = failed 1117
first_reply (r ∷ rs) = returned (record { count = control_buffer_size; buffer = r })

abbrev other_replies : List Bytes → List Bytes
other_replies [] = []
other_replies (r ∷ rs) = rs

abbrev control_reply : VolumeCode → Bool → Api (Unit {0})
control_reply VolumeCode.lock true = failed 5
control_reply VolumeCode.lock false = returned tt
control_reply VolumeCode.dismount refuses = returned tt
control_reply VolumeCode.unlock refuses = returned tt

-- Only the SCSI port 2 can be opened.
unfoldable pub opened_file : Text → Api ℕ
unfolding text_eq text
opened_file path =
    if text_eq (take 8 path) (text "\\\\.\\Scsi") && not (text_eq path (text "\\\\.\\Scsi2:"))
    then failed 2
    else returned 9

abbrev is_silent : List Bytes → Bool
is_silent [] = true
is_silent (r ∷ rs) = false

abbrev has_left : Sim → Bool
has_left s = s.leaves && is_silent s.replies

abbrev until_nul : List ℕ → Answer Text
until_nul [] = refused (text "no NUL")
until_nul (c ∷ cs) = elim (until_nul cs) [
  | answered t ↦ (if c == 0 then answered [] else answered (c ∷ t))
  | refused e ↦ (if c == 0 then answered [] else refused e)
]

abbrev listed_interface : ℕ → Api ℕ
listed_interface zero = returned 6
listed_interface (suc index) = failed 259

-- A new disk, and the one volume on it.
abbrev pub new_disk : StorageDisk
new_disk = record {
  path = text "disk";
  number = 4;
  size = 4_194_304;
  partition_style = 0;
  is_boot = false;
  is_system = false;
  is_offline = true;
  is_read_only = true;
}

abbrev pub new_partition : StoragePartition
new_partition = record {
  path = text "partition";
  disk_number = 4;
  partition_number = 1;
  drive_letter = some (text "D");
  offset = 0;
  size = 4_194_304;
  is_boot = false;
  is_system = false;
}

abbrev pub new_volume : StorageVolume
new_volume = record { path = text "volume"; drive_letter = some (text "d:") }

abbrev pub simulated : Windows
simulated = record {
  State = Sim;
  Handle = ℕ;
  now = λ s. (s.clock, s);
  sleep = λ d s. record s { clock = s.clock + d };
  create_file = λ path access s. (opened_file path, s);
  close_handle = λ handle s. s;
  scsi_miniport =
      λ handle buffer s. (first_reply s.replies, record s { replies = other_replies s.replies });
  volume_control = λ handle code s. (control_reply code s.refuses_lock, s);
  volume_disk_extents =
      λ handle s. (returned (record { count = 32; number_of_extents = 1; disk_number = 4 }), s);
  scsi_get_address = λ handle s. (
    returned (record {
      count = 8;
      port_number = 2;
      path_id = 0;
      target_id = 0;
      lun = if has_left s then 1 else 0;
    }),
    s,
  );
  delete_volume_mount_point = λ point s. (returned tt, s);
  set_volume_mount_point = λ point name s. (returned tt, s);
  logical_drives = λ s. (if ltb s.clock s.drives_at || has_left s then 0 else s.drives, s);
  storage_device_number =
      λ handle s. (returned (record { count = 12; device_type = 7; device_number = 4 }), s);
  volume_name_for_mount_point = λ point s. (returned (b'v' ∷ b'\\' ∷ 0 ∷ 0 ∷ []), s);
  find_first_volume = λ s. (returned (8, b'v' ∷ b'\\' ∷ 0 ∷ 0 ∷ []), s);
  find_next_volume = λ handle s. (failed 18, s);
  find_volume_close = λ handle s. s;
  volume_path_names = λ name size s. (
    record {
      succeeded = ltb 0 size;
      last_error = 234;
      units = b'R' ∷ 0 ∷ b'S' ∷ 0 ∷ 0 ∷ [];
      required = 5;
    },
    s,
  );
  from_slice_truncate = until_nul;
  from_ustr = λ units. answered units;
  to_string_lossy = λ units. units;
  disk_interface_set = λ s. (returned 5, s);
  enum_disk_interface = λ set index s. (listed_interface index, s);
  interface_detail_size = λ set interface s. (record { failure = some 122; required = 40 }, s);
  interface_detail = λ set interface size s. (returned (b'd' ∷ 0 ∷ []), s);
  destroy_info_set = λ set s. s;
  adapter_set = λ s. (returned 11, s);
  enum_device_info = λ set index s. (failed 259, s);
  hardware_ids = λ set device s. (failed 13, s);
  create_info_set = λ s. (returned 12, s);
  create_device_info = λ set class s. (returned 13, s);
  set_hardware_ids = λ set device units s. (returned tt, s);
  call_class_installer = λ request set device s. (returned tt, s);
  install_driver = λ inf reboot s. (returned false, s);
  update_driver = λ hardware_id inf reboot s. (returned false, s);
  create_event = λ s. (returned 3, s);
  register_notification = λ event s. ((0, 2), s);
  wait_for_event =
      λ event milliseconds s. (timed_out, record s { clock = s.clock + milliseconds * 1_000_000 });
  unregister_notification = λ handle s. s;
  wmi_connect = λ s. (answered tt, s);
  query_disks = λ query s. (answered (new_disk ∷ []), s);
  query_partitions = λ query s. (answered [], s);
  query_volumes = λ query s. (answered (new_volume ∷ []), s);
  exec_method = λ class path method input s. (answered 0, s);
  create_partition = λ path input s.
      (answered (record { return_value = 0; created_partition = some new_partition }), s);
}

abbrev pub simulated-HasClock : HasClock simulated
simulated-HasClock = record {
  time = λ s. s.clock;
  now_reads = λ s. (omega arith, omega arith);
  sleep_lasts = λ d s. omega arith;
  miniport_keeps = λ h b s. omega arith;
  create_file_keeps = λ path access s. omega arith;
  close_handle_keeps = λ h s. omega arith;
  scsi_get_address_keeps = λ h s. omega arith;
  logical_drives_keeps = λ s. omega arith;
}

abbrev pub reply_header : ℕ → Operation → ℕ → ResponseHeader
reply_header size operation correlation_id = record {
  struct_size = size;
  protocol_version = protocol_version;
  operation = operation_code operation;
  status = 0;
  correlation_id = correlation_id;
}

-- The buffer of a completed call with this message in it.
abbrev reply_buffer : Operation → Bytes → Bytes
reply_buffer operation message =
    encode_srb (record {
      header_length = srb_size;
      signature = srb_signature;
      timeout = control_timeout_seconds;
      control_code = operation_code operation;
      return_code = 0;
      message_length = control_buffer_size;
    })
    ++ message

abbrev pub version_reply : ℕ → Bytes
version_reply correlation_id = reply_buffer Operation.query_version (
    encode_query_version_response (record {
      header = reply_header 40 Operation.query_version correlation_id;
      version_major = 0;
      version_minor = 2;
      capabilities = 15;
      maximum_disk_count = 16;
    }))

abbrev pub response_of : Operation → Operation → (state correlation_id : ℕ) → OperationResponse
response_of operation mutation state correlation_id = record {
  header = reply_header 64 operation correlation_id;
  adapter_instance = 7;
  operation_id = 5;
  mutation = operation_code mutation;
  state = state;
  result_status = 0;
  device_id = if state == 3 then 3 else 0;
  path_id = 0;
  target_id = 0;
  lun = 0;
  reserved8 = 0;
  reserved32 = 0;
}

abbrev pub operation_reply : Operation → Operation → (state correlation_id : ℕ) → Bytes
operation_reply operation mutation state correlation_id =
    reply_buffer operation
      (encode_operation_response (response_of operation mutation state correlation_id))

abbrev pub no_disk : DiskState
no_disk = record {
  disk = record {
    device_id = 0;
    path_id = 0;
    target_id = 0;
    lun = 0;
    reserved8 = 0;
    size_bytes = 0;
    logical_sector_size = 0;
    media_kind = 0;
    requested_drive_letter = 0;
    reserved16 = 0;
  };
  create_operation_id = 0;
  state = 0;
  reserved = 0;
}

-- An inventory without disks.
abbrev pub empty_inventory : ℕ → StateResponse
empty_inventory correlation_id = record {
  header = reply_header 816 Operation.list_state correlation_id;
  adapter_instance = 7;
  allocated_bytes = 0;
  disk_count = 0;
  pending_operations = 0;
  disks = replicate 16 no_disk;
}

abbrev pub state_reply : ℕ → Bytes
state_reply correlation_id =
    reply_buffer Operation.list_state (encode_state_response (empty_inventory correlation_id))

-- A process whose miniport answers with these replies.
abbrev pub process : List Bytes → ℕ → Process simulated
process replies next_correlation_id = record {
  next_correlation_id = next_correlation_id;
  os = record {
    clock = 1_000;
    replies = replies;
    refuses_lock = false;
    drives_at = 500_000_000;
    drives = 0b1000;
    leaves = false;
  };
}

-- A disk on LUN 0, online, and the inventory that lists it.
abbrev pub listed_disk : DiskState
listed_disk = record {
  disk = record {
    device_id = 3;
    path_id = 0;
    target_id = 0;
    lun = 0;
    reserved8 = 0;
    size_bytes = 4_194_304;
    logical_sector_size = 512;
    media_kind = 1;
    requested_drive_letter = b'D';
    reserved16 = 0;
  };
  create_operation_id = 5;
  state = 1;
  reserved = 0;
}

abbrev pub listing : ℕ → StateResponse
listing correlation_id = record (empty_inventory correlation_id) {
  allocated_bytes = 4_194_304;
  disk_count = 1;
  disks = listed_disk ∷ replicate 15 no_disk;
}

abbrev pub inventory_reply : ℕ → Bytes
inventory_reply correlation_id =
    reply_buffer Operation.list_state (encode_state_response (listing correlation_id))
