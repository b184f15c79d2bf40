-- ===== src/Tests/Creation.antt =====
-- Runs of cli/src/driver/windows/disk/creation.rs.
use wisp_disk.Base.{ℕ, ◌≡◌, refl, some, none, true, List, [], ◌∷◌, arith}
use wisp_disk.Base.Bytes.{Bytes, le_bytes, read_le}
use wisp_disk.Base.Text.{text, text_eq, decimal}
use wisp_disk.Args.{fixed, fat32}
use wisp_disk.Protocol.{
  Operation, operation_code, QueryVersionResponse, ReservedCreateRequest, is_valid_reservation,
  is_valid_created_disk, matches_operation,
}
use wisp_disk.Protocol.Wire
use wisp_disk.Errors.{
  ok, err, OperationHandle, volume_lock_failure, os_error, has_lock_failure, downcast_os_error,
}
use wisp_disk.Recovery.{handle_of_response, resolve_operation, interpret}
use wisp_disk.Machine.{Process, M}
use wisp_disk.Machine.Loops
use wisp_disk.Machine.Polling.{poll}
use wisp_disk.Adapter.Operations.{create_reserved_operation}
use wisp_disk.Adapter.Transport
use wisp_disk.Adapter.Requests
use wisp_disk.Adapter.Requests.{Adapter, CreatedDisk}
use wisp_disk.Adapter.Reserved
use wisp_disk.Adapter.Reserved.{device_wait, retry_interval}
use wisp_disk.Adapter.Mutations.{create}
use wisp_disk.Adapter.Discovery
use wisp_disk.Volume.{is_lock_refusal}
use wisp_disk.Volume.Identity
use wisp_disk.Volume.Letters
use wisp_disk.Volume.Finder
use wisp_disk.Disk.Interfaces
use wisp_disk.Disk.Arrival
use wisp_disk.Disk.Provisioning.Calls.{is_removable}
use wisp_disk.Disk.Creation
use wisp_disk.Disk.Creation.Checks.{IsAdded, add_disk-IsAdded}
use wisp_disk.Disk.Creation.Rollback.{Tries, rollback_rounds-Tries}
use wisp_disk.Tests.Responses
use wisp_disk.Tests.System.{
  simulated, process, opened_file, version_reply, operation_reply, response_of, reply_header,
}
use wisp_disk.Tests.Provisioning.{location, letter, located, available, formatted_run}

-- Another program keeps the volume open until the deadline.
abbrev refused : M simulated (Unit {0})
refused p = some (err (volume_lock_failure (os_error 5)), p)

-- The process behind the pause.
abbrev later : Process simulated
later = record (process [] 1) { os = record (process [] 1).os { clock = 200_001_000 } }

given_up :
    Creation.rollback_rounds refused 100_000_000 2 (process [] 1)
    ≡ some (err (volume_lock_failure (os_error 5)), later)
unfolding Creation.rollback_rounds is_lock_refusal has_lock_failure downcast_os_error
given_up = refl

rollback_rounds-Tries_example :
    Tries refused 100_000_000 (process [] 1) (err (volume_lock_failure (os_error 5))) later
rollback_rounds-Tries_example =
    rollback_rounds-Tries refused 100_000_000 2 (process [] 1)
      (err (volume_lock_failure (os_error 5))) later given_up

abbrev adapter : Adapter simulated
adapter = record { handle = 9; port_number = 2 }

abbrev created : CreatedDisk
created = record { adapter_instance = 7; device_id = 3; path_id = 0; target_id = 0; lun = 0 }

abbrev disk_size : ℕ
disk_size = 4_194_304

-- The letter is there at the third look.
abbrev shown : Process simulated
shown = record (process [] 7) { os = record (process [] 7).os { clock = 600_001_000 } }

arrived :
    Arrival.wait_for_physical_disk 5 location device_wait (process [] 7) ≡ some (ok 4, process [] 7)
unfolding Arrival.wait_for_physical_disk Arrival.new_notification Arrival.drop_notification poll
    Interfaces.find_physical_disk Interfaces.find_rounds Interfaces.matched_with
    Interfaces.examine_interface Interfaces.disk_interface_path Interfaces.sighted
    Interfaces.storage_device_number Identity.scsi_location Finder.wide_from_buffer opened_file
    text_eq text
arrived = refl

letter_shown :
    Letters.wait_for_drive_state 5 letter true device_wait (process [] 7) ≡ some (ok tt, shown)
unfolding Letters.wait_for_drive_state Letters.drive_letter_in_use Letters.letter_bit
letter_shown = refl

mounted : Identity.verify_mounted_drive letter 4 location shown ≡ (ok tt, shown)
unfolding Identity.verify_mounted_drive Identity.disk_number Identity.verify_physical_disk_location
    Identity.physical_disk_address Identity.open_physical_drive Identity.closing_location
    Identity.scsi_location opened_file text
mounted = refl

set_up :
    Creation.initialize_created_disk 5 adapter created letter fixed disk_size fat32 (process [] 7)
    ≡ some (ok tt, shown)
unfolding Creation.initialize_created_disk Creation.expected_location
set_up = ground (arith, available 7, arrived, located 7, formatted_run 7, letter_shown, mounted)

kept :
    Creation.set_up_or_roll_back 5 adapter created letter fixed disk_size fat32 (process [] 7)
    ≡ some (ok tt, shown)
unfolding Creation.set_up_or_roll_back
kept = ground (arith, set_up)

abbrev submission_replies : List Bytes
submission_replies = operation_reply Operation.create_reserved Operation.create_disk 3 6 ∷ []

abbrev creation_replies : List Bytes
creation_replies =
    version_reply 4
    ∷ operation_reply Operation.reserve Operation.create_disk 1 5
    ∷ submission_replies

abbrev all_replies : List Bytes
all_replies = version_reply 1 ∷ version_reply 2 ∷ version_reply 3 ∷ creation_replies

abbrev create_request : ReservedCreateRequest
create_request = record {
  operation = record {
    header = record {
      struct_size = 64;
      protocol_version = 1;
      operation = operation_code Operation.create_reserved;
      flags = 0;
      correlation_id = 6;
    };
    adapter_instance = 7;
    operation_id = 5;
  };
  size_bytes = disk_size;
  logical_sector_size = 512;
  media_kind = 1;
  requested_drive_letter = b'D';
  reserved16 = 0;
  reserved32 = 0;
}

abbrev handle : OperationHandle
handle = record { adapter_instance = 7; id = 5 }

create_started :
    Requests.start_create adapter letter fixed disk_size (process creation_replies 4)
    ≡ (ok (handle, create_request), process submission_replies 7)
unfolding Requests.start_create Requests.reserve Requests.require_recovery
    Reserved.operation_request handle_of_response is_valid_reservation Wire.read_operation_response
    Responses.encode_operation_response Requests.query_version Transport.request_header
    Transport.send Transport.received Transport.receive Transport.accepted
    Transport.validate_response_header Transport.read_srb Transport.encode_srb read_le le_bytes
    text_eq Wire.read_response_header Responses.encode_response_header
    Responses.encode_query_version_response Wire.read_query_version_response
create_started = refl

create_recovered :
    Requests.recover adapter 5 create_reserved_operation handle Operation.create_disk create_request
      (process submission_replies 7)
    ≡ some (ok (response_of Operation.create_reserved Operation.create_disk 3 6), process [] 7)
unfolding Requests.recover Reserved.new_deadline resolve_operation Wire.read_operation_response
    Responses.encode_operation_response matches_operation interpret Requests.query_version
    Transport.request_header Transport.send Transport.received Transport.receive Transport.accepted
    Transport.validate_response_header Transport.read_srb Transport.encode_srb read_le le_bytes
    text_eq Wire.read_response_header Responses.encode_response_header
    Responses.encode_query_version_response Wire.read_query_version_response
create_recovered = refl

disk_created :
    create adapter 5 letter fixed disk_size (process creation_replies 4)
    ≡ some (ok created, process [] 7)
unfolding create Requests.created_or_unresolved Requests.created_disk_of_response
    is_valid_created_disk
disk_created = ground (arith, create_started, create_recovered)

abbrev loaded : QueryVersionResponse
loaded = record {
  header = reply_header 40 Operation.query_version 2;
  version_major = 0;
  version_minor = 2;
  capabilities = 15;
  maximum_disk_count = 16;
}

free :
    Letters.ensure_drive_letter_available letter (process all_replies 1)
    ≡ (ok tt, process all_replies 1)
unfolding Letters.ensure_drive_letter_available Letters.drive_letter_in_use Letters.letter_bit
free = refl

ports : Discovery.ports_from 0 256 ≡ 0 ∷ 1 ∷ 2 ∷ Discovery.ports_from 3 253
unfolding Discovery.ports_from
ports = refl

silent_0 : Discovery.adapter_at 0 (process all_replies 1) ≡ (none, process all_replies 1)
unfolding Discovery.adapter_at opened_file decimal text text_eq
silent_0 = refl

silent_1 : Discovery.adapter_at 1 (process all_replies 1) ≡ (none, process all_replies 1)
unfolding Discovery.adapter_at opened_file decimal text text_eq
silent_1 = refl

answering :
    Discovery.adapter_at 2 (process all_replies 1)
    ≡ (some adapter, process (version_reply 2 ∷ version_reply 3 ∷ creation_replies) 2)
unfolding Discovery.adapter_at opened_file decimal text Requests.query_version
    Transport.request_header Transport.send Transport.received Transport.receive Transport.accepted
    Transport.validate_response_header Transport.read_srb Transport.encode_srb read_le le_bytes
    text_eq Wire.read_response_header Responses.encode_response_header
    Responses.encode_query_version_response Wire.read_query_version_response
answering = refl

adapter_found :
    Creation.ensure_adapter 5 (Loops.pure tt) (process all_replies 1)
    ≡ some (ok adapter, process (version_reply 2 ∷ version_reply 3 ∷ creation_replies) 2)
unfolding Creation.ensure_adapter Discovery.next_adapter Discovery.first_adapter
adapter_found = ground (arith, ports, silent_0, silent_1, answering)

asked :
    Requests.query_version adapter
      (process (version_reply 2 ∷ version_reply 3 ∷ creation_replies) 2)
    ≡ (ok loaded, process (version_reply 3 ∷ creation_replies) 3)
unfolding Requests.query_version Transport.request_header Transport.send Transport.received
    Transport.receive Transport.accepted Transport.validate_response_header Transport.read_srb
    Transport.encode_srb read_le le_bytes text_eq Wire.read_response_header
    Responses.encode_response_header Responses.encode_query_version_response
    Wire.read_query_version_response
asked = refl

recovers :
    Requests.require_recovery adapter (process (version_reply 3 ∷ creation_replies) 3)
    ≡ (ok tt, process creation_replies 4)
unfolding Requests.require_recovery Requests.query_version Transport.request_header Transport.send
    Transport.received Transport.receive Transport.accepted Transport.validate_response_header
    Transport.read_srb Transport.encode_srb read_le le_bytes text_eq Wire.read_response_header
    Responses.encode_response_header Responses.encode_query_version_response
    Wire.read_query_version_response
recovers = refl

added :
    Creation.add_disk 5 (Loops.pure tt) letter fixed disk_size fat32 (process all_replies 1)
    ≡ some (ok tt, shown)
unfolding Creation.add_disk is_removable Creation.required_capabilities
added = ground (arith, free, adapter_found, asked, recovers, disk_created, kept)

add_disk-IsAdded_example : IsAdded {W = simulated} 5 letter fixed disk_size fat32 shown
add_disk-IsAdded_example =
    add_disk-IsAdded 5 (Loops.pure tt) letter fixed disk_size fat32 (process all_replies 1) shown
      added
