-- ===== src/Tests/Freed.antt =====
-- A run of `delete_disk` of cli/src/driver/windows/disk/removal.rs, from the deletion on.
use wisp_disk.Base.{◌≡◌, refl, some, true, false, List, [], ◌∷◌, arith}
use wisp_disk.Base.Bytes.{Bytes, le_bytes, read_le}
use wisp_disk.Base.Text.{text, text_eq, decimal}
use wisp_disk.Protocol.{
  Operation, operation_code, ReservedDeleteRequest, is_valid_state, is_valid_reservation,
  matches_operation,
}
use wisp_disk.Protocol.Wire
use wisp_disk.Errors.{ok, OperationHandle}
use wisp_disk.Recovery.{handle_of_response, resolve_operation, interpret}
use wisp_disk.Machine.{Process}
use wisp_disk.Machine.Polling.{poll}
use wisp_disk.Adapter.Operations.{delete_reserved_operation}
use wisp_disk.Adapter.Transport
use wisp_disk.Adapter.Requests
use wisp_disk.Adapter.Requests.{Adapter}
use wisp_disk.Adapter.Reserved
use wisp_disk.Adapter.Reserved.{device_wait}
use wisp_disk.Adapter.Mutations.{delete_by_id}
use wisp_disk.Volume
use wisp_disk.Volume.{Volume}
use wisp_disk.Volume.Identity
use wisp_disk.Volume.Identity.{ScsiLocation}
use wisp_disk.Volume.Letters
use wisp_disk.Volume.Finder
use wisp_disk.Volume.Discovery
use wisp_disk.Disk.Absence
use wisp_disk.Disk.Interfaces
use wisp_disk.Disk.Arrival
use wisp_disk.Disk.Opening
use wisp_disk.Disk.Deletion
use wisp_disk.Disk.Removal
use wisp_disk.Disk.Allocation
use wisp_disk.Disk.Delete
use wisp_disk.Disk.Delete.Unique.{IsFreed, delete_disk-IsFreed}
use wisp_disk.Tests.Responses
use wisp_disk.Tests.System.{
  simulated, opened_file, version_reply, operation_reply, response_of, inventory_reply, state_reply,
}
use wisp_disk.Tests.Provisioning.{location, letter}
use wisp_disk.Tests.Deletion.{info, opened_volume}
use wisp_disk.Tests.Owner.{leaving, adapter, owner_found, instance_found}

abbrev pub deletion_replies : List Bytes
deletion_replies =
    version_reply 8
    ∷ operation_reply Operation.reserve Operation.delete_disk 1 9
    ∷ operation_reply Operation.delete_reserved Operation.delete_disk 3 10
    ∷ state_reply 11
    ∷ []

abbrev listed : Process simulated
listed = leaving deletion_replies 8

located :
    Allocation.locate_allocation adapter 7 3 (leaving (inventory_reply 7 ∷ deletion_replies) 7)
    ≡ (ok location, listed)
unfolding Allocation.locate_allocation Allocation.disk_location Requests.query_version decimal text
    Transport.request_header Transport.send Transport.received Transport.receive Transport.accepted
    Transport.validate_response_header Transport.read_srb Transport.encode_srb read_le le_bytes
    text_eq Wire.read_response_header Responses.encode_response_header
    Responses.encode_query_version_response Wire.read_query_version_response
    Wire.read_state_response Responses.encode_state_response Wire.read_disks Responses.encode_disks
    Wire.read_disk_state Responses.encode_disk_state Wire.read_disk_info Responses.encode_disk_info
    is_valid_state Requests.query_state
located = refl

arrived : Arrival.wait_for_physical_disk 3 location device_wait listed ≡ some (ok 4, listed)
unfolding Arrival.wait_for_physical_disk Arrival.new_notification Arrival.drop_notification poll
    Interfaces.find_physical_disk Interfaces.find_rounds Interfaces.matched_with
    Interfaces.examine_interface Interfaces.disk_interface_path Interfaces.sighted
    Interfaces.storage_device_number Identity.scsi_location Finder.wide_from_buffer opened_file
    text_eq text
arrived = refl

volumes_found : Discovery.volumes_for_disk 3 4 listed ≡ some (ok (info ∷ []), listed)
unfolding Discovery.volumes_for_disk Discovery.volume_rounds Discovery.examine
    Discovery.volume_paths Discovery.multisz_entries Discovery.split_at_nul Discovery.take_non_empty
    Finder.new_finder Finder.next Finder.wide_from_buffer Identity.volume_device_path
    Identity.disk_number opened_file text text_eq
volumes_found = refl

opened_all : Deletion.open_all 4 (info ∷ []) listed ≡ (ok (opened_volume ∷ []), listed)
unfolding Deletion.open_all Identity.open_volume Identity.volume_device_path Identity.disk_number
    opened_file text
opened_all = refl

still_there :
    Deletion.verified 4 location (opened_volume ∷ []) listed ≡ (ok (opened_volume ∷ []), listed)
unfolding Deletion.verified Identity.verify_physical_disk_location Identity.physical_disk_address
    Identity.open_physical_drive Identity.closing_location Identity.scsi_location opened_file text
still_there = refl

opened : Opening.open_deletion 3 4 location listed ≡ some (ok (opened_volume ∷ []), listed)
unfolding Opening.open_deletion
opened = ground (arith, volumes_found, opened_all, still_there)

abbrev held : Volume simulated
held = record opened_volume { locked = true; removed_mount_points = info.mount_points }

prepared : Removal.prepare false (opened_volume ∷ []) listed ≡ (ok tt, held ∷ [], listed)
unfolding Removal.prepare Deletion.lock_all Deletion.dismount_all Deletion.remove_all Volume.lock
    Volume.dismount Volume.volume_control Volume.remove_mounts Volume.remove_each
prepared = refl

abbrev handle : OperationHandle
handle = record { adapter_instance = 7; id = 5 }

abbrev delete_request : ReservedDeleteRequest
delete_request = record {
  operation = record {
    header = record {
      struct_size = 48;
      protocol_version = 1;
      operation = operation_code Operation.delete_reserved;
      flags = 0;
      correlation_id = 10;
    };
    adapter_instance = 7;
    operation_id = 5;
  };
  device_id = 3;
  reserved = 0;
}

abbrev submission_replies : List Bytes
submission_replies =
    operation_reply Operation.delete_reserved Operation.delete_disk 3 10 ∷ state_reply 11 ∷ []

started :
    Requests.start_delete adapter 7 3 listed
    ≡ (ok (handle, delete_request), leaving submission_replies 11)
unfolding Requests.start_delete Requests.reserve Requests.require_recovery
    Reserved.operation_request handle_of_response is_valid_reservation Wire.read_operation_response
    Responses.encode_operation_response Requests.query_version decimal text Transport.request_header
    Transport.send Transport.received Transport.receive Transport.accepted
    Transport.validate_response_header Transport.read_srb Transport.encode_srb read_le le_bytes
    text_eq Wire.read_response_header Responses.encode_response_header
    Responses.encode_query_version_response Wire.read_query_version_response
started = refl

recovered :
    Requests.recover adapter 3 delete_reserved_operation handle Operation.delete_disk delete_request
      (leaving submission_replies 11)
    ≡ some (
      ok (response_of Operation.delete_reserved Operation.delete_disk 3 10),
      leaving (state_reply 11 ∷ []) 11,
    )
unfolding Requests.recover Reserved.new_deadline resolve_operation Wire.read_operation_response
    Responses.encode_operation_response matches_operation interpret Requests.query_version decimal
    text Transport.request_header Transport.send Transport.received Transport.receive
    Transport.accepted Transport.validate_response_header Transport.read_srb Transport.encode_srb
    read_le le_bytes text_eq Wire.read_response_header Responses.encode_response_header
    Responses.encode_query_version_response Wire.read_query_version_response
recovered = refl

confirmed :
    Requests.confirm_delete adapter handle 3 (leaving (state_reply 11 ∷ []) 11)
    ≡ (ok tt, leaving [] 12)
unfolding Requests.confirm_delete Requests.query_version decimal text Transport.request_header
    Transport.send Transport.received Transport.receive Transport.accepted
    Transport.validate_response_header Transport.read_srb Transport.encode_srb read_le le_bytes
    text_eq Wire.read_response_header Responses.encode_response_header
    Responses.encode_query_version_response Wire.read_query_version_response
    Wire.read_state_response Responses.encode_state_response Wire.read_disks Responses.encode_disks
    Wire.read_disk_state Responses.encode_disk_state Wire.read_disk_info Responses.encode_disk_info
    is_valid_state Requests.query_state
confirmed = refl

removed :
    Allocation.remove_opened adapter 3 7 3 false (opened_volume ∷ []) listed
    ≡ some (ok tt, leaving [] 12)
unfolding Allocation.remove_opened Removal.remove_allocation delete_by_id
removed = ground (arith, prepared, started, recovered, confirmed)

absent :
    Absence.wait_for_physical_disk_absent 4 location 3 device_wait (leaving [] 12)
    ≡ some (ok tt, leaving [] 12)
unfolding Absence.wait_for_physical_disk_absent Absence.absence_rounds Absence.answers_at
    Identity.physical_disk_address Identity.open_physical_drive Identity.closing_location
    Identity.scsi_location opened_file text
absent = refl

pub deleted :
    Delete.delete_allocation 3 adapter 7 3 false (leaving (inventory_reply 7 ∷ deletion_replies) 7)
    ≡ some (ok tt, leaving [] 12)
unfolding Delete.delete_allocation Allocation.confirming
deleted = ground (arith, located, arrived, opened, removed, absent)

free :
    Letters.wait_for_drive_state 3 letter false device_wait (leaving [] 12)
    ≡ some (ok tt, leaving [] 12)
unfolding Letters.wait_for_drive_state Letters.drive_letter_in_use Letters.letter_bit
free = refl

abbrev all_replies : List Bytes
all_replies =
    version_reply 1
    ∷ version_reply 2
    ∷ inventory_reply 3
    ∷ version_reply 4
    ∷ version_reply 5
    ∷ inventory_reply 6
    ∷ inventory_reply 7
    ∷ deletion_replies

freed : Delete.delete_disk 3 letter false (leaving all_replies 1) ≡ some (ok tt, leaving [] 12)
unfolding Delete.delete_disk Delete.delete_by_identity
freed = ground (
  arith,
  owner_found (
      version_reply 4 ∷ version_reply 5 ∷ inventory_reply 6 ∷ inventory_reply 7 ∷ deletion_replies),
  instance_found (inventory_reply 7 ∷ deletion_replies),
  deleted,
  free,
)

delete_disk-IsFreed_example : IsFreed 3 letter (leaving all_replies 1) (leaving [] 12)
delete_disk-IsFreed_example =
    delete_disk-IsFreed 3 letter false (leaving all_replies 1) (leaving [] 12) freed
