-- ===== src/Tests/Adapter.antt =====
-- Runs of cli/src/driver/windows/adapter/mod.rs.
use wisp_disk.Base.{arith, ℕ, ◌≢◌, none, ◌++◌, ◌≡◌, refl, List, [], ◌∷◌, some}
use wisp_disk.Base.Bytes.{Bytes}
use wisp_disk.Protocol.{
  Operation, operation_code, ReservedDeleteRequest, ReservedCreateRequest, RequestHeader,
  QueryVersionResponse, is_valid_created_disk,
}
use wisp_disk.Errors.{Error, context, os_error, unresolved_outcome, ok, err, OperationHandle}
use wisp_disk.Machine.{Process}
use wisp_disk.Adapter.Requests.{Adapter, query_version, reserve}
use wisp_disk.Adapter.Mutations.{delete_by_id}
use wisp_disk.Adapter.Mutations.Deleted.{IsGone, delete_by_id-IsGone}
use wisp_disk.Base.Bytes.{le_bytes, read_le}
use wisp_disk.Base.Text.{text, text_eq}
use wisp_disk.Protocol.{is_valid_reservation, is_valid_state, matches_operation}
use wisp_disk.Protocol.Wire
use wisp_disk.Adapter.Transport
use wisp_disk.Adapter.Reserved
use wisp_disk.Adapter.Requests
use wisp_disk.Recovery.{handle_of_response, resolve_operation, interpret}
use wisp_disk.Adapter.Operations.{delete_reserved_operation}
use wisp_disk.Args.{DriveLetter, removable}
use wisp_disk.Adapter.Requests.{CreatedDisk}
use wisp_disk.Adapter.Mutations.{create}
use wisp_disk.Adapter.Mutations.Created.{IsCreated, create-IsCreated}
use wisp_disk.Adapter.Mutations.Returns.{delete_by_id-returns}
use wisp_disk.Adapter.Operations.{create_reserved_operation, query_version_operation}
use wisp_disk.Adapter.Operations.Contract.{
  query_version-IsProtocolResponse, reserved_create-IsProtocolRequest,
}
use wisp_disk.Adapter.Transport.Checked.{Answers, send-Answers}
use wisp_disk.Adapter.Transport.Sent.{Carries, request_buffer-Carries}
use wisp_disk.Protocol.Wire.RoundTrip.{ReservedCreateRequestFits}
use wisp_disk.Adapter.Install
use wisp_disk.Tests.Responses
use wisp_disk.Tests.System.{
  simulated, simulated-HasClock, reply_header, version_reply, operation_reply, state_reply, process,
  response_of,
}

abbrev pub adapter : Adapter simulated
adapter = record { handle = 1; port_number = 2 }

abbrev reservation_replies : List Bytes
reservation_replies =
    version_reply 1 ∷ operation_reply Operation.reserve Operation.delete_disk 1 2 ∷ []

abbrev deleted_reply : Bytes
deleted_reply = operation_reply Operation.delete_reserved Operation.delete_disk 3 3

abbrev submission_replies : List Bytes
submission_replies = deleted_reply ∷ state_reply 4 ∷ []

abbrev pub deletion : Process simulated
deletion = process (reservation_replies ++ submission_replies) 1

abbrev pub handle : OperationHandle
handle = record { adapter_instance = 7; id = 5 }

abbrev delete_request : ReservedDeleteRequest
delete_request = record {
  operation = record {
    header = record {
      struct_size = 48;
      protocol_version = 1;
      operation = operation_code Operation.delete_reserved;
      flags = 0;
      correlation_id = 3;
    };
    adapter_instance = 7;
    operation_id = 5;
  };
  device_id = 3;
  reserved = 0;
}

started :
    (rest : List Bytes)
    → Requests.start_delete adapter 7 3 (process (reservation_replies ++ rest) 1)
      ≡ (ok (handle, delete_request), process rest 4)
unfolding Requests.start_delete reserve Requests.require_recovery query_version
    Transport.request_header Transport.send Transport.received Transport.receive Transport.accepted
    Transport.validate_response_header Transport.read_srb Transport.encode_srb read_le le_bytes
    text_eq Wire.read_response_header Responses.encode_response_header
    Responses.encode_query_version_response Wire.read_query_version_response
    Wire.read_operation_response Responses.encode_operation_response handle_of_response
    is_valid_reservation Reserved.operation_request
started rest = refl

recovered :
    (rest : List Bytes)
    → Requests.recover adapter 3 delete_reserved_operation handle Operation.delete_disk
        delete_request
        (process (deleted_reply ∷ rest) 4)
      ≡ some (ok (response_of Operation.delete_reserved Operation.delete_disk 3 3), process rest 4)
unfolding Requests.recover Reserved.new_deadline resolve_operation Transport.request_header
    Transport.send Transport.received Transport.receive Transport.accepted
    Transport.validate_response_header Transport.read_srb Transport.encode_srb read_le le_bytes
    text_eq Wire.read_response_header Responses.encode_response_header Wire.read_operation_response
    Responses.encode_operation_response matches_operation interpret
recovered rest = refl

confirmed :
    Requests.confirm_delete adapter handle 3 (process (state_reply 4 ∷ []) 4)
    ≡ (ok tt, process [] 5)
unfolding Requests.confirm_delete Requests.query_state Transport.request_header Transport.send
    Transport.received Transport.receive Transport.accepted Transport.validate_response_header
    Transport.read_srb Transport.encode_srb read_le le_bytes text_eq Wire.read_response_header
    Responses.encode_response_header Wire.read_state_response Responses.encode_state_response
    Wire.read_disks Responses.encode_disks Wire.read_disk_state Responses.encode_disk_state
    Wire.read_disk_info Responses.encode_disk_info is_valid_state
confirmed = refl

pub deleted : delete_by_id adapter 3 7 3 deletion ≡ some (ok tt, process [] 5)
unfolding delete_by_id
deleted = ground (arith, started submission_replies, recovered (state_reply 4 ∷ []), confirmed)

-- The same, when the adapter answers no more once it has deleted the disk.
abbrev pub lost_deletion : Process simulated
lost_deletion = process (reservation_replies ++ (deleted_reply ∷ [])) 1

abbrev pub lost : Error
lost =
    unresolved_outcome handle
      (context (text "send WispDisk miniport control request") (os_error 1117))

unconfirmed : Requests.confirm_delete adapter handle 3 (process [] 4) ≡ (err lost, process [] 5)
unfolding Requests.confirm_delete Requests.query_state Transport.request_header Transport.send
    Transport.received
unconfirmed = refl

pub not_confirmed : delete_by_id adapter 3 7 3 lost_deletion ≡ some (err lost, process [] 5)
unfolding delete_by_id
not_confirmed = ground (arith, started (deleted_reply ∷ []), recovered [], unconfirmed)

delete_by_id-IsGone_example : IsGone adapter 7 3 (process [] 5)
delete_by_id-IsGone_example = delete_by_id-IsGone adapter 3 7 3 deletion (process [] 5) deleted

reserved :
    reserve adapter Operation.delete_disk deletion ≡ (ok handle, process submission_replies 3)
unfolding reserve Requests.require_recovery query_version Transport.request_header Transport.send
    Transport.received Transport.receive Transport.accepted Transport.validate_response_header
    Transport.read_srb Transport.encode_srb read_le le_bytes text_eq Wire.read_response_header
    Responses.encode_response_header Responses.encode_query_version_response
    Wire.read_query_version_response Wire.read_operation_response
    Responses.encode_operation_response handle_of_response is_valid_reservation
reserved = refl

delete_by_id-returns_example : delete_by_id adapter 302 7 3 deletion ≢ none
delete_by_id-returns_example =
    delete_by_id-returns simulated-HasClock adapter 302 (omega arith) 7 3 deletion

abbrev letter : DriveLetter
letter = record { char = b'R' }

abbrev disk_size : ℕ
disk_size = 67_108_864

abbrev creation_replies : List Bytes
creation_replies = operation_reply Operation.create_reserved Operation.create_disk 3 3 ∷ []

abbrev creation : Process simulated
creation =
    process
      (version_reply 1
        ∷ operation_reply Operation.reserve Operation.create_disk 1 2
        ∷ creation_replies)
      1

abbrev create_request : ReservedCreateRequest
create_request = record {
  operation = record {
    header = record {
      struct_size = 64;
      protocol_version = 1;
      operation = operation_code Operation.create_reserved;
      flags = 0;
      correlation_id = 3;
    };
    adapter_instance = 7;
    operation_id = 5;
  };
  size_bytes = disk_size;
  logical_sector_size = 512;
  media_kind = 2;
  requested_drive_letter = b'R';
  reserved16 = 0;
  reserved32 = 0;
}

abbrev created : CreatedDisk
created = record { adapter_instance = 7; device_id = 3; path_id = 0; target_id = 0; lun = 0 }

create_started :
    Requests.start_create adapter letter removable disk_size creation
    ≡ (ok (handle, create_request), process creation_replies 4)
unfolding Requests.start_create reserve Requests.require_recovery query_version
    Transport.request_header Transport.send Transport.received Transport.receive Transport.accepted
    Transport.validate_response_header Transport.read_srb Transport.encode_srb read_le le_bytes
    text_eq Wire.read_response_header Responses.encode_response_header
    Responses.encode_query_version_response Wire.read_query_version_response
    Wire.read_operation_response Responses.encode_operation_response handle_of_response
    is_valid_reservation Reserved.operation_request
create_started = refl

create_recovered :
    Requests.recover adapter 3 create_reserved_operation handle Operation.create_disk create_request
      (process creation_replies 4)
    ≡ some (ok (response_of Operation.create_reserved Operation.create_disk 3 3), process [] 4)
unfolding Requests.recover Reserved.new_deadline resolve_operation Transport.request_header
    Transport.send Transport.received Transport.receive Transport.accepted
    Transport.validate_response_header Transport.read_srb Transport.encode_srb read_le le_bytes
    text_eq Wire.read_response_header Responses.encode_response_header Wire.read_operation_response
    Responses.encode_operation_response matches_operation interpret
create_recovered = refl

disk_created :
    create adapter 3 letter removable disk_size creation ≡ some (ok created, process [] 4)
unfolding create Requests.created_or_unresolved Requests.created_disk_of_response
    is_valid_created_disk
disk_created = ground (arith, create_started, create_recovered)

create-IsCreated_example :
    (h : OperationHandle) × (request : ReservedCreateRequest) × (q : Process simulated)
    × (Requests.start_create adapter letter removable disk_size creation ≡ (ok (h, request), q))
    × IsCreated h created
create-IsCreated_example =
    create-IsCreated adapter 3 letter removable disk_size creation created (process [] 4)
      disk_created

abbrev version_request : RequestHeader
version_request = record {
  struct_size = 24;
  protocol_version = 1;
  operation = operation_code Operation.query_version;
  flags = 0;
  correlation_id = 1;
}

abbrev version : QueryVersionResponse
version = record {
  header = reply_header 40 Operation.query_version 1;
  version_major = 0;
  version_minor = 2;
  capabilities = 15;
  maximum_disk_count = 16;
}

version_sent : (Transport.send query_version_operation 1 version_request deletion).0 ≡ ok version
unfolding Transport.request_header Transport.send Transport.received Transport.receive
    Transport.accepted Transport.validate_response_header Transport.read_srb Transport.encode_srb
    read_le le_bytes text_eq Wire.read_response_header Responses.encode_response_header
    Responses.encode_query_version_response Wire.read_query_version_response
version_sent = refl

send-Answers_example : Answers query_version_operation 1 version
send-Answers_example =
    send-Answers query_version_operation query_version-IsProtocolResponse 1 version_request deletion
      version version_sent

create_request-Fits : ReservedCreateRequestFits create_request
create_request-Fits = record {
  operation_fits = record {
    header_fits = record {
      struct_size_fits = omega arith;
      protocol_version_fits = omega arith;
      operation_fits = omega arith;
      flags_fits = omega arith;
      correlation_id_fits = omega arith;
    };
    adapter_instance_fits = omega arith;
    operation_id_fits = omega arith;
  };
  size_bytes_fits = omega arith;
  logical_sector_size_fits = omega arith;
  media_kind_fits = omega arith;
  requested_drive_letter_fits = omega arith;
  reserved16_fits = omega arith;
  reserved32_fits = omega arith;
}

request_buffer-Carries_example :
    Carries create_reserved_operation reserved_create-IsProtocolRequest create_request
request_buffer-Carries_example =
    request_buffer-Carries create_reserved_operation reserved_create-IsProtocolRequest
      create_request create_request-Fits (omega arith)
