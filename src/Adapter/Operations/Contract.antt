-- ===== src/Adapter/Operations/Contract.antt =====
-- cli/src/driver/windows/adapter/control_operation.rs, the contracts of the two unsafe traits, and
-- that the implementations meet them.
use wisp_disk.Base.{◌≡◌, refl, ◌++◌, length}
use wisp_disk.Base.Bytes.{Bytes, Reader}
use wisp_disk.Protocol.Wire.{
  read_response_header, read_query_version_response, read_operation_response, read_state_response,
  read_request_header, read_reserve_request, read_operation_request, read_reserved_create_request,
  read_reserved_delete_request,
}
use wisp_disk.Protocol.Wire.Sizes.{
  length-encode_request_header, length-encode_reserve_request, length-encode_operation_request,
  length-encode_reserved_create_request, length-encode_reserved_delete_request,
}
use wisp_disk.Protocol.Wire.RoundTrip.{
  RequestHeaderFits, ReserveRequestFits, OperationRequestFits, ReservedCreateRequestFits,
  ReservedDeleteRequestFits, read-request_header, read-reserve_request, read-operation_request,
  read-reserved_create_request, read-reserved_delete_request,
}
use wisp_disk.Adapter.Operations.{
  ProtocolRequest, ProtocolResponse, request_header_wire, reserve_request_wire,
  operation_request_wire, reserved_create_request_wire, reserved_delete_request_wire,
  query_version_response_wire, operation_response_wire, state_response_wire,
}

-- The request is sent whole: its bytes have the stated size and determine it.
pub record IsProtocolRequest {Request : Type 0} (wire : ProtocolRequest Request) : Type 1 where
  pub Fits : Request → Type 0
  pub read : Reader Request
  pub sized : (request : Request) → length (wire.bytes request) ≡ wire.size
  pub read_back :
      (request : Request)
      → Fits request
      → (rest : Bytes) → read (wire.bytes request ++ rest) ≡ (request, rest)

-- The response has its header at offset zero.
pub record IsProtocolResponse {Response : Type 0} (wire : ProtocolResponse Response) : Type 0 where
  pub header_first :
      (bytes : Bytes) → wire.response_header (wire.read bytes).0 ≡ (read_response_header bytes).0

abbrev pub request_header-IsProtocolRequest : IsProtocolRequest request_header_wire
request_header-IsProtocolRequest = record {
  Fits = RequestHeaderFits;
  read = read_request_header;
  sized = length-encode_request_header;
  read_back = read-request_header;
}

abbrev pub reserve_request-IsProtocolRequest : IsProtocolRequest reserve_request_wire
reserve_request-IsProtocolRequest = record {
  Fits = ReserveRequestFits;
  read = read_reserve_request;
  sized = length-encode_reserve_request;
  read_back = read-reserve_request;
}

abbrev pub operation_request-IsProtocolRequest : IsProtocolRequest operation_request_wire
operation_request-IsProtocolRequest = record {
  Fits = OperationRequestFits;
  read = read_operation_request;
  sized = length-encode_operation_request;
  read_back = read-operation_request;
}

abbrev pub reserved_create-IsProtocolRequest : IsProtocolRequest reserved_create_request_wire
reserved_create-IsProtocolRequest = record {
  Fits = ReservedCreateRequestFits;
  read = read_reserved_create_request;
  sized = length-encode_reserved_create_request;
  read_back = read-reserved_create_request;
}

abbrev pub reserved_delete-IsProtocolRequest : IsProtocolRequest reserved_delete_request_wire
reserved_delete-IsProtocolRequest = record {
  Fits = ReservedDeleteRequestFits;
  read = read_reserved_delete_request;
  sized = length-encode_reserved_delete_request;
  read_back = read-reserved_delete_request;
}

pub query_version-IsProtocolResponse : IsProtocolResponse query_version_response_wire
unfolding read_query_version_response
query_version-IsProtocolResponse = record { header_first = λ bytes. refl }

pub operation-IsProtocolResponse : IsProtocolResponse operation_response_wire
unfolding read_operation_response
operation-IsProtocolResponse = record { header_first = λ bytes. refl }

pub state-IsProtocolResponse : IsProtocolResponse state_response_wire
unfolding read_state_response
state-IsProtocolResponse = record { header_first = λ bytes. refl }
