-- ===== src/Adapter/Operations.antt =====
-- cli/src/driver/windows/adapter/control_operation.rs, an operation code with the wire forms of its
-- request and its response.
pub mod Contract
use wisp_disk.Base.{ℕ}
use wisp_disk.Base.Bytes.{Bytes, Reader}
use wisp_disk.Protocol.{
  Operation, RequestHeader, ResponseHeader, QueryVersionResponse, ReserveRequest, OperationRequest,
  ReservedCreateRequest, ReservedDeleteRequest, OperationResponse, StateResponse, query_version,
  reserve, query_result, list_state, create_reserved, delete_reserved,
}
use wisp_disk.Protocol.Wire.{
  encode_request_header, encode_reserve_request, encode_operation_request,
  encode_reserved_create_request, encode_reserved_delete_request, read_query_version_response,
  read_operation_response, read_state_response,
}

-- `ProtocolRequest`: the bytes of the request, their number, and its header.
pub record ProtocolRequest (Request : Type 0) : Type 0 where
  pub size : ℕ
  pub bytes : Request → Bytes
  pub request_header : Request → RequestHeader

-- `ProtocolResponse`.
pub record ProtocolResponse (Response : Type 0) : Type 0 where
  pub size : ℕ
  pub read : Reader Response
  pub response_header : Response → ResponseHeader

pub record ControlOperation (Request Response : Type 0) : Type 0 where
  pub code : Operation
  pub request : ProtocolRequest Request
  pub response : ProtocolResponse Response

abbrev pub request_header_wire : ProtocolRequest RequestHeader
request_header_wire = record { size = 24; bytes = encode_request_header; request_header = λ r. r }

abbrev pub reserve_request_wire : ProtocolRequest ReserveRequest
reserve_request_wire = record {
  size = 32;
  bytes = encode_reserve_request;
  request_header = λ r. r.header;
}

abbrev pub operation_request_wire : ProtocolRequest OperationRequest
operation_request_wire = record {
  size = 40;
  bytes = encode_operation_request;
  request_header = λ r. r.header;
}

abbrev pub reserved_create_request_wire : ProtocolRequest ReservedCreateRequest
reserved_create_request_wire = record {
  size = 64;
  bytes = encode_reserved_create_request;
  request_header = λ r. r.operation.header;
}

abbrev pub reserved_delete_request_wire : ProtocolRequest ReservedDeleteRequest
reserved_delete_request_wire = record {
  size = 48;
  bytes = encode_reserved_delete_request;
  request_header = λ r. r.operation.header;
}

abbrev pub query_version_response_wire : ProtocolResponse QueryVersionResponse
query_version_response_wire = record {
  size = 40;
  read = read_query_version_response;
  response_header = λ r. r.header;
}

abbrev pub operation_response_wire : ProtocolResponse OperationResponse
operation_response_wire = record {
  size = 64;
  read = read_operation_response;
  response_header = λ r. r.header;
}

abbrev pub state_response_wire : ProtocolResponse StateResponse
state_response_wire = record {
  size = 816;
  read = read_state_response;
  response_header = λ r. r.header;
}

abbrev pub query_version_operation : ControlOperation RequestHeader QueryVersionResponse
query_version_operation = record {
  code = query_version;
  request = request_header_wire;
  response = query_version_response_wire;
}

abbrev pub reserve_operation : ControlOperation ReserveRequest OperationResponse
reserve_operation = record {
  code = reserve;
  request = reserve_request_wire;
  response = operation_response_wire;
}

abbrev pub query_result_operation : ControlOperation OperationRequest OperationResponse
query_result_operation = record {
  code = query_result;
  request = operation_request_wire;
  response = operation_response_wire;
}

abbrev pub list_state_operation : ControlOperation RequestHeader StateResponse
list_state_operation = record {
  code = list_state;
  request = request_header_wire;
  response = state_response_wire;
}

abbrev pub create_reserved_operation : ControlOperation ReservedCreateRequest OperationResponse
create_reserved_operation = record {
  code = create_reserved;
  request = reserved_create_request_wire;
  response = operation_response_wire;
}

abbrev pub delete_reserved_operation : ControlOperation ReservedDeleteRequest OperationResponse
delete_reserved_operation = record {
  code = delete_reserved;
  request = reserved_delete_request_wire;
  response = operation_response_wire;
}
