-- ===== src/Protocol/Wire/Sizes.antt =====
-- cli/src/protocol.rs, the sizes of the requests, which the source asserts by constants.
use wisp_disk.Base.{◌≡◌, length, length-append}
use wisp_disk.Base.Bytes.{length-le_bytes}
use wisp_disk.Protocol.{
  RequestHeader, ReserveRequest, OperationRequest, ReservedCreateRequest, ReservedDeleteRequest,
}
use wisp_disk.Protocol.Wire.{
  encode_request_header, encode_reserve_request, encode_operation_request,
  encode_reserved_create_request, encode_reserved_delete_request,
}

pub length-encode_request_header : (x : RequestHeader) → length (encode_request_header x) ≡ 24
unfolding encode_request_header
length-encode_request_header x = simp (length-append, length-le_bytes)

pub length-encode_reserve_request : (x : ReserveRequest) → length (encode_reserve_request x) ≡ 32
unfolding encode_reserve_request
length-encode_reserve_request x =
    simp (length-append, length-le_bytes, length-encode_request_header)

pub length-encode_operation_request :
    (x : OperationRequest) → length (encode_operation_request x) ≡ 40
unfolding encode_operation_request
length-encode_operation_request x =
    simp (length-append, length-le_bytes, length-encode_request_header)

pub length-encode_reserved_create_request :
    (x : ReservedCreateRequest) → length (encode_reserved_create_request x) ≡ 64
unfolding encode_reserved_create_request
length-encode_reserved_create_request x =
    simp (length-append, length-le_bytes, length-encode_operation_request)

pub length-encode_reserved_delete_request :
    (x : ReservedDeleteRequest) → length (encode_reserved_delete_request x) ≡ 48
unfolding encode_reserved_delete_request
length-encode_reserved_delete_request x =
    simp (length-append, length-le_bytes, length-encode_operation_request)
