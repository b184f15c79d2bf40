-- ===== src/Tests/Responses.antt =====
-- The bytes that a simulated driver answers with, in the layout of the structs of cli/src/protocol.rs.
use wisp_disk.Base.{List, [], ◌∷◌, ◌++◌}
use wisp_disk.Base.Bytes.{Bytes, le_bytes}
use wisp_disk.Protocol.{
  ResponseHeader, QueryVersionResponse, DiskInfo, OperationResponse, DiskState, StateResponse,
}

unfoldable pub encode_response_header : ResponseHeader → Bytes
encode_response_header x =
    le_bytes 4 x.struct_size
    ++ (le_bytes 4 x.protocol_version
        ++ (le_bytes 4 x.operation ++ (le_bytes 4 x.status ++ (le_bytes 8 x.correlation_id))))

unfoldable pub encode_query_version_response : QueryVersionResponse → Bytes
encode_query_version_response x =
    encode_response_header x.header
    ++ (le_bytes 4 x.version_major
        ++ (le_bytes 4 x.version_minor
            ++ (le_bytes 4 x.capabilities ++ (le_bytes 4 x.maximum_disk_count))))

unfoldable pub encode_disk_info : DiskInfo → Bytes
encode_disk_info x =
    le_bytes 4 x.device_id
    ++ (le_bytes 1 x.path_id
        ++ (le_bytes 1 x.target_id
            ++ (le_bytes 1 x.lun
                ++ (le_bytes 1 x.reserved8
                    ++ (le_bytes 8 x.size_bytes
                        ++ (le_bytes 4 x.logical_sector_size
                            ++ (le_bytes 4 x.media_kind
                                ++ (le_bytes 2 x.requested_drive_letter
                                    ++ (le_bytes 2 x.reserved16 ++ (le_bytes 4 0))))))))))

unfoldable pub encode_operation_response : OperationResponse → Bytes
encode_operation_response x =
    encode_response_header x.header
    ++ (le_bytes 8 x.adapter_instance
        ++ (le_bytes 8 x.operation_id
            ++ (le_bytes 4 x.mutation
                ++ (le_bytes 4 x.state
                    ++ (le_bytes 4 x.result_status
                        ++ (le_bytes 4 x.device_id
                            ++ (le_bytes 1 x.path_id
                                ++ (le_bytes 1 x.target_id
                                    ++ (le_bytes 1 x.lun
                                        ++ (le_bytes 1 x.reserved8
                                            ++ (le_bytes 4 x.reserved32)))))))))))

unfoldable pub encode_disk_state : DiskState → Bytes
encode_disk_state x =
    encode_disk_info x.disk
    ++ (le_bytes 8 x.create_operation_id ++ (le_bytes 4 x.state ++ (le_bytes 4 x.reserved)))

unfoldable pub encode_disks : List DiskState → Bytes
encode_disks [] = []
encode_disks (x ∷ xs) = encode_disk_state x ++ encode_disks xs

unfoldable pub encode_state_response : StateResponse → Bytes
encode_state_response x =
    encode_response_header x.header
    ++ (le_bytes 8 x.adapter_instance
        ++ (le_bytes 8 x.allocated_bytes
            ++ (le_bytes 4 x.disk_count
                ++ (le_bytes 4 x.pending_operations ++ (encode_disks x.disks)))))
