-- ===== src/Adapter/Transport.antt =====
-- cli/src/driver/windows/adapter/mod.rs, one control request through the miniport: `send`,
-- `request_header` and `validate_response_header`.
pub mod Checked
pub mod Sent
use wisp_disk.Base.{
  ℕ, ◌+◌, ◌-◌, ◌%◌, ◌^◌, Bool, not, ◌&&◌, ◌||◌, List, [], ◌∷◌, ◌++◌, ltb, ◌==◌, if◌then◌else◌,
  length, replicate, take, drop,
}
use wisp_disk.Base.Text.{Text, text, text_eq, decimal}
use wisp_disk.Base.Bytes.{Bytes, Reader, le_bytes, read_le, pure, ◌>>=◌ as ◌>>=ᵣ◌}
use wisp_disk.Protocol.{
  Operation, operation_code, protocol_version, RequestHeader, ResponseHeader, is_negative,
}
use wisp_disk.Protocol.Wire.{read_response_header}
use wisp_disk.Errors.{Error, message, os_error, driver_rejection, context, Result, ok, err}
use wisp_disk.Machine.{Windows, Process, Api, returned, failed, IoOutput, Io}
use wisp_disk.Adapter.Operations.{ControlOperation}

abbrev pub control_buffer_size : ℕ
control_buffer_size = 1024

abbrev pub control_timeout_seconds : ℕ
control_timeout_seconds = 30

-- `SRB_SIGNATURE`, `*b"WISPDK01"`.
abbrev pub srb_signature : Bytes
srb_signature = b'W' ∷ b'I' ∷ b'S' ∷ b'P' ∷ b'D' ∷ b'K' ∷ b'0' ∷ b'1' ∷ []

-- `SRB_IO_CONTROL` of the Windows headers, which stands in front of the message.
pub record SrbIoControl : Type 0 where
  pub header_length : ℕ
  pub signature : Bytes
  pub timeout : ℕ
  pub control_code : ℕ
  pub return_code : ℕ
  pub message_length : ℕ

-- `size_of::<SRB_IO_CONTROL>()`.
abbrev pub srb_size : ℕ
srb_size = 28

unfoldable pub encode_srb : SrbIoControl → Bytes
encode_srb c =
    le_bytes 4 c.header_length
    ++ (c.signature
        ++ (le_bytes 4 c.timeout
            ++ (le_bytes 4 c.control_code
                ++ (le_bytes 4 c.return_code ++ le_bytes 4 c.message_length))))

unfoldable pub read_srb : Reader SrbIoControl
read_srb bytes =
    let (header_length, rest) = read_le 4 bytes in
    let signature = take 8 rest in
    let (timeout, rest1) = read_le 4 (drop 8 rest) in
    let (control_code, rest2) = read_le 4 rest1 in
    let (return_code, rest3) = read_le 4 rest2 in
    let (message_length, rest4) = read_le 4 rest3 in
    (
      record {
        header_length = header_length;
        signature = signature;
        timeout = timeout;
        control_code = control_code;
        return_code = return_code;
        message_length = message_length;
      },
      rest4,
    )

unfoldable pub validate_response_header :
    Operation → ℕ → SrbIoControl → ResponseHeader → Result (Unit {0})
validate_response_header operation correlation_id control header =
    if not (control.header_length == srb_size) || not (text_eq control.signature srb_signature)
    then err (message (text "driver returned an invalid SRB control header"))
    else if not (header.protocol_version == protocol_version)
        || not (header.operation == operation_code operation)
        || not (header.correlation_id == correlation_id)
    then err (message (text "driver response did not match the request"))
    else if is_negative header.status
    then err (driver_rejection header.status)
    else if is_negative control.return_code
    then err (driver_rejection control.return_code)
    else ok tt

-- `request_header::<O>()`: the counter is a `u64`.
unfoldable pub request_header :
    {W : Windows} {Request Response : Type 0}
    → ControlOperation Request Response
    → Io W RequestHeader
request_header op p = (
  ok (record {
    struct_size = op.request.size;
    protocol_version = protocol_version;
    operation = operation_code op.code;
    flags = 0;
    correlation_id = p.next_correlation_id;
  }),
  record p { next_correlation_id = (p.next_correlation_id + 1) % 2 ^ 64 },
)

module _ {Request Response : Type 0} (op : ControlOperation Request Response) where
  -- The control header of a request.
  unfoldable pub request_control : SrbIoControl
  request_control = record {
    header_length = srb_size;
    signature = srb_signature;
    timeout = control_timeout_seconds;
    control_code = operation_code op.code;
    return_code = 0;
    message_length = control_buffer_size - srb_size;
  }

  -- The buffer: the two writes over zeros.
  unfoldable pub request_buffer : Request → Bytes
  request_buffer request =
      let written = encode_srb request_control ++ op.request.bytes request in
      written ++ replicate (control_buffer_size - length written) 0

  -- The message behind a header that was found valid.
  unfoldable pub accepted : IoOutput → SrbIoControl → Bytes → Result (Unit {0}) → Result Response
  accepted output control payload (err e) = err e
  accepted output control payload (ok _) =
      if ltb output.count (srb_size + op.response.size)
        || ltb control.message_length op.response.size
      then err
          (message (text "driver returned a shorter response than its success header promised"))
      else let response = (op.response.read payload).0 in
        if not ((op.response.response_header response).struct_size == op.response.size)
        then err (
            message (
              text "driver returned an unexpected response size "
              ++ (decimal (op.response.response_header response).struct_size
                  ++ (text " (expected " ++ (decimal op.response.size ++ text ")")))))
        else ok response

  -- The reading of a completed call.
  unfoldable pub receive : ℕ → IoOutput → Result Response
  receive correlation_id output =
      if ltb output.count (srb_size + 24)
      then err (
          message (
            text "driver returned a truncated control response ("
            ++ (decimal output.count ++ text " bytes)")))
      else let (control, payload) = read_srb output.buffer in
        accepted output control payload
          (validate_response_header op.code correlation_id control (read_response_header payload).0)

  unfoldable pub received : ℕ → Api IoOutput → Result Response
  received correlation_id (failed code) =
      err (context (text "send WispDisk miniport control request") (os_error code))
  received correlation_id (returned output) = receive correlation_id output

  -- `Adapter::send`, on the handle of the adapter.
  unfoldable pub send : {W : Windows} → W.Handle → Request → Io W Response
  send {W} handle request p =
      if ltb control_buffer_size (srb_size + op.response.size)
        || ltb control_buffer_size (srb_size + op.request.size)
      then (err (message (text "internal IOCTL buffer is too small for the protocol message")), p)
      else let (output, os) = W.scsi_miniport handle (request_buffer request) p.os in
        (received (op.request.request_header request).correlation_id output, record p { os = os })
