-- ===== src/Adapter/Transport/Checked.antt =====
-- cli/src/driver/windows/adapter/mod.rs, what `send` has checked of a response that it returns.
use wisp_disk.Base.{ℕ, ◌+◌, ◌≤◌, ◌≡◌, sym, ap, ◌∙◌, false, arith}
use mathlib.Core.Path.{subst}
use wisp_disk.Base.Bytes.{Bytes}
use wisp_disk.Protocol.{Operation, operation_code, protocol_version, ResponseHeader, is_negative}
use wisp_disk.Protocol.Wire.{read_response_header}
use wisp_disk.Errors.{Result, ok, err}
use wisp_disk.Machine.{Windows, Process, Api, returned, failed, IoOutput}
use wisp_disk.Adapter.Operations.{ControlOperation}
use wisp_disk.Adapter.Operations.Contract.{IsProtocolResponse}
use wisp_disk.Adapter.Transport.{
  SrbIoControl, read_srb, srb_size, validate_response_header, accepted, receive, received, send,
  request_buffer,
}

-- The header of a response to the request with this correlation id.
pub record AnswersHeader (operation : Operation) (correlation_id : ℕ) (header : ResponseHeader)
    : Type 0 where
  pub same_version : header.protocol_version ≡ protocol_version
  pub same_operation : header.operation ≡ operation_code operation
  pub same_correlation : header.correlation_id ≡ correlation_id
  pub no_failure : is_negative header.status ≡ false

pub validate_response_header-AnswersHeader :
    (operation : Operation) (correlation_id : ℕ) (control : SrbIoControl) (header : ResponseHeader)
    → validate_response_header operation correlation_id control header ≡ ok tt
    → AnswersHeader operation correlation_id header
unfolding validate_response_header
validate_response_header-AnswersHeader operation correlation_id control header h = ground arith

module _ {Request Response : Type 0} (op : ControlOperation Request Response) where
  -- The response is whole and answers the request with this correlation id.
  pub record Answers (correlation_id : ℕ) (response : Response) : Type 0 where
    pub answers_header : AnswersHeader op.code correlation_id (op.response.response_header response)
    pub whole : (op.response.response_header response).struct_size ≡ op.response.size

  accepted-ok :
      (output : IoOutput) (control : SrbIoControl) (payload : Bytes) (valid : Result (Unit {0}))
      (response : Response)
      → accepted op output control payload valid ≡ ok response
      → (valid ≡ ok tt)
        × (response ≡ (op.response.read payload).0)
        × ((op.response.response_header response).struct_size ≡ op.response.size)
        × (srb_size + op.response.size ≤ output.count)
  unfolding accepted
  accepted-ok output control payload (err e) response h = cc
  accepted-ok output control payload (ok tt) response h = ground arith

  receive-accepted :
      (correlation_id : ℕ) (output : IoOutput) (response : Response)
      → receive op correlation_id output ≡ ok response
      → accepted op output (read_srb output.buffer).0 (read_srb output.buffer).1 (
          validate_response_header op.code correlation_id
            (read_srb output.buffer).0
            (read_response_header (read_srb output.buffer).1).0)
        ≡ ok response
  unfolding receive
  receive-accepted correlation_id output response h = ground arith

  receive-Answers :
      IsProtocolResponse op.response
      → (correlation_id : ℕ) (output : IoOutput) (response : Response)
      → receive op correlation_id output ≡ ok response
      → Answers correlation_id response
  receive-Answers contract correlation_id output response h =
      let control = (read_srb output.buffer).0 in
      let payload = (read_srb output.buffer).1 in
      let (valid, same, sized, counted) =
        accepted-ok output control payload
          (validate_response_header op.code correlation_id control (read_response_header payload).0)
          response (receive-accepted correlation_id output response h) in
      record {
        answers_header =
            subst (AnswersHeader op.code correlation_id)
              (sym (ap op.response.response_header same ∙ contract.header_first payload))
              (validate_response_header-AnswersHeader op.code correlation_id control
                (read_response_header payload).0 valid);
        whole = sized;
      }

  received-Answers :
      IsProtocolResponse op.response
      → (correlation_id : ℕ) (output : Api IoOutput) (response : Response)
      → received op correlation_id output ≡ ok response
      → Answers correlation_id response
  unfolding received
  received-Answers contract correlation_id (failed code) response h = cc
  received-Answers contract correlation_id (returned output) response h =
      receive-Answers contract correlation_id output response h

  -- Every response that `send` returns has the protocol's version, the operation and the
  -- correlation id of the request, no failure status, and the size of its type. The response type
  -- has its header first.
  pub send-Answers :
      {W : Windows}
      → IsProtocolResponse op.response
      → (handle : W.Handle) (request : Request) (p : Process W) (response : Response)
      → (send op handle request p).0 ≡ ok response
      → Answers (op.request.request_header request).correlation_id response
  unfolding send
  send-Answers {W} contract handle request p response h =
      received-Answers contract (op.request.request_header request).correlation_id
        (W.scsi_miniport handle (request_buffer op request) p.os).0 response (ground arith)

  received-read :
      (correlation_id : ℕ) (output : Api IoOutput) (response : Response)
      → received op correlation_id output ≡ ok response
      → (payload : Bytes) × (response ≡ (op.response.read payload).0)
  unfolding received
  received-read correlation_id (failed code) response h = cc
  received-read correlation_id (returned output) response h =
      let control = (read_srb output.buffer).0 in
      let payload = (read_srb output.buffer).1 in
      let (valid, same, sized, counted) =
        accepted-ok output control payload
          (validate_response_header op.code correlation_id control (read_response_header payload).0)
          response (receive-accepted correlation_id output response h) in
      (payload, same)

  -- A response that `send` returns was read from bytes.
  pub send-read :
      {W : Windows} (handle : W.Handle) (request : Request) (p : Process W) (response : Response)
      → (send op handle request p).0 ≡ ok response
      → (payload : Bytes) × (response ≡ (op.response.read payload).0)
  unfolding send
  send-read {W} handle request p response h =
      received-read (op.request.request_header request).correlation_id
        (W.scsi_miniport handle (request_buffer op request) p.os).0 response (ground arith)
