-- ===== src/Adapter/Transport/Sent.antt =====
-- cli/src/driver/windows/adapter/mod.rs, what `send` puts into the buffer of the control call.
use mathlib.Core.Path.{subst}
use wisp_disk.Base.{
  ℕ, ◌+◌, ◌-◌, ◌≤◌, ◌<◌, ◌^◌, ◌≡◌, refl, ap, ◌∙◌, ◌++◌, arith, append_assoc, length, replicate,
  take, drop, length-append, length-replicate, take-append, drop-append,
}
use wisp_disk.Base.Bytes.{Bytes, length-le_bytes, read_le-le_bytes}
use wisp_disk.Protocol.{Operation, query_version, operation_code}
use wisp_disk.Adapter.Operations.{ControlOperation}
use wisp_disk.Adapter.Operations.Contract.{IsProtocolRequest}
use wisp_disk.Adapter.Transport.{
  SrbIoControl, encode_srb, read_srb, srb_size, control_buffer_size, request_control,
  request_buffer,
}

pub record SrbFits (c : SrbIoControl) : Type 0 where
  pub header_length_fits : c.header_length < 256 ^ 4
  pub signature_length : length c.signature ≡ 8
  pub timeout_fits : c.timeout < 256 ^ 4
  pub control_code_fits : c.control_code < 256 ^ 4
  pub return_code_fits : c.return_code < 256 ^ 4
  pub message_length_fits : c.message_length < 256 ^ 4

take-signature : (s rest : Bytes) → length s ≡ 8 → take 8 (s ++ rest) ≡ s
take-signature s rest h = subst (λ n. take n (s ++ rest) ≡ s) h (take-append s rest)

drop-signature : (s rest : Bytes) → length s ≡ 8 → drop 8 (s ++ rest) ≡ rest
drop-signature s rest h = subst (λ n. drop n (s ++ rest) ≡ rest) h (drop-append s rest)

read_srb-encode_srb :
    (c : SrbIoControl) → SrbFits c → (rest : Bytes) → read_srb (encode_srb c ++ rest) ≡ (c, rest)
unfolding read_srb encode_srb
read_srb-encode_srb c h rest = simp (
  append_assoc,
  read_le-le_bytes 4 c.header_length h.header_length_fits,
  (λ (t : Bytes). take-signature c.signature t h.signature_length),
  (λ (t : Bytes). drop-signature c.signature t h.signature_length),
  read_le-le_bytes 4 c.timeout h.timeout_fits,
  read_le-le_bytes 4 c.control_code h.control_code_fits,
  read_le-le_bytes 4 c.return_code h.return_code_fits,
  read_le-le_bytes 4 c.message_length h.message_length_fits,
)

length-encode_srb : (c : SrbIoControl) → SrbFits c → length (encode_srb c) ≡ srb_size
unfolding encode_srb
length-encode_srb c h = simp (length-append, length-le_bytes, h.signature_length)

operation_code-fits : (operation : Operation) → operation_code operation < 256 ^ 4
operation_code-fits query_version = omega arith
operation_code-fits operation = omega arith

module _ {Request Response : Type 0} (op : ControlOperation Request Response) where
  request_control-SrbFits : SrbFits (request_control op)
  unfolding request_control
  request_control-SrbFits = record {
    header_length_fits = omega arith;
    signature_length = refl;
    timeout_fits = omega arith;
    control_code_fits = operation_code-fits op.code;
    return_code_fits = omega arith;
    message_length_fits = omega arith;
  }

  -- What the driver finds in the buffer of a request: its size is that of the buffer, and behind the
  -- control header it holds the request, read back field by field.
  pub record Carries (contract : IsProtocolRequest op.request) (request : Request) : Type 0 where
    pub full : length (request_buffer op request) ≡ control_buffer_size
    pub control : (read_srb (request_buffer op request)).0 ≡ request_control op
    pub payload : (contract.read (read_srb (request_buffer op request)).1).0 ≡ request

  buffer-read :
      (contract : IsProtocolRequest op.request) (request : Request)
      → read_srb (request_buffer op request) ≡ (
        request_control op,
        op.request.bytes request
            ++ replicate
                (control_buffer_size
                  - length (encode_srb (request_control op) ++ op.request.bytes request))
                0,
      )
  unfolding request_buffer
  buffer-read contract request =
      simp (append_assoc, read_srb-encode_srb (request_control op) request_control-SrbFits)

  -- A request whose fields are in range and that fits the buffer reaches the driver whole, in a
  -- buffer of exactly the size that the call announces.
  pub request_buffer-Carries :
      (contract : IsProtocolRequest op.request) (request : Request)
      → contract.Fits request
      → srb_size + op.request.size ≤ control_buffer_size
      → Carries contract request
  unfolding request_buffer
  request_buffer-Carries contract request fits room = record {
    full = omega (
      arith,
      length-append (encode_srb (request_control op) ++ op.request.bytes request) (
          replicate
            (control_buffer_size
              - length (encode_srb (request_control op) ++ op.request.bytes request))
            0),
      length-replicate {A = ℕ}
          (control_buffer_size
            - length (encode_srb (request_control op) ++ op.request.bytes request))
          0,
      length-append (encode_srb (request_control op)) (op.request.bytes request),
      length-encode_srb (request_control op) request_control-SrbFits,
      contract.sized request,
    );
    control = ap (λ (t : SrbIoControl × Bytes). t.0) (buffer-read contract request);
    payload =
        ap (λ (t : SrbIoControl × Bytes). (contract.read t.1).0) (buffer-read contract request)
        ∙ ap (λ (t : Request × Bytes). t.0) (contract.read_back request fits _);
  }
