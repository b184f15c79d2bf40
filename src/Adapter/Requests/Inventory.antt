-- ===== src/Adapter/Requests/Inventory.antt =====
-- cli/src/driver/windows/adapter/mod.rs, what a success of `Adapter::state` is, which the slices
-- `state.disks[..state.disk_count as usize]` of its callers rely on.
use wisp_disk.Base.{
  ℕ, zero, suc, ◌+◌, ◌≤◌, ◌%◌, ◌^◌, ◌≡◌, ◌≢◌, refl, ap, sym, ◌∙◌, not, List, [], ◌∷◌, length, take,
  arith,
}
use mathlib.Core.Path.{subst}
use wisp_disk.Base.Text.{text}
use wisp_disk.Base.Bytes.{Bytes}
use wisp_disk.Protocol.{StateResponse, RequestHeader, is_valid_state}
use wisp_disk.Protocol.Wire.{read_disks, read_state_response}
use wisp_disk.Errors.{message, ok}
use wisp_disk.Machine.{Windows, Process, Io}
use wisp_disk.Machine.Io
use wisp_disk.Machine.Io.{refuse_if, pure, ◌>>=◌, ◌>>◌}
use wisp_disk.Adapter.Operations.{list_state_operation}
use wisp_disk.Adapter.Operations.Contract.{state-IsProtocolResponse}
use wisp_disk.Adapter.Transport.{request_header, send}
use wisp_disk.Adapter.Transport.Checked.{Answers, send-Answers, send-read}
use wisp_disk.Adapter.Requests.{Adapter, query_state, counted_disks}

-- The answer to the request that was sent, with an array that is full and a count that is inside of it,
-- so that the slice has as many entries as are counted; the next request has the next id.
pub record IsInventory {W : Windows} (p : Process W) (state : StateResponse) (p' : Process W)
    : Type 0 where
  pub answers : Answers list_state_operation p.next_correlation_id state
  pub full : length state.disks ≡ 16
  pub counted : state.disk_count ≤ 16
  pub sliced : length (counted_disks state) ≡ state.disk_count
  pub named : state.adapter_instance ≢ 0
  pub next_id : p'.next_correlation_id ≡ (p.next_correlation_id + 1) % 2 ^ 64

length-read_disks : (n : ℕ) (bytes : Bytes) → length (read_disks n bytes).0 ≡ n
unfolding read_disks
length-read_disks zero bytes = refl
length-read_disks (suc n) bytes = ap suc (length-read_disks n _)

length-read_state_response : (bytes : Bytes) → length (read_state_response bytes).0.disks ≡ 16
unfolding read_state_response
length-read_state_response bytes = length-read_disks 16 _

length-take_of_le : {A : Type 0} (n : ℕ) (xs : List A) → n ≤ length xs → length (take n xs) ≡ n
length-take_of_le zero xs h = refl
length-take_of_le (suc n) [] h = absurd (omega (arith, h))
length-take_of_le (suc n) (x ∷ xs) h = ap suc (length-take_of_le n xs (omega (arith, h)))

module _ {W : Windows} where
  -- The rest of `query_state` behind the response.
  checked_inventory : StateResponse → Io W StateResponse
  checked_inventory response = do
    refuse_if (not (is_valid_state response)) (message (text "driver returned invalid inventory"))
    pure response

  checked_inventory-ok :
      (response state : StateResponse) (q p' : Process W)
      → checked_inventory response q ≡ (ok state, p')
      → (response ≡ state)
        × (response.disk_count ≤ length response.disks)
        × (response.adapter_instance ≢ 0)
        × (q ≡ p')
  unfolding checked_inventory is_valid_state
  checked_inventory-ok response state q p' h = ground arith

  request_header-ok :
      (p : Process W) (request : RequestHeader)
      → (request_header list_state_operation p).0 ≡ ok request
      → p.next_correlation_id ≡ request.correlation_id
  unfolding request_header
  request_header-ok p request h = ground arith

  request_header-next_id :
      (p : Process W)
      → (request_header list_state_operation p).1.next_correlation_id
        ≡ (p.next_correlation_id + 1) % 2 ^ 64
  unfolding request_header
  request_header-next_id p = refl

  send-next_id :
      (handle : W.Handle) (request : RequestHeader) (p : Process W)
      → (send list_state_operation handle request p).1.next_correlation_id ≡ p.next_correlation_id
  unfolding send
  send-next_id handle request p = refl

module _ {W : Windows} (adapter : Adapter W) where
  -- A success of Adapter::state is an inventory of sixteen entries that counts at most as many, so
  -- that the slice of the counted entries that its callers take is inside the array and has as
  -- many entries as are counted; it names an adapter instance, answers the request that was sent,
  -- and leaves the correlation id behind it, modulo 2^64, for the next request.
  pub query_state-IsInventory :
      (p : Process W) (state : StateResponse) (p' : Process W)
      → query_state adapter p ≡ (ok state, p')
      → IsInventory p state p'
  unfolding query_state checked_inventory
  query_state-IsInventory p state p' h =
      let q : Process W = (request_header list_state_operation p).1 in
      let (request, made, h1) =
        Io.>>=-eq_ok (request_header list_state_operation)
          (λ request. send list_state_operation adapter.handle request >>= checked_inventory) p h in
      let (response, sent, h2) =
        Io.>>=-eq_ok (send list_state_operation adapter.handle request) checked_inventory q h1 in
      let (same, counted, named, last) = checked_inventory-ok response state _ p' h2 in
      let (payload, read) = send-read list_state_operation adapter.handle request q response sent in
      let full : length response.disks ≡ 16 =
        ap (λ (s : StateResponse). length s.disks) read ∙ length-read_state_response payload in
      let id = request_header-ok p request made in
      subst (λ s. IsInventory p s p') same
        (record {
          answers =
              subst (λ id. Answers list_state_operation id response) (sym id)
                (send-Answers list_state_operation state-IsProtocolResponse adapter.handle request q
                  response sent);
          full = full;
          counted = omega (arith, full, counted);
          sliced = length-take_of_le response.disk_count response.disks counted;
          named = named;
          next_id =
              ap (λ (p : Process W). p.next_correlation_id) (sym last)
              ∙ send-next_id adapter.handle request q
              ∙ request_header-next_id p;
        })
