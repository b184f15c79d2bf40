-- ===== src/Adapter/Reserved/Schedule.antt =====
-- cli/src/driver/windows/adapter/reserved_operation.rs, on the waits that the deadline of a reserved
-- operation allows.
use wisp_disk.Base.{ℕ, ◌+◌, ◌-◌, ◌/◌, ◌≤◌, ◌<◌, ◌≡◌, true, arith}
use wisp_disk.Protocol.{OperationResponse}
use wisp_disk.Errors.{OperationHandle}
use wisp_disk.Recovery.Deadline.{HasDeadline}
use wisp_disk.Machine.{Windows, Process, HasClock}
use wisp_disk.Adapter.Operations.{ControlOperation, query_result_operation}
use wisp_disk.Adapter.Transport.{send, request_buffer}
use wisp_disk.Adapter.Reserved.{
  retry_interval, query_operation, wait_for_retry, reserved_attempt, new_deadline,
}

module _ {W : Windows} (clock : HasClock W) where
  open clock use {time, now_reads, sleep_lasts, miniport_keeps}

  -- The waits that a deadline still allows.
  abbrev pub waits_left : ℕ → Process W → ℕ
  waits_left deadline p = (deadline - time p.os + (retry_interval - 1)) / retry_interval

  send-time :
      {Request Response : Type 0} (op : ControlOperation Request Response) (handle : W.Handle)
      (request : Request) (p : Process W)
      → time p.os ≤ time (send op handle request p).1.os
  unfolding send
  send-time op handle request p =
      ground (arith, miniport_keeps handle (request_buffer op request) p.os)

  query-time :
      (adapter : W.Handle) (handle : OperationHandle) (p : Process W)
      → time p.os ≤ time (query_operation adapter handle p).1.os
  unfolding query_operation
  query-time adapter handle p = send-time query_result_operation adapter _ _

  wait-time :
      (deadline : ℕ) (p : Process W)
      → (wait_for_retry deadline p).0 ≡ true
      → waits_left deadline (wait_for_retry deadline p).1 < waits_left deadline p
  unfolding wait_for_retry
  wait-time deadline p h =
      let n = W.now p.os in
      ground (
        arith,
        now_reads p.os,
        sleep_lasts (deadline - n.0) n.1,
        sleep_lasts retry_interval n.1,
        now_reads (W.sleep (deadline - n.0) n.1),
        now_reads (W.sleep retry_interval n.1),
      )

  le-waits_left :
      (deadline a b : ℕ)
      → a ≤ b
      → (deadline - b + (retry_interval - 1)) / retry_interval
        ≤ (deadline - a + (retry_interval - 1)) / retry_interval
  le-waits_left deadline a b h = omega arith

  module _ {Request : Type 0} (op : ControlOperation Request OperationResponse) (adapter : W.Handle)
      (request : Request) (handle : OperationHandle) where
    pub reserved_attempt-HasDeadline :
        (deadline : ℕ)
        → HasDeadline (reserved_attempt op adapter request handle deadline) (waits_left deadline)
    reserved_attempt-HasDeadline deadline = record {
      submit_keeps = λ p.
          le-waits_left deadline (time p.os) (time (send op adapter request p).1.os)
            (send-time op adapter request p);
      query_keeps = λ p.
          le-waits_left deadline (time p.os) (time (query_operation adapter handle p).1.os)
            (query-time adapter handle p);
      wait_falls = wait-time deadline;
    }

  -- A fresh deadline allows 150 waits.
  pub new_deadline-waits : (p : Process W) → waits_left (new_deadline p).0 (new_deadline p).1 ≤ 150
  unfolding new_deadline
  new_deadline-waits p = omega (arith, now_reads p.os)
