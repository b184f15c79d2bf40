-- ===== src/Disk/Arrival.antt =====
-- cli/src/driver/windows/disk/interface_notification.rs, the subscription to disk arrivals, and the wait
-- for a new disk of cli/src/driver/windows/disk/mod.rs. The wait and the searches in it run on fuel.
pub mod Appeared
use wisp_disk.Base.{
  ℕ, ◌+◌, ◌-◌, ◌*◌, ◌/◌, ◌^◌, Bool, not, Option, none, some, ◌++◌, leb, ◌==◌, if◌then◌else◌,
}
use wisp_disk.Base.Text.{Text, text, decimal}
use wisp_disk.Errors.{Error, message, os_error, context, Result, ok, err}
use wisp_disk.Machine.{Windows, Process, WaitStatus, Io, M}
use wisp_disk.Machine.Io.{call_for, ask, pure, tell, of_result, ◌>>=◌}
use wisp_disk.Machine.Polling.{poll}
use wisp_disk.Adapter.Reserved.{retry_interval}
use wisp_disk.Volume.Identity.{ScsiLocation}
use wisp_disk.Disk.Interfaces.{find_physical_disk, show_location}

-- `CR_SUCCESS`.
abbrev cr_success : ℕ
cr_success = 0

min : ℕ → ℕ → ℕ
min a b = if leb a b then a else b

-- `timeout.as_millis().min(u128::from(u32::MAX))`.
unfoldable pub wait_milliseconds : ℕ → ℕ
unfolding min
wait_milliseconds timeout = min (timeout / 1_000_000) (2 ^ 32 - 1)

registration_error : ℕ → Error
registration_error status = message (
    text "register for disk-interface arrival notifications: Configuration Manager error "
    ++ decimal status)

no_arrival : ScsiLocation → Error
unfolding show_location
no_arrival location = message (
    text "new disk at SCSI "
    ++ (show_location location ++ text " did not appear within 30 seconds"))

pub record DiskInterfaceNotification (W : Windows) : Type 0 where
  pub handle : W.Handle
  pub event : W.Handle

waited : WaitStatus → Result (Unit {0})
waited WaitStatus.signalled = ok tt
waited WaitStatus.timed_out = ok tt
waited (WaitStatus.wait_failed code) =
    err (context (text "wait for disk-interface arrival") (os_error code))

module _ {W : Windows} where
  -- The event is closed when the registration fails.
  registered : W.Handle → ℕ × W.Handle → Io W (DiskInterfaceNotification W)
  unfolding registration_error
  registered event (status, handle) p =
      if not (status == cr_success)
      then (err (registration_error status), record p { os = W.close_handle event p.os })
      else (ok (record { handle = handle; event = event }), p)

  -- `DiskInterfaceNotification::new`.
  unfoldable pub new_notification : Io W (DiskInterfaceNotification W)
  unfolding registered
  new_notification = do
    event ← call_for (text "create disk-arrival notification event") W.create_event
    reply ← ask (W.register_notification event)
    registered event reply

  -- `DiskInterfaceNotification::wait`.
  unfoldable pub wait : DiskInterfaceNotification W → ℕ → Io W (Unit {0})
  unfolding waited
  wait notification timeout = do
    status ← ask (W.wait_for_event notification.event (wait_milliseconds timeout))
    of_result (waited status)

  -- The drop: the subscription first, then its event.
  unfoldable pub drop_notification : DiskInterfaceNotification W → Process W → Process W
  drop_notification notification p = record p {
    os = W.close_handle notification.event (W.unregister_notification notification.handle p.os);
  }

  pause : DiskInterfaceNotification W → ℕ → ℕ → Io W (Unit {0})
  unfolding min
  pause notification deadline now = wait notification (min (deadline - now) retry_interval)

  dropping :
      DiskInterfaceNotification W → Option (Result ℕ × Process W) → Option (Result ℕ × Process W)
  dropping notification none = none
  dropping notification (some (r, p)) = some (r, drop_notification notification p)

  polled :
      ℕ
      → ScsiLocation
      → ℕ
      → Result (DiskInterfaceNotification W) × Process W
      → Option (Result ℕ × Process W)
  unfolding dropping pause no_arrival
  polled fuel location timeout (err e, p) = some (err e, p)
  polled fuel location timeout (ok notification, p) =
      let (now, os) = W.now p.os in
      dropping notification (
        poll (find_physical_disk fuel location) (pause notification) (no_arrival location)
          (now + timeout) fuel (record p { os = os }))

  unfoldable pub wait_for_physical_disk : ℕ → ScsiLocation → ℕ → M W ℕ
  unfolding polled
  wait_for_physical_disk fuel location timeout p = polled fuel location timeout (new_notification p)
