-- ===== src/Disk/Arrival/Appeared.antt =====
-- cli/src/driver/windows/disk/mod.rs, what a success of `wait_for_physical_disk` rests on.
use wisp_disk.Base.{ℕ, ◌≡◌, Option, none, some, arith}
use wisp_disk.Errors.{Result, ok, err}
use wisp_disk.Machine.{Windows, Process}
use wisp_disk.Machine.Polling.{poll-found}
use wisp_disk.Volume.Identity.{ScsiLocation}
use wisp_disk.Disk.Interfaces.{find_physical_disk}
use wisp_disk.Disk.Arrival.{
  DiskInterfaceNotification, dropping, drop_notification, pause, no_arrival, polled,
  new_notification, wait_for_physical_disk,
}

module _ {W : Windows} (fuel : ℕ) (location : ScsiLocation) (timeout : ℕ) where
  dropping-eq_ok :
      (notification : DiskInterfaceNotification W) (o : Option (Result ℕ × Process W)) {number : ℕ}
      {p' : Process W}
      → dropping notification o ≡ some (ok number, p')
      → (q : Process W) × (o ≡ some (ok number, q)) × (drop_notification notification q ≡ p')
  unfolding dropping
  dropping-eq_ok notification none h = cc
  dropping-eq_ok notification (some (r, q)) h = (q, ground arith, ground arith)

  polled-found :
      (r : Result (DiskInterfaceNotification W) × Process W) {number : ℕ} {p' : Process W}
      → polled fuel location timeout r ≡ some (ok number, p')
      → (notification : DiskInterfaceNotification W) × (before after : Process W)
        × (find_physical_disk fuel location before ≡ some (ok (some number), after))
        × (drop_notification notification after ≡ p')
  unfolding polled
  polled-found (err e, p) h = cc
  polled-found (ok notification, p) h =
      let (q, found, last) = dropping-eq_ok notification _ h in
      let (before, looked) =
        poll-found (find_physical_disk fuel location) (pause notification) (no_arrival location) _
          fuel _ found in
      (notification, before, q, looked, last)

  -- The disk that `wait_for_physical_disk` yields was found by its last search; behind that the
  -- subscription ends.
  pub wait_for_physical_disk-found :
      (p : Process W) (number : ℕ) (p' : Process W)
      → wait_for_physical_disk fuel location timeout p ≡ some (ok number, p')
      → (notification : DiskInterfaceNotification W) × (before after : Process W)
        × (find_physical_disk fuel location before ≡ some (ok (some number), after))
        × (drop_notification notification after ≡ p')
  unfolding wait_for_physical_disk
  wait_for_physical_disk-found p number p' h = polled-found (new_notification p) h
