-- ===== src/Disk/Absence.antt =====
-- cli/src/driver/windows/disk/mod.rs, `wait_for_physical_disk_absent`: whether a deleted disk has left
-- its SCSI address. The loop runs on fuel, a count of its rounds.
use wisp_disk.Base.{
  ℕ, zero, suc, ◌+◌, ◌*◌, ◌≤◌, ◌<◌, ◌≡◌, ◌≢◌, Bool, false, not, none, some, leb, if◌then◌else◌,
  ◌++◌, arith, Bool-cases, inl, inr,
}
use wisp_disk.Base.Text.{text, decimal}
use wisp_disk.Errors.{Error, message, Result, ok, err}
use wisp_disk.Machine.{Windows, Process, HasClock, M}
use wisp_disk.Machine.Io.{call_for, >>=-time}
use wisp_disk.Adapter.Reserved.{retry_interval}
use wisp_disk.Volume.Identity.{
  ScsiLocation, same_location, physical_disk_address, scsi_location, closing_location,
  open_physical_drive,
}

still_present : ScsiLocation → Error
still_present location = message (
    text "deleted disk at SCSI "
    ++ (decimal location.port
        ++ (text ":"
            ++ (decimal location.path
                ++ (text ":"
                    ++ (decimal location.target
                        ++ (text ":"
                            ++ (decimal location.lun
                                ++ text " remained present for 30 seconds"))))))))

-- `physical_disk_address(number).ok() == Some(location)`.
unfoldable pub answers_at : ScsiLocation → Result ScsiLocation → Bool
answers_at location (ok actual) = same_location actual location
answers_at location (err e) = false

module _ {W : Windows} (number : ℕ) (location : ScsiLocation) where
  unfoldable pub absence_rounds : ℕ → ℕ → M W (Unit {0})
  unfolding still_present answers_at
  absence_rounds deadline zero p = none
  absence_rounds deadline (suc fuel) p =
      let (address, p') = physical_disk_address number p in
      if not (answers_at location address)
      then some (ok tt, p')
      else let (now, os) = W.now p'.os in
        let again = absence_rounds deadline fuel (record p' { os = W.sleep retry_interval os }) in
        if leb deadline now
        then some (err (still_present location), record p' { os = os })
        else again

  unfoldable pub wait_for_physical_disk_absent : ℕ → ℕ → M W (Unit {0})
  wait_for_physical_disk_absent fuel timeout p =
      let (now, os) = W.now p.os in absence_rounds (now + timeout) fuel (record p { os = os })

  -- The last answer to the question where the disk is: nowhere, or at another address.
  pub record IsAbsent (p' : Process W) : Type 0 where
    pub before : Process W
    pub asked_last : (physical_disk_address number before).1 ≡ p'
    pub elsewhere : answers_at location (physical_disk_address number before).0 ≡ false

  absence_rounds-IsAbsent :
      (deadline fuel : ℕ) (p p' : Process W)
      → absence_rounds deadline fuel p ≡ some (ok tt, p')
      → IsAbsent p'
  unfolding absence_rounds
  absence_rounds-IsAbsent deadline zero p p' h = cc
  absence_rounds-IsAbsent deadline (suc fuel) p p' h =
      let q = (physical_disk_address number p).1 in
      elim (Bool-cases (answers_at location (physical_disk_address number p).0)) [
        | inl e ↦
            absence_rounds-IsAbsent deadline fuel
              (record q { os = W.sleep retry_interval (W.now q.os).1 }) p' (ground arith)
        | inr e ↦ record { before = p; asked_last = ground arith; elsewhere = e }
      ]

  -- A success of `wait_for_physical_disk_absent` rests on the last answer for the disk's address.
  pub wait_for_physical_disk_absent-IsAbsent :
      (fuel timeout : ℕ) (p p' : Process W)
      → wait_for_physical_disk_absent fuel timeout p ≡ some (ok tt, p')
      → IsAbsent p'
  unfolding wait_for_physical_disk_absent
  wait_for_physical_disk_absent-IsAbsent fuel timeout p p' h = absence_rounds-IsAbsent _ fuel _ p' h

module _ {W : Windows} (clock : HasClock W) where
  scsi_location-time :
      (handle : W.Handle) (p : Process W)
      → clock.time p.os ≤ clock.time (scsi_location handle p).1.os
  unfolding scsi_location
  scsi_location-time handle p =
      >>=-time clock (call_for (text "query SCSI address") (W.scsi_get_address handle)) _ p
        (clock.scsi_get_address_keeps handle p.os) (λ a q. ground arith)

  closing_location-time :
      (number : ℕ) (handle : W.Handle) (p : Process W)
      → clock.time p.os ≤ clock.time (closing_location number handle p).1.os
  unfolding closing_location
  closing_location-time number handle p = omega (
    arith,
    scsi_location-time handle p,
    clock.close_handle_keeps handle (scsi_location handle p).1.os,
  )

  open_physical_drive-time :
      (number : ℕ) (p : Process W)
      → clock.time p.os ≤ clock.time (open_physical_drive number p).1.os
  unfolding open_physical_drive
  open_physical_drive-time number p =
      clock.create_file_keeps (text "\\\\.\\PhysicalDrive" ++ decimal number) 0 p.os

  physical_disk_address-time :
      (number : ℕ) (p : Process W)
      → clock.time p.os ≤ clock.time (physical_disk_address number p).1.os
  unfolding physical_disk_address
  physical_disk_address-time number p =
      >>=-time clock (open_physical_drive number) (closing_location number) p
        (open_physical_drive-time number p) (closing_location-time number)

  module _ (number : ℕ) (location : ScsiLocation) where
    absence_rounds-returns :
        (deadline rounds fuel : ℕ) (p : Process W)
        → deadline ≤ clock.time p.os + rounds * retry_interval
        → rounds < fuel
        → absence_rounds number location deadline fuel p ≢ none
    unfolding absence_rounds
    absence_rounds-returns deadline rounds zero p late enough = absurd (omega (arith, enough))
    absence_rounds-returns deadline zero (suc fuel) p late enough =
        let q = (physical_disk_address number p).1 in
        ground (arith, physical_disk_address-time number p, clock.now_reads q.os)
    absence_rounds-returns deadline (suc rounds) (suc fuel) p late enough =
        let q = (physical_disk_address number p).1 in
        let asked = physical_disk_address-time number p in
        let read = clock.now_reads q.os in
        let lasted = clock.sleep_lasts retry_interval (W.now q.os).1 in
        ground (
          arith,
          absence_rounds-returns deadline rounds fuel
              (record q { os = W.sleep retry_interval (W.now q.os).1 })
              (omega (arith, late, asked, read.0, read.1, lasted)) (omega (arith, enough)),
        )

    -- With a clock that runs, `wait_for_physical_disk_absent` returns: one round more than the timeout
    -- has intervals is enough.
    pub wait_for_physical_disk_absent-returns :
        (fuel rounds : ℕ) (p : Process W)
        → rounds < fuel
        → wait_for_physical_disk_absent number location fuel (rounds * retry_interval) p ≢ none
    unfolding wait_for_physical_disk_absent
    wait_for_physical_disk_absent-returns fuel rounds p enough =
        absence_rounds-returns _ rounds fuel _ (omega (arith, (clock.now_reads p.os).1)) enough
