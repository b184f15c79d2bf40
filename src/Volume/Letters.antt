-- ===== src/Volume/Letters.antt =====
-- cli/src/driver/windows/volume/mod.rs, the drive letters that Windows has in use, and the wait for
-- one to come or go. The loop runs on fuel, a count of its rounds.
use Prim.Native.Nat.{bit_and}
use wisp_disk.Base.{
  Bool-cases, inl, inr, ◌<◌, ◌≢◌, arith, ◌≤◌, ℕ, zero, suc, ◌+◌, ◌-◌, ◌*◌, ◌^◌, ◌≡◌, Bool, true,
  false, not, Option, none, some, ◌++◌, leb, ◌==◌, if◌then◌else◌,
}
use wisp_disk.Base.Text.{text}
use wisp_disk.Errors.{Error, message, Result, ok, err}
use wisp_disk.Args.{DriveLetter}
use wisp_disk.Args.Display.{show_drive_letter}
use wisp_disk.Machine.{Windows, Process, Io, M}
use wisp_disk.Machine.Io.{ask, refuse_if, pure, ◌>>=◌}
use wisp_disk.Machine.{HasClock}
use wisp_disk.Adapter.Reserved.{retry_interval}

unfoldable pub letter_bit : DriveLetter → ℕ
letter_bit letter = 2 ^ (letter.char - b'A')

abbrev same_bool : Bool → Bool → Bool
same_bool true b = b
same_bool false b = not b

not_in_time : DriveLetter → Bool → Error
not_in_time letter expected_present = message (
    text "drive "
    ++ (show_drive_letter letter
        ++ (text " did not "
            ++ ((if expected_present then text "appear" else text "disappear")
                ++ text " within 30 seconds"))))

module _ {W : Windows} where
  unfoldable pub drive_letter_in_use : DriveLetter → Io W Bool
  unfolding letter_bit
  drive_letter_in_use letter = do
    drives ← ask W.logical_drives
    pure (not (bit_and drives (letter_bit letter) == 0))

  unfoldable pub ensure_drive_letter_available : DriveLetter → Io W (Unit {0})
  ensure_drive_letter_available letter = do
    used ← drive_letter_in_use letter
    refuse_if used
        (message (text "drive letter " ++ (show_drive_letter letter ++ text " is already in use")))

  -- What a round comes to; `again` is the rest of the loop.
  waited :
      DriveLetter
      → Bool
      → ℕ
      → M W (Unit {0})
      → Result Bool × Process W
      → Option (Result (Unit {0}) × Process W)
  unfolding not_in_time
  waited letter expected_present deadline again (err e, p) = some (err e, p)
  waited letter expected_present deadline again (ok used, p) =
      if same_bool used expected_present
      then some (ok tt, p)
      else let (now, os) = W.now p.os in
        if leb deadline now
        then some (err (not_in_time letter expected_present), record p { os = os })
        else again (record p { os = W.sleep retry_interval os })

  wait_rounds : DriveLetter → Bool → ℕ → ℕ → M W (Unit {0})
  unfolding waited
  wait_rounds letter expected_present deadline zero p = none
  wait_rounds letter expected_present deadline (suc fuel) p =
      waited letter expected_present deadline (wait_rounds letter expected_present deadline fuel)
        (drive_letter_in_use letter p)

  unfoldable pub wait_for_drive_state : ℕ → DriveLetter → Bool → ℕ → M W (Unit {0})
  unfolding wait_rounds
  wait_for_drive_state fuel letter expected_present timeout p =
      let (now, os) = W.now p.os in
      wait_rounds letter expected_present (now + timeout) fuel (record p { os = os })

  -- The last look at the drive letters, in the state that is left.
  abbrev pub Shows : DriveLetter → Bool → Process W → Type 0
  Shows letter present p' =
      (s : W.State) × (same_bool (not (bit_and (W.logical_drives s).0 (letter_bit letter) == 0))
          present
        ≡ true)
      × ((W.logical_drives s).1 ≡ p'.os)

  wait_rounds-Shows :
      (letter : DriveLetter) (present : Bool) (deadline fuel : ℕ) (p p' : Process W)
      → wait_rounds letter present deadline fuel p ≡ some (ok tt, p')
      → Shows letter present p'
  unfolding wait_rounds waited drive_letter_in_use
  wait_rounds-Shows letter present deadline zero p p' h = cc
  wait_rounds-Shows letter present deadline (suc fuel) p p' h =
      let looked = (W.logical_drives p.os).1 in
      elim (Bool-cases
        (same_bool (not (bit_and (W.logical_drives p.os).0 (letter_bit letter) == 0)) present)) [
          | inl e ↦ (p.os, e, ground arith)
          | inr e ↦
              wait_rounds-Shows letter present deadline fuel
                (record p { os = W.sleep retry_interval (W.now looked).1 }) p' (ground arith)
        ]

  -- A success of `wait_for_drive_state` rests on the last look at the drive letters.
  pub wait_for_drive_state-Shows :
      (fuel : ℕ) (letter : DriveLetter) (present : Bool) (timeout : ℕ) (p p' : Process W)
      → wait_for_drive_state fuel letter present timeout p ≡ some (ok tt, p')
      → Shows letter present p'
  unfolding wait_for_drive_state
  wait_for_drive_state-Shows fuel letter present timeout p p' h =
      wait_rounds-Shows letter present _ fuel _ p' h

module _ {W : Windows} (clock : HasClock W) (letter : DriveLetter) (present : Bool) where
  wait_rounds-returns :
      (deadline rounds fuel : ℕ) (p : Process W)
      → deadline ≤ clock.time p.os + rounds * retry_interval
      → rounds < fuel
      → wait_rounds letter present deadline fuel p ≢ none
  unfolding wait_rounds waited drive_letter_in_use
  wait_rounds-returns deadline rounds zero p late enough = absurd (omega (arith, enough))
  wait_rounds-returns deadline zero (suc fuel) p late enough =
      let looked = (W.logical_drives p.os).1 in
      ground (arith, clock.logical_drives_keeps p.os, clock.now_reads looked)
  wait_rounds-returns deadline (suc rounds) (suc fuel) p late enough =
      let looked = (W.logical_drives p.os).1 in
      let slept = W.sleep retry_interval (W.now looked).1 in
      let kept = clock.logical_drives_keeps p.os in
      let read = clock.now_reads looked in
      let lasted = clock.sleep_lasts retry_interval (W.now looked).1 in
      ground (
        arith,
        wait_rounds-returns deadline rounds fuel (record p { os = slept })
            (omega (arith, late, kept, read.0, read.1, lasted)) (omega (arith, enough)),
      )

  -- With a clock that runs, `wait_for_drive_state` returns: one round more than the timeout has
  -- intervals is enough.
  pub wait_for_drive_state-returns :
      (fuel rounds : ℕ) (p : Process W)
      → rounds < fuel
      → wait_for_drive_state fuel letter present (rounds * retry_interval) p ≢ none
  unfolding wait_for_drive_state
  wait_for_drive_state-returns fuel rounds p enough =
      wait_rounds-returns _ rounds fuel _ (omega (arith, (clock.now_reads p.os).1)) enough
