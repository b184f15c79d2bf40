-- ===== src/Args/Parse/Laws.antt =====
-- cli/src/args.rs, on what `DriveLetter::from_str` accepts.
use wisp_disk.Base.{ℕ, ◌≤◌, ◌≡◌, true, false, [], ◌∷◌, arith}
use wisp_disk.Base.Text.{
  Text, trim, trim_end_matches, trim_start_matches, is_whitespace, is_ascii_alphabetic,
  to_ascii_uppercase,
}
use wisp_disk.Args.{DriveLetter}
use wisp_disk.Args.Display.{show_drive_letter}
use wisp_disk.Args.Parse.{parsed, parse_drive_letter, drive_letter_chars, is_colon}

-- An ASCII capital, which is what the drive-letter bit mask is indexed by.
abbrev pub IsCapital : DriveLetter → Type 0
IsCapital letter = (b'A' ≤ letter.char) × (letter.char ≤ b'Z')

drive_letter_chars-IsCapital :
    (s : Text) (letter : DriveLetter) → drive_letter_chars s ≡ parsed letter → IsCapital letter
unfolding drive_letter_chars is_ascii_alphabetic to_ascii_uppercase
drive_letter_chars-IsCapital [] letter h = cc
drive_letter_chars-IsCapital (c ∷ []) letter h = ground arith
drive_letter_chars-IsCapital (c ∷ d ∷ s) letter h = cc

-- Every drive letter that is accepted is a capital.
pub parse_drive_letter-IsCapital :
    (value : Text) (letter : DriveLetter)
    → parse_drive_letter value ≡ parsed letter
    → IsCapital letter
unfolding parse_drive_letter
parse_drive_letter-IsCapital value letter h =
    drive_letter_chars-IsCapital (trim_end_matches is_colon (trim value)) letter h

letter-not_space : (c : ℕ) → is_ascii_alphabetic c ≡ true → is_whitespace c ≡ false
unfolding is_ascii_alphabetic is_whitespace
letter-not_space c h = ground arith

letter-not_colon : (c : ℕ) → is_ascii_alphabetic c ≡ true → is_colon c ≡ false
unfolding is_ascii_alphabetic
letter-not_colon c h = ground arith

-- One ASCII letter, in either case, bare or with a colon, is read as its capital.
pub parse_drive_letter-accepts :
    (c : ℕ)
    → is_ascii_alphabetic c ≡ true
    → (parse_drive_letter (c ∷ []) ≡ parsed (record { char = to_ascii_uppercase c }))
      × (parse_drive_letter (c ∷ b':' ∷ []) ≡ parsed (record { char = to_ascii_uppercase c }))
unfolding parse_drive_letter trim_start_matches trim_end_matches is_ascii_alphabetic is_whitespace
parse_drive_letter-accepts c h = ground arith

-- Every drive letter that can be accepted is read back from its printed form.
pub parse_drive_letter-show :
    (letter : DriveLetter)
    → IsCapital letter
    → parse_drive_letter (show_drive_letter letter) ≡ parsed letter
unfolding parse_drive_letter trim_start_matches show_drive_letter
parse_drive_letter-show letter h = ground arith
