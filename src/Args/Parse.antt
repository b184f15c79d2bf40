-- ===== src/Args/Parse.antt =====
-- cli/src/args.rs, the `FromStr` implementations of `FileSystem`, `DriveLetter` and `ByteSize`.
-- Their error type is the message.
pub mod Laws
pub mod Sizes
use wisp_disk.Base.{
  ℕ, zero, suc, ◌+◌, ◌-◌, ◌*◌, ◌^◌, Bool, true, false, not, ◌&&◌, ◌||◌, Option, none, some, List,
  [], ◌∷◌, ltb, ◌==◌, if◌then◌else◌, map,
}
use wisp_disk.Base.Text.{
  Text, text, text_eq, trim, trim_end_matches, is_ascii_digit, is_ascii_alphabetic,
  to_ascii_uppercase,
}
use wisp_disk.Args.{FileSystem, fat, fat32, ntfs, DriveLetter, ByteSize}

pub data Parsed (A : Type 0) : Type 0 where
  parsed : A → Parsed A
  failed : Text → Parsed A

abbrev u64_end : ℕ
u64_end = 2 ^ 64

file_system_name : Text → Parsed FileSystem
file_system_name name =
    if text_eq name (text "FAT")
    then parsed fat
    else if text_eq name (text "FAT32")
    then parsed fat32
    else if text_eq name (text "NTFS")
    then parsed ntfs
    else failed (text "file system must be FAT, FAT32, or NTFS")

unfoldable pub parse_file_system : Text → Parsed FileSystem
unfolding file_system_name trim to_ascii_uppercase text text_eq
parse_file_system value = file_system_name (map to_ascii_uppercase (trim value))

abbrev is_colon : ℕ → Bool
is_colon c = c == b':'

drive_letter_chars : Text → Parsed DriveLetter
drive_letter_chars [] = failed (text "drive letter is empty")
drive_letter_chars (letter ∷ []) =
    if is_ascii_alphabetic letter
    then parsed (record { char = to_ascii_uppercase letter })
    else failed (text "drive letter must be one ASCII letter, such as R or R:")
drive_letter_chars (letter ∷ next ∷ rest) =
    failed (text "drive letter must be one ASCII letter, such as R or R:")

unfoldable pub parse_drive_letter : Text → Parsed DriveLetter
unfolding drive_letter_chars trim trim_end_matches is_ascii_alphabetic to_ascii_uppercase text
parse_drive_letter value = drive_letter_chars (trim_end_matches is_colon (trim value))

abbrev is_number_char : ℕ → Bool
is_number_char c = is_ascii_digit c || c == b'_'

-- `value.split_at(split_at)` with `split_at` at the first character that is neither a digit nor an
-- underscore.
number_part : Text → Text
number_part [] = []
number_part (c ∷ s) = let rest = number_part s in if is_number_char c then c ∷ rest else []

suffix_part : Text → Text
suffix_part [] = []
suffix_part (c ∷ s) = let rest = suffix_part s in if is_number_char c then rest else c ∷ s

-- `number.replace('_', "")`.
without_underscores : Text → Text
without_underscores [] = []
without_underscores (c ∷ s) =
    let rest = without_underscores s in if c == b'_' then rest else c ∷ rest

-- `str::parse::<u64>` over digits: both steps of each round are checked for overflow.
digits_u64 : ℕ → Text → Option ℕ
digits_u64 acc [] = some acc
digits_u64 acc (c ∷ s) =
    let rest = digits_u64 (acc * 10 + (c - 48)) s in
    if ltb (acc * 10) u64_end && ltb (acc * 10 + (c - 48)) u64_end then rest else none

multiplier : Text → Option ℕ
multiplier suffix =
    if text_eq suffix [] || text_eq suffix (text "B")
    then some 1
    else if text_eq suffix (text "KB")
    then some 1_000
    else if text_eq suffix (text "KIB")
    then some 1_024
    else if text_eq suffix (text "MB")
    then some 1_000_000
    else if text_eq suffix (text "MIB")
    then some 1_048_576
    else if text_eq suffix (text "GB")
    then some 1_000_000_000
    else if text_eq suffix (text "GIB")
    then some 1_073_741_824
    else if text_eq suffix (text "TB")
    then some 1_000_000_000_000
    else if text_eq suffix (text "TIB")
    then some 1_099_511_627_776
    else none

scaled_size : ℕ → Option ℕ → Parsed ByteSize
scaled_size amount none =
    failed (text "unknown size suffix; use B, KB, KiB, MB, MiB, GB, GiB, TB, or TiB")
scaled_size amount (some factor) =
    if ltb (amount * factor) u64_end
    then parsed (record { bytes = amount * factor })
    else failed (text "size is too large")

size_amount : Option ℕ → Text → Parsed ByteSize
unfolding scaled_size
size_amount none suffix = failed (text "size is not a valid 64-bit integer")
size_amount (some amount) suffix = scaled_size amount (multiplier (map to_ascii_uppercase suffix))

size_number : Text → Text → Parsed ByteSize
unfolding size_amount digits_u64
size_number [] suffix = failed (text "size must start with an integer")
size_number (c ∷ s) suffix = size_amount (digits_u64 0 (c ∷ s)) suffix

size_text : Text → Parsed ByteSize
unfolding size_number number_part suffix_part without_underscores
size_text value = size_number (without_underscores (number_part value)) (suffix_part value)

unfoldable pub parse_byte_size : Text → Parsed ByteSize
unfolding size_text multiplier trim is_ascii_digit to_ascii_uppercase text text_eq
parse_byte_size value = size_text (trim value)
