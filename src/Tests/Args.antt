-- ===== src/Tests/Args.antt =====
-- Runs of cli/src/args.rs.
use wisp_disk.Base.{◌≡◌, ◌↔◌, refl, true, false, none, some, List, [], ◌∷◌, ◌++◌, map, arith}
use wisp_disk.Base.Text.{text, decimal, is_ascii_alphabetic, to_ascii_uppercase, to_ascii_lowercase}
use wisp_disk.Args.{Cli, Command, DriveLetter, fat32, removable, into_command, ok}
use wisp_disk.Args.Validation.{Requests, into_command_iff}
use wisp_disk.Args.Parse.{parsed, parse_drive_letter, parse_byte_size}
use wisp_disk.Args.Parse.Laws.{IsCapital, parse_drive_letter-accepts}
use wisp_disk.Args.Parse.Sizes.{mib, unit_text, unit_bytes, decimal_size, parse_byte_size-decimal}
use wisp_disk.Args.Normalize.{OsString, unicode, normalize_one}
use wisp_disk.Args.Normalize.Laws.{Keyword, keyword, normalize_one-keyword}

abbrev r : DriveLetter
r = record { char = b'R' }

-- `/add /rem /letter:R /size:64MiB /fs:fat32`.
abbrev add_line : Cli
add_line = record {
  add = true;
  delete = false;
  force = false;
  list = false;
  json = false;
  id = none;
  adapter = none;
  hdd = false;
  removable = true;
  letter = some r;
  size = some (record { bytes = 67_108_864 });
  file_system = some fat32;
  log = none;
}

abbrev add_command : Command
add_command = Command.add r removable 67_108_864 fat32

into_command_iff_example : (into_command add_line ≡ ok add_command) ↔ Requests add_line add_command
into_command_iff_example =
    into_command_iff add_line add_command (record { one_operation = refl; one_medium = refl })

parse_byte_size-decimal_example :
    parse_byte_size (decimal 64 ++ unit_text mib) ≡ decimal_size 64 (unit_bytes mib)
parse_byte_size-decimal_example = parse_byte_size-decimal 64 mib

small_r-alphabetic : is_ascii_alphabetic b'r' ≡ true
unfolding is_ascii_alphabetic
small_r-alphabetic = refl

abbrev capital_r : DriveLetter
capital_r = record { char = to_ascii_uppercase b'r' }

small_r-parsed : parse_drive_letter (b'r' ∷ []) ≡ parsed capital_r
small_r-parsed = (parse_drive_letter-accepts b'r' small_r-alphabetic).0

r-IsCapital : IsCapital r
r-IsCapital = (omega arith, omega arith)

size_spelled : map to_ascii_lowercase (text "Size") ≡ text (keyword Keyword.size)
unfolding to_ascii_lowercase text
size_spelled = refl

normalize_one-keyword_example :
    (normalize_one (unicode (b'/' ∷ text "Size"))
      ≡ unicode (text "--" ++ text (keyword Keyword.size)))
    × (normalize_one (unicode (b'/' ∷ text "Size" ++ b':' ∷ text "64MB"))
        ≡ unicode (text "--" ++ (text (keyword Keyword.size) ++ b'=' ∷ text "64MB")))
normalize_one-keyword_example =
    normalize_one-keyword Keyword.size (text "Size") (text "64MB") size_spelled

abbrev line : List OsString
line = unicode (text "/LIST") ∷ unicode (text "/json") ∷ []
