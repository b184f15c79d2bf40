-- ===== src/BuildTool/Images.antt =====
-- scripts/build-tool/src/main.rs, the machine type of a PE image. A file is its bytes; the errors of
-- opening and seeking are not modelled.
pub mod Bounds
use wisp_disk.Base.{
  ℕ, ◌+◌, ◌-◌, Bool, not, Option, none, some, List, [], ◌∷◌, ◌++◌, ltb, leb, ◌==◌, if◌then◌else◌,
  length, take, drop,
}
use wisp_disk.Base.Text.{Text, text, hex_upper}
use wisp_disk.Base.Bytes.{Bytes, read_le}
use wisp_disk.BuildTool.{BuildResult, built, refused, and_then}
use wisp_disk.BuildTool.Options.{Platform, platform_machine_type, pe_machine_type_name}

unfoldable pub refuse_if : {A : Type 0} → Bool → Text → BuildResult A → BuildResult A
refuse_if test e rest = if test then refused e else rest

-- The number that stands in some bytes of a file.
abbrev pub field : (width offset : ℕ) → Bytes → ℕ
field width offset file = (read_le width (drop offset file)).0

-- `seek` and `read_exact`.
unfoldable pub read_at : Text → Text → (width offset : ℕ) → Bytes → BuildResult ℕ
read_at action path width offset file =
    if leb (offset + width) (length file)
    then built (field width offset file)
    else refused (
        text "failed to "
        ++ (action ++ (text " '" ++ (path ++ text "': failed to fill whole buffer"))))

machine_at : Text → Bytes → ℕ → BuildResult ℕ
machine_at path file pe_offset =
    refuse_if (ltb (length file - 6) pe_offset)
      (text "PE header offset is outside the file: " ++ path)
      (and_then (read_at (text "read PE signature") path 4 pe_offset file) (λ signature.
        refuse_if (not (signature == 0x0000_4550)) (text "PE signature is invalid: " ++ path)
          (read_at (text "read PE machine") path 2 (pe_offset + 4) file)))

-- `pe_machine_type`, of a file that is there.
unfoldable pub pe_machine_type : Text → Bytes → BuildResult ℕ
unfolding machine_at
pe_machine_type path file =
    refuse_if (ltb (length file) 64) (text "file is too short to be a PE image: " ++ path) (
      and_then (read_at (text "read DOS signature") path 2 0 file) (λ word.
        refuse_if (not (word == 0x5a4d)) (text "file is not a valid PE image: " ++ path)
          (and_then (read_at (text "read PE offset") path 4 0x3c file) (machine_at path file))))

unfoldable pub confirm_pe_architecture : Text → Bytes → Platform → BuildResult (Unit {0})
confirm_pe_architecture path file platform = and_then (pe_machine_type path file) (λ actual.
    if not (actual == platform_machine_type platform)
    then refused (
        text "architecture mismatch for '"
        ++ (path
            ++ (text "': expected "
                ++ (pe_machine_type_name platform
                    ++ (text " (0x"
                        ++ (hex_upper 4 (platform_machine_type platform)
                            ++ (text "), found 0x" ++ hex_upper 4 actual)))))))
    else built tt)
