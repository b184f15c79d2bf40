-- ===== src/Tests/BuildTool.antt =====
-- Runs of scripts/build-tool/src/main.rs, and of cli/src/driver/windows/inventory.rs.
use wisp_disk.Base.{◌≡◌, ◌≢◌, ◌↔◌, refl, true, [], ◌∷◌, ◌++◌, replicate}
use wisp_disk.Base.Text.{text, is_ascii_whitespace, is_ascii_hexdigit, to_ascii_uppercase}
use wisp_disk.Base.Bytes.{Bytes}
use wisp_disk.BuildTool.{built}
use wisp_disk.BuildTool.Digests.{
  contains_bytes, normalize_thumbprint, without_whitespace, utf8_length,
}
use wisp_disk.BuildTool.Digests.Infix.{IsInfix, contains_bytes_iff}
use wisp_disk.BuildTool.Images.{pe_machine_type}
use wisp_disk.BuildTool.Images.Bounds.{IsImage, pe_machine_type_iff}

contains_bytes_iff_example :
    (contains_bytes (text "prefix-signed") (text "signed") ≡ true)
    ↔ ((text "signed" ≢ []) × IsInfix (text "signed") (text "prefix-signed"))
contains_bytes_iff_example = contains_bytes_iff (text "prefix-signed") (text "signed")

-- The smallest image of an x64 machine: its header starts at byte 64.
abbrev image : Bytes
image =
    (0x4d ∷ 0x5a ∷ replicate 58 0)
    ++ ((64 ∷ 0 ∷ 0 ∷ 0 ∷ []) ++ (0x50 ∷ 0x45 ∷ 0 ∷ 0 ∷ 0x64 ∷ 0x86 ∷ []))

pe_machine_type_iff_example :
    (pe_machine_type (text "f") image ≡ built 0x8664) ↔ IsImage image 0x8664
pe_machine_type_iff_example = pe_machine_type_iff (text "f") image 0x8664

accepted :
    normalize_thumbprint (replicate 20 b'a' ++ (32 ∷ replicate 20 b'7'))
    ≡ built (replicate 20 b'A' ++ replicate 20 b'7')
unfolding normalize_thumbprint without_whitespace utf8_length is_ascii_whitespace is_ascii_hexdigit
    to_ascii_uppercase
accepted = refl
