-- ===== src/BuildTool/Digests.antt =====
-- scripts/build-tool/src/main.rs, the checks of texts and bytes: thumbprints, digests, switches in the
-- environment, and the search for the embedded package.
pub mod Infix
pub mod Hexadecimal
use wisp_disk.Base.{
  ℕ, suc, ◌+◌, Bool, true, false, not, ◌&&◌, ◌||◌, Option, none, some, List, [], ◌∷◌, ◌++◌, map,
  ltb, leb, ◌==◌, if◌then◌else◌, length, take, all,
}
use wisp_disk.Base.Text.{
  Text, text, text_eq, is_ascii_whitespace, is_ascii_hexdigit, to_ascii_uppercase,
}
use wisp_disk.Base.Bytes.{Bytes}
use wisp_disk.BuildTool.{BuildResult, built, refused, lowercase}

-- `haystack.windows(n).any(|window| window == needle)`.
unfoldable pub has_window : ℕ → (haystack needle : Bytes) → Bool
has_window n [] needle = false
has_window n (byte ∷ bytes) needle =
    (leb n (length (byte ∷ bytes)) && text_eq (take n (byte ∷ bytes)) needle)
    || has_window n bytes needle

is_empty : Bytes → Bool
is_empty [] = true
is_empty (byte ∷ bytes) = false

unfoldable pub contains_bytes : (haystack needle : Bytes) → Bool
unfolding is_empty
contains_bytes haystack needle =
    not (is_empty needle)
    && leb (length needle) (length haystack)
    && has_window (length needle) haystack needle

-- The bytes of a `String` in UTF-8.
unfoldable pub utf8_length : Text → ℕ
utf8_length [] = 0
utf8_length (c ∷ s) =
    (if ltb c 0x80 then 1 else if ltb c 0x800 then 2 else if ltb c 0x10000 then 3 else 4)
    + utf8_length s

unfoldable pub without_whitespace : Text → Text
without_whitespace [] = []
without_whitespace (c ∷ s) =
    let rest = without_whitespace s in if is_ascii_whitespace c then rest else c ∷ rest

-- `normalize_thumbprint`.
unfoldable pub normalize_thumbprint : Text → BuildResult Text
normalize_thumbprint value =
    let normalized = map to_ascii_uppercase (without_whitespace value) in
    if not (utf8_length normalized == 40) || not (all is_ascii_hexdigit normalized)
    then refused (
        text "certificate thumbprint '"
        ++ (value ++ text "' must contain exactly 40 hexadecimal characters"))
    else built normalized

-- `env_flag`, on the variable's value.
unfoldable pub env_flag : Text → Option Text → BuildResult Bool
env_flag name none = built false
env_flag name (some value) =
    let flag = lowercase value in
    if text_eq flag (text "1") || text_eq flag (text "true") || text_eq flag (text "yes")
    then built true
    else if text_eq flag (text "0")
        || text_eq flag (text "false")
        || text_eq flag (text "no")
        || text_eq flag []
    then built false
    else refused (
        text "environment variable "
        ++ (name ++ (text " must be true or false, not '" ++ (flag ++ text "'"))))

-- A line and whether a line feed ends it, with one more character before the first.
pieced : ℕ → List (Text × Bool) → List (Text × Bool)
pieced c [] = (c ∷ [], false) ∷ []
pieced c ((line, ended) ∷ lines) = (c ∷ line, ended) ∷ lines

line_pieces : Text → List (Text × Bool)
unfolding pieced
line_pieces [] = []
line_pieces (c ∷ s) =
    let rest = line_pieces s in if c == 10 then ([], true) ∷ rest else pieced c rest

without_return : Text → Text
without_return [] = []
without_return (c ∷ []) = if c == 13 then [] else c ∷ []
without_return (c ∷ d ∷ s) = c ∷ without_return (d ∷ s)

line_of : Text × Bool → Text
unfolding without_return
line_of (line, true) = without_return line
line_of (line, false) = line

-- `str::lines`.
unfoldable pub lines : Text → List Text
unfolding line_pieces line_of
lines s = map line_of (line_pieces s)

-- `find_map` over the lines.
unfoldable pub first_digest : ℕ → List Text → Option Text
first_digest expected_length [] = none
first_digest expected_length (line ∷ rest) =
    let candidate = without_whitespace line in
    let others = first_digest expected_length rest in
    if utf8_length candidate == expected_length && all is_ascii_hexdigit candidate
    then some (map to_ascii_uppercase candidate)
    else others

unfoldable pub parse_digest : Text → ℕ → Option Text
parse_digest output expected_length = first_digest expected_length (lines output)
