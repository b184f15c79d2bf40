-- ===== src/Args/Normalize.antt =====
-- cli/src/args.rs, `normalize_windows_args`: the Windows slash spelling as clap's long options.
pub mod Laws
use wisp_disk.Base.{
  ℕ, String, Bool, ◌++◌, ◌||◌, List, [], ◌∷◌, map, Option, none, some, ◌==◌, if◌then◌else◌,
}
use wisp_disk.Base.Text.{Text, text, text_eq, to_ascii_lowercase}

-- An `OsString` is a text, or not valid Unicode.
pub data OsString : Type 0 where
  unicode : Text → OsString
  ill_formed : List ℕ → OsString

-- What the `match` on the lower-case name yields.
pub data Canonical : Type 0 where
  long_option : Text → Canonical
  log_debug unchanged : Canonical

abbrev is_name : Text → String → Bool
is_name name s = text_eq name (text s)

canonical : Text → Canonical
canonical name =
    if is_name name "list"
    then long_option (text "list")
    else if is_name name "json"
    then long_option (text "json")
    else if is_name name "id"
    then long_option (text "id")
    else if is_name name "adapter"
    then long_option (text "adapter")
    else if is_name name "add"
    then long_option (text "add")
    else if is_name name "del"
    then long_option (text "del")
    else if is_name name "force"
    then long_option (text "force")
    else if is_name name "hdd"
    then long_option (text "hdd")
    else if is_name name "rem"
    then long_option (text "rem")
    else if is_name name "letter"
    then long_option (text "letter")
    else if is_name name "size"
    then long_option (text "size")
    else if is_name name "fs"
    then long_option (text "fs")
    else if is_name name "log"
    then long_option (text "log")
    else if is_name name "timings"
    then log_debug
    else if is_name name "help" || is_name name "?"
    then long_option (text "help")
    else if is_name name "version"
    then long_option (text "version")
    else unchanged

-- `split_once(':')`: the part before the first colon, and the part behind it if there is one.
option_name : Text → Text
option_name [] = []
option_name (c ∷ s) = let rest = option_name s in if c == b':' then [] else c ∷ rest

option_value : Text → Option Text
option_value [] = none
option_value (c ∷ s) = let rest = option_value s in if c == b':' then some s else rest

with_value : Text → Option Text → Text
with_value name none = text "--" ++ name
with_value name (some value) = text "--" ++ (name ++ b'=' ∷ value)

rewritten : Text → Canonical → Option Text → Text
unfolding with_value
rewritten argument (long_option name) value = with_value name value
rewritten argument log_debug value = text "--log=debug"
rewritten argument unchanged value = argument

normalize_text : Text → Text
unfolding rewritten canonical option_name option_value
normalize_text [] = []
normalize_text (c ∷ s) =
    if c == b'/'
    then rewritten (c ∷ s) (canonical (map to_ascii_lowercase (option_name s))) (option_value s)
    else c ∷ s

unfoldable pub normalize_one : OsString → OsString
unfolding normalize_text to_ascii_lowercase text text_eq
normalize_one (unicode t) = unicode (normalize_text t)
normalize_one (ill_formed units) = ill_formed units

unfoldable pub normalize_windows_args : List OsString → List OsString
unfolding normalize_one
normalize_windows_args args = map normalize_one args
