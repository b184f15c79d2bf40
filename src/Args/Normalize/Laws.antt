-- ===== src/Args/Normalize/Laws.antt =====
-- cli/src/args.rs, how `normalize_windows_args` rewrites a declared option.
use wisp_disk.Base.{ℕ, String, ◌≡◌, refl, Bool, ◌++◌, [], ◌∷◌, map, none, some, arith, ◌==◌}
use wisp_disk.Base.Text.{Text, text, text_eq, to_ascii_lowercase}
use wisp_disk.Base.Text.Laws.{NoneAre}
use wisp_disk.Args.Normalize.{
  unicode, long_option, canonical, option_name, option_value, with_value, rewritten, normalize_text,
  normalize_one,
}

-- The options that clap declares, and its built-in two.
pub data Keyword : Type 0 where
  list json id adapter add del force hdd rem letter size fs log help version : Keyword

abbrev pub keyword : Keyword → String
keyword list = "list"
keyword json = "json"
keyword id = "id"
keyword adapter = "adapter"
keyword add = "add"
keyword del = "del"
keyword force = "force"
keyword hdd = "hdd"
keyword rem = "rem"
keyword letter = "letter"
keyword size = "size"
keyword fs = "fs"
keyword log = "log"
keyword help = "help"
keyword version = "version"

canonical-keyword : (k : Keyword) → canonical (text (keyword k)) ≡ long_option (text (keyword k))
unfolding canonical text text_eq
canonical-keyword list = refl
canonical-keyword k = refl

abbrev is_colon : ℕ → Bool
is_colon c = c == b':'

keyword-no_colon : (k : Keyword) → NoneAre is_colon (text (keyword k))
unfolding text
keyword-no_colon list = ground arith
keyword-no_colon k = ground arith

no_colon-of_lowercase :
    (s : Text) → NoneAre is_colon (map to_ascii_lowercase s) → NoneAre is_colon s
unfolding to_ascii_lowercase
no_colon-of_lowercase [] h = tt
no_colon-of_lowercase (c ∷ s) (h, hs) = (ground arith, no_colon-of_lowercase s hs)

option_name-colon : (s v : Text) → NoneAre is_colon s → option_name (s ++ b':' ∷ v) ≡ s
unfolding option_name
option_name-colon [] v h = refl
option_name-colon (c ∷ s) v (h, hs) = ground (arith, option_name-colon s v hs)

option_value-colon : (s v : Text) → NoneAre is_colon s → option_value (s ++ b':' ∷ v) ≡ some v
unfolding option_value
option_value-colon [] v h = refl
option_value-colon (c ∷ s) v (h, hs) = ground (arith, option_value-colon s v hs)

option_name-bare : (s : Text) → NoneAre is_colon s → option_name s ≡ s
unfolding option_name
option_name-bare [] h = refl
option_name-bare (c ∷ s) (h, hs) = ground (arith, option_name-bare s hs)

option_value-bare : (s : Text) → NoneAre is_colon s → option_value s ≡ none
unfolding option_value
option_value-bare [] h = refl
option_value-bare (c ∷ s) (h, hs) = ground (arith, option_value-bare s hs)

module _ (k : Keyword) (name : Text)
    (spelled : map to_ascii_lowercase name ≡ text (keyword k)) where
  name-no_colon : NoneAre is_colon name
  name-no_colon = no_colon-of_lowercase name (rw spelled (keyword-no_colon k))

  bare_option : normalize_one (unicode (b'/' ∷ name)) ≡ unicode (text "--" ++ text (keyword k))
  unfolding normalize_text rewritten with_value normalize_one
  bare_option = rw (
    option_name-bare name name-no_colon,
    option_value-bare name name-no_colon,
    spelled,
    canonical-keyword k,
  )

  valued_option :
      (v : Text)
      → normalize_one (unicode (b'/' ∷ name ++ b':' ∷ v))
        ≡ unicode (text "--" ++ (text (keyword k) ++ b'=' ∷ v))
  unfolding normalize_text rewritten with_value normalize_one
  valued_option v = rw (
    option_name-colon name v name-no_colon,
    option_value-colon name v name-no_colon,
    spelled,
    canonical-keyword k,
  )

-- A declared option in the slash spelling, in any case, becomes clap's long option; a value behind
-- the first colon is kept whole behind `=`.
pub normalize_one-keyword :
    (k : Keyword) (name v : Text)
    → map to_ascii_lowercase name ≡ text (keyword k)
    → (normalize_one (unicode (b'/' ∷ name)) ≡ unicode (text "--" ++ text (keyword k)))
      × (normalize_one (unicode (b'/' ∷ name ++ b':' ∷ v))
          ≡ unicode (text "--" ++ (text (keyword k) ++ b'=' ∷ v)))
normalize_one-keyword k name v spelled =
    (bare_option k name spelled, valued_option k name spelled v)
