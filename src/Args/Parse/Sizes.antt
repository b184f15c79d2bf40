-- ===== src/Args/Parse/Sizes.antt =====
-- cli/src/args.rs, what `ByteSize::from_str` reads.
use wisp_disk.Base.{
  ℕ, ◌+◌, ◌-◌, ◌*◌, ◌<◌, ◌≡◌, refl, ◌≢◌, [], ◌∷◌, ◌++◌, none, some, arith, ltb, if◌then◌else◌, map,
}
use wisp_disk.Base.Text.{
  Text, text, text_eq, is_whitespace, is_ascii_digit, to_ascii_uppercase, decimal,
}
use wisp_disk.Base.Text.Laws.{
  AllAre, NoneAre, NoneAre-append, trim-id, digits-not_space, decimal-digits, digits_value,
  digits_value-cons, digits_value-nil, le-digits_value, digits_value-decimal, decimal-ne-nil,
}
use wisp_disk.Args.{ByteSize}
use wisp_disk.Args.Parse.{
  Parsed, parsed, failed, u64_end, number_part, suffix_part, without_underscores, digits_u64,
  multiplier, size_amount, size_number, size_text, parse_byte_size,
}

-- The units of a size, with their spelling in the documentation.
pub data SizeUnit : Type 0 where
  bare byte kb kib mb mib gb gib tb tib : SizeUnit

abbrev pub unit_text : SizeUnit → Text
unit_text bare = []
unit_text byte = b'B' ∷ []
unit_text kb = b'K' ∷ b'B' ∷ []
unit_text kib = b'K' ∷ b'i' ∷ b'B' ∷ []
unit_text mb = b'M' ∷ b'B' ∷ []
unit_text mib = b'M' ∷ b'i' ∷ b'B' ∷ []
unit_text gb = b'G' ∷ b'B' ∷ []
unit_text gib = b'G' ∷ b'i' ∷ b'B' ∷ []
unit_text tb = b'T' ∷ b'B' ∷ []
unit_text tib = b'T' ∷ b'i' ∷ b'B' ∷ []

-- Powers of 1000 and of 1024.
abbrev pub unit_bytes : SizeUnit → ℕ
unit_bytes bare = 1
unit_bytes byte = 1
unit_bytes kb = 1000
unit_bytes kib = 1024
unit_bytes mb = 1000 * 1000
unit_bytes mib = 1024 * 1024
unit_bytes gb = 1000 * 1000 * 1000
unit_bytes gib = 1024 * 1024 * 1024
unit_bytes tb = 1000 * 1000 * 1000 * 1000
unit_bytes tib = 1024 * 1024 * 1024 * 1024

digits_u64_lem :
    (acc : ℕ) (s : Text)
    → acc < u64_end
    → digits_u64 acc s
      ≡ (if ltb (digits_value acc s) u64_end then some (digits_value acc s) else none)
unfolding digits_u64
digits_u64_lem acc [] h = ground (arith, digits_value-nil acc)
digits_u64_lem acc (c ∷ s) h = ground (
  arith,
  digits_value-cons acc c s,
  le-digits_value (acc * 10 + (c - 48)) s,
  digits_u64_lem (acc * 10 + (c - 48)) s,
)

number_part-digits :
    (s t : Text) → AllAre is_ascii_digit s → number_part t ≡ [] → number_part (s ++ t) ≡ s
unfolding number_part
number_part-digits [] t h e = e
number_part-digits (c ∷ s) t (h, hs) e = ground (arith, number_part-digits s t hs e)

suffix_part-digits : (s t : Text) → AllAre is_ascii_digit s → suffix_part (s ++ t) ≡ suffix_part t
unfolding suffix_part
suffix_part-digits [] t h = refl
suffix_part-digits (c ∷ s) t (h, hs) = ground (arith, suffix_part-digits s t hs)

without_underscores-digits : (s : Text) → AllAre is_ascii_digit s → without_underscores s ≡ s
unfolding without_underscores is_ascii_digit
without_underscores-digits [] h = refl
without_underscores-digits (c ∷ s) (h, hs) = ground (arith, without_underscores-digits s hs)

size_number_lem :
    (s suffix : Text) → s ≢ [] → size_number s suffix ≡ size_amount (digits_u64 0 s) suffix
unfolding size_number
size_number_lem [] suffix h = absurd (h refl)
size_number_lem (c ∷ s) suffix h = refl

unit-not_space : (u : SizeUnit) → NoneAre is_whitespace (unit_text u)
unfolding is_whitespace
unit-not_space bare = tt
unit-not_space u = ground arith

unit-number_part : (u : SizeUnit) → number_part (unit_text u) ≡ []
unfolding number_part is_ascii_digit
unit-number_part bare = refl
unit-number_part u = refl

unit-suffix_part : (u : SizeUnit) → suffix_part (unit_text u) ≡ unit_text u
unfolding suffix_part is_ascii_digit
unit-suffix_part bare = refl
unit-suffix_part u = refl

unit-multiplier :
    (u : SizeUnit) → multiplier (map to_ascii_uppercase (unit_text u)) ≡ some (unit_bytes u)
unfolding multiplier to_ascii_uppercase text text_eq
unit-multiplier bare = refl
unit-multiplier u = refl

-- How the documentation describes a size: a number of units that fits 64 bits, in bytes.
abbrev pub decimal_size : ℕ → ℕ → Parsed ByteSize
decimal_size n factor =
    if ltb n u64_end
    then (if ltb (n * factor) u64_end
        then parsed (record { bytes = n * factor })
        else failed (text "size is too large"))
    else failed (text "size is not a valid 64-bit integer")

size_amount-unit :
    (n : ℕ) (u : SizeUnit)
    → size_amount (if ltb n u64_end then some n else none) (unit_text u)
      ≡ decimal_size n (unit_bytes u)
unfolding size_amount
size_amount-unit n u = ground (arith, unit-multiplier u)

-- A decimal number with a unit is read as that many bytes, and is refused where the number or the
-- product does not fit 64 bits.
pub parse_byte_size-decimal :
    (n : ℕ) (u : SizeUnit)
    → parse_byte_size (decimal n ++ unit_text u) ≡ decimal_size n (unit_bytes u)
unfolding parse_byte_size size_text
parse_byte_size-decimal n u =
    rw
      (
        trim-id (decimal n ++ unit_text u) (
            NoneAre-append is_whitespace (decimal n) (unit_text u)
              (digits-not_space (decimal n) (decimal-digits n)) (unit-not_space u)),
        number_part-digits (decimal n) (unit_text u) (decimal-digits n) (unit-number_part u),
        suffix_part-digits (decimal n) (unit_text u) (decimal-digits n),
        unit-suffix_part u,
        without_underscores-digits (decimal n) (decimal-digits n),
        size_number_lem (decimal n) (unit_text u) (decimal-ne-nil n),
        digits_u64_lem 0 (decimal n) (omega arith),
        digits_value-decimal n,
      )
      (size_amount-unit n u)
