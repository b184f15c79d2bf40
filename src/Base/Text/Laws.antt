-- ===== src/Base/Text/Laws.antt =====
-- Facts about trimming and about the decimal digits of a number.
use wisp_disk.Base.Tests.{ltb, Bool-cases}
use Prim.Native.Nat.{ℕ, zero, suc, ◌+◌, ◌-◌, ◌*◌, ◌/◌, ◌%◌, ◌≤◌, ◌<◌}
use mathlib.Core.Path.{◌≡◌, refl}
use mathlib.Core.Logic.{inl, inr, ◌≢◌}
use mathlib.Core.Bool.{Bool, true, false}
use mathlib.Core.List.{[], ◌∷◌, ◌++◌}
use native.Mathlib.Omega.{arith}
use wisp_disk.Base.Text.{
  Text, is_whitespace, is_ascii_digit, trim, trim_start_matches, trim_end_matches, decimal_digits,
  decimal,
}

-- Every character satisfies the test.
abbrev pub AllAre : (ℕ → Bool) → Text → Type 0
AllAre p [] = Unit
AllAre p (c ∷ s) = (p c ≡ true) × AllAre p s

-- No character satisfies the test.
abbrev pub NoneAre : (ℕ → Bool) → Text → Type 0
NoneAre p [] = Unit
NoneAre p (c ∷ s) = (p c ≡ false) × NoneAre p s

pub NoneAre-append : (p : ℕ → Bool) (s t : Text) → NoneAre p s → NoneAre p t → NoneAre p (s ++ t)
NoneAre-append p [] t h k = k
NoneAre-append p (c ∷ s) t (h, hs) k = (h, NoneAre-append p s t hs k)

pub AllAre-append : (p : ℕ → Bool) (s t : Text) → AllAre p s → AllAre p t → AllAre p (s ++ t)
AllAre-append p [] t h k = k
AllAre-append p (c ∷ s) t (h, hs) k = (h, AllAre-append p s t hs k)

pub trim_end_matches-id : (p : ℕ → Bool) (s : Text) → NoneAre p s → trim_end_matches p s ≡ s
unfolding trim_end_matches
trim_end_matches-id p [] h = refl
trim_end_matches-id p (c ∷ []) (h, _) = rw h
trim_end_matches-id p (c ∷ d ∷ s) (h, hs) = rw (trim_end_matches-id p (d ∷ s) hs, trim_end_matches)

pub trim_start_matches-id : (p : ℕ → Bool) (s : Text) → NoneAre p s → trim_start_matches p s ≡ s
unfolding trim_start_matches
trim_start_matches-id p [] h = refl
trim_start_matches-id p (c ∷ s) (h, _) = rw h

pub trim-id : (s : Text) → NoneAre is_whitespace s → trim s ≡ s
unfolding trim
trim-id s h = rw (trim_start_matches-id is_whitespace s h) (trim_end_matches-id is_whitespace s h)

pub digit-not_space : (c : ℕ) → is_ascii_digit c ≡ true → is_whitespace c ≡ false
unfolding is_ascii_digit is_whitespace
digit-not_space c h = ground arith

pub digits-not_space : (s : Text) → AllAre is_ascii_digit s → NoneAre is_whitespace s
digits-not_space [] h = tt
digits-not_space (c ∷ s) (h, hs) = (digit-not_space c h, digits-not_space s hs)

digit_code : (d : ℕ) → d < 10 → is_ascii_digit (48 + d) ≡ true
unfolding is_ascii_digit
digit_code d h = ground arith

decimal_digits-digits : (f n : ℕ) → AllAre is_ascii_digit (decimal_digits f n)
unfolding decimal_digits
decimal_digits-digits zero n = (digit_code (n % 10) (omega arith), tt)
decimal_digits-digits (suc f) n = elim (Bool-cases (ltb n 10)) [
  | inl h ↦ rw h (digit_code n (ground arith), tt)
  | inr h ↦ rw h (
      AllAre-append is_ascii_digit (decimal_digits f (n / 10)) ((48 + n % 10) ∷ [])
        (decimal_digits-digits f (n / 10)) (digit_code (n % 10) (omega arith), tt))
]

pub decimal-digits : (n : ℕ) → AllAre is_ascii_digit (decimal n)
unfolding decimal
decimal-digits n = decimal_digits-digits n n

-- The number that digits stand for, behind `acc`.
pub digits_value : ℕ → Text → ℕ
digits_value acc [] = acc
digits_value acc (c ∷ s) = digits_value (acc * 10 + (c - 48)) s

pub digits_value-cons :
    (acc c : ℕ) (s : Text) → digits_value acc (c ∷ s) ≡ digits_value (acc * 10 + (c - 48)) s
unfolding digits_value
digits_value-cons acc c s = refl

pub digits_value-nil : (acc : ℕ) → digits_value acc [] ≡ acc
unfolding digits_value
digits_value-nil acc = refl

pub le-digits_value : (acc : ℕ) (s : Text) → acc ≤ digits_value acc s
unfolding digits_value
le-digits_value acc [] = omega arith
le-digits_value acc (c ∷ s) = omega (arith, le-digits_value (acc * 10 + (c - 48)) s)

digits_value-append :
    (acc : ℕ) (s t : Text) → digits_value acc (s ++ t) ≡ digits_value (digits_value acc s) t
unfolding digits_value
digits_value-append acc [] t = refl
digits_value-append acc (c ∷ s) t = digits_value-append (acc * 10 + (c - 48)) s t

decimal_digits-value : (f n : ℕ) → n ≤ f → digits_value 0 (decimal_digits f n) ≡ n
unfolding decimal_digits digits_value
decimal_digits-value zero n h = omega arith
decimal_digits-value (suc f) n h = elim (Bool-cases (ltb n 10)) [
  | inl e ↦ rw e (omega arith)
  | inr e ↦
      rw (e, digits_value-append 0 (decimal_digits f (n / 10)) ((48 + n % 10) ∷ []))
        (ground (arith, decimal_digits-value f (n / 10)))
]

pub digits_value-decimal : (n : ℕ) → digits_value 0 (decimal n) ≡ n
unfolding decimal
digits_value-decimal n = decimal_digits-value n n (omega arith)

concat-ne-nil : (s : Text) (c : ℕ) → (s ++ c ∷ []) ≢ []
concat-ne-nil [] c h = cc
concat-ne-nil (d ∷ s) c h = cc

decimal_digits-ne-nil : (f n : ℕ) → decimal_digits f n ≢ []
unfolding decimal_digits
decimal_digits-ne-nil zero n h = cc
decimal_digits-ne-nil (suc f) n h =
    ground (arith, concat-ne-nil (decimal_digits f (n / 10)) (48 + n % 10))

pub decimal-ne-nil : (n : ℕ) → decimal n ≢ []
unfolding decimal
decimal-ne-nil n = decimal_digits-ne-nil n n
