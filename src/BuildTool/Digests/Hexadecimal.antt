-- ===== src/BuildTool/Digests/Hexadecimal.antt =====
-- scripts/build-tool/src/main.rs, what `normalize_thumbprint` yields.
use mathlib.Core.Path.{subst, sym}
use wisp_disk.Base.{ℕ, ◌≡◌, refl, ap, ◌∙◌, true, [], ◌∷◌, map, all, arith}
use wisp_disk.Base.Text.{Text, is_ascii_whitespace, is_ascii_hexdigit, to_ascii_uppercase}
use wisp_disk.BuildTool.{built}
use wisp_disk.BuildTool.Digests.{utf8_length, without_whitespace, normalize_thumbprint}

without_whitespace-hexdigits :
    (s : Text) → all is_ascii_hexdigit s ≡ true → without_whitespace s ≡ s
unfolding without_whitespace is_ascii_whitespace is_ascii_hexdigit
without_whitespace-hexdigits [] h = refl
without_whitespace-hexdigits (c ∷ s) h = ground (arith, without_whitespace-hexdigits s)

uppercase_idem : (c : ℕ) → to_ascii_uppercase (to_ascii_uppercase c) ≡ to_ascii_uppercase c
unfolding to_ascii_uppercase
uppercase_idem c = ground arith

map-uppercase_idem :
    (s : Text) → map to_ascii_uppercase (map to_ascii_uppercase s) ≡ map to_ascii_uppercase s
map-uppercase_idem [] = refl
map-uppercase_idem (c ∷ s) = ground (arith, uppercase_idem c, map-uppercase_idem s)

-- What was accepted: the capitals of the value without whitespace, forty hexadecimal digits.
pub record IsThumbprint (value thumbprint : Text) : Type 0 where
  pub capitals : thumbprint ≡ map to_ascii_uppercase (without_whitespace value)
  pub forty : utf8_length thumbprint ≡ 40
  pub hexadecimal : all is_ascii_hexdigit thumbprint ≡ true
  pub again : normalize_thumbprint thumbprint ≡ built thumbprint

capitals_again :
    (s : Text)
    → all is_ascii_hexdigit (map to_ascii_uppercase s) ≡ true
    → map to_ascii_uppercase (without_whitespace (map to_ascii_uppercase s))
      ≡ map to_ascii_uppercase s
capitals_again s h =
    ap (map to_ascii_uppercase) (without_whitespace-hexdigits (map to_ascii_uppercase s) h)
    ∙ map-uppercase_idem s

normalize_thumbprint-capitals :
    (value : Text)
    → utf8_length (map to_ascii_uppercase (without_whitespace value)) ≡ 40
    → all is_ascii_hexdigit (map to_ascii_uppercase (without_whitespace value)) ≡ true
    → normalize_thumbprint value ≡ built (map to_ascii_uppercase (without_whitespace value))
unfolding normalize_thumbprint
normalize_thumbprint-capitals value l h = ground arith

-- A thumbprint that `normalize_thumbprint` accepts.
pub normalize_thumbprint-IsThumbprint :
    (value thumbprint : Text)
    → normalize_thumbprint value ≡ built thumbprint
    → IsThumbprint value thumbprint
unfolding normalize_thumbprint
normalize_thumbprint-IsThumbprint value thumbprint h =
    let upper = map to_ascii_uppercase (without_whitespace value) in
    let same : upper ≡ thumbprint = ground arith in
    let forty : utf8_length upper ≡ 40 = ground arith in
    let digits : all is_ascii_hexdigit upper ≡ true = ground arith in
    let stable = capitals_again (without_whitespace value) digits in
    subst (IsThumbprint value) same (record {
      capitals = refl;
      forty = forty;
      hexadecimal = digits;
      again =
          normalize_thumbprint-capitals upper (subst (λ t. utf8_length t ≡ 40) (sym stable) forty)
            (subst (λ t. all is_ascii_hexdigit t ≡ true) (sym stable) digits)
          ∙ ap built stable;
    })
