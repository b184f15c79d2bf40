-- ===== src/BuildTool/Digests/Infix.antt =====
-- scripts/build-tool/src/main.rs, `contains_bytes` against the definition of an infix.
use wisp_disk.Base.{
  ℕ, zero, suc, ◌≡◌, ◌≢◌, ◌↔◌, refl, ap, true, false, ◌&&◌, Bool-cases, inl, inr, [], ◌∷◌, ◌++◌,
  leb, length, length-append, take, drop, take-append, and-eq-true, arith,
}
use wisp_disk.Base.Text.{text_eq, text_eq→eq, text_eq_refl}
use wisp_disk.Base.Bytes.{Bytes}
use wisp_disk.BuildTool.Digests.{has_window, is_empty, contains_bytes}

-- The needle stands somewhere in the haystack.
pub record IsInfix (needle haystack : Bytes) : Type 0 where
  pub before : Bytes
  pub behind : Bytes
  pub parts : before ++ (needle ++ behind) ≡ haystack

take-drop : (n : ℕ) (bytes : Bytes) → take n bytes ++ drop n bytes ≡ bytes
take-drop zero bytes = refl
take-drop (suc n) [] = refl
take-drop (suc n) (b ∷ bytes) = ap (◌∷◌ b) (take-drop n bytes)

has_window-IsInfix :
    (haystack needle : Bytes)
    → has_window (length needle) haystack needle ≡ true
    → IsInfix needle haystack
unfolding has_window
has_window-IsInfix [] needle h = cc
has_window-IsInfix (b ∷ bytes) needle h =
    elim (Bool-cases (
      leb (length needle) (length (b ∷ bytes))
      && text_eq (take (length needle) (b ∷ bytes)) needle)) [
        | inl e ↦
            let same =
              text_eq→eq (take (length needle) (b ∷ bytes)) needle
                (and-eq-true (leb (length needle) (length (b ∷ bytes))) _ e).1 in
            record {
              before = [];
              behind = drop (length needle) (b ∷ bytes);
              parts = ground (arith, same, take-drop (length needle) (b ∷ bytes));
            }
        | inr e ↦
            let inner = has_window-IsInfix bytes needle (ground arith) in
            record {
              before = b ∷ inner.before;
              behind = inner.behind;
              parts = ground (arith, inner.parts);
            }
      ]

IsInfix-has_window :
    (before needle behind : Bytes)
    → is_empty needle ≡ false
    → has_window (length needle) (before ++ (needle ++ behind)) needle ≡ true
unfolding has_window is_empty
IsInfix-has_window [] [] behind h = cc
IsInfix-has_window [] (n ∷ needle) behind h = ground (
  arith,
  take-append (n ∷ needle) behind,
  text_eq_refl (n ∷ needle),
  length-append (n ∷ needle) behind,
)
IsInfix-has_window (b ∷ before) needle behind h =
    ground (arith, IsInfix-has_window before needle behind)

IsInfix-contains :
    (needle haystack : Bytes)
    → is_empty needle ≡ false
    → IsInfix needle haystack
    → contains_bytes haystack needle ≡ true
unfolding contains_bytes
IsInfix-contains needle haystack h i = ground (
  arith,
  i.parts,
  IsInfix-has_window i.before needle i.behind h,
  length-append i.before (needle ++ i.behind),
  length-append needle i.behind,
)

-- contains_bytes finds a needle exactly when it is not empty and an infix of the haystack.
pub contains_bytes_iff :
    (haystack needle : Bytes)
    → (contains_bytes haystack needle ≡ true) ↔ ((needle ≢ []) × IsInfix needle haystack)
unfolding contains_bytes is_empty
contains_bytes_iff haystack [] = (λ h. absurd (cc), λ h. absurd (h.0 refl))
contains_bytes_iff haystack (n ∷ needle) = (
  λ h. (λ e. cc, has_window-IsInfix haystack (n ∷ needle) (ground arith)),
  λ (some_needle, infix_of). IsInfix-contains (n ∷ needle) haystack refl infix_of,
)
