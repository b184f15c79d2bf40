-- ===== src/Volume/Discovery/Entries.antt =====
-- cli/src/driver/windows/win32.rs, `multisz_entries` read what a MULTI_SZ buffer holds.
use wisp_disk.Base.{
  ℕ, ◌≡◌, refl, Bool, true, false, not, List, [], ◌∷◌, ◌++◌, ◌==◌, all, append_assoc, and-eq-true,
  arith,
}
use wisp_disk.Base.Text.{Text}
use wisp_disk.Volume.Discovery.{split_at_nul, pushed, take_non_empty, multisz_entries}

-- What an entry of a MULTI_SZ may be: a text with units, none of them NUL.
unfoldable pub is_entry : Text → Bool
is_entry [] = false
is_entry (unit ∷ units) = all (λ c. not (c == 0)) (unit ∷ units)

-- The entries with their terminators, and the terminator of the list.
unfoldable pub multisz : List Text → List ℕ
multisz [] = 0 ∷ []
multisz (entry ∷ entries) = entry ++ (0 ∷ multisz entries)

split_at_nul-append :
    (entry : Text) (rest : List ℕ)
    → all (λ c. not (c == 0)) entry ≡ true
    → split_at_nul (entry ++ (0 ∷ rest)) ≡ entry ∷ split_at_nul rest
unfolding split_at_nul pushed
split_at_nul-append [] rest h = refl
split_at_nul-append (unit ∷ units) rest h = ground (arith, split_at_nul-append units rest)

take_non_empty-cons :
    (entry : Text) (entries : List Text)
    → is_entry entry ≡ true
    → take_non_empty (entry ∷ entries) ≡ entry ∷ take_non_empty entries
unfolding take_non_empty is_entry
take_non_empty-cons [] entries h = cc
take_non_empty-cons (unit ∷ units) entries h = refl

is_entry-all : (entry : Text) → is_entry entry ≡ true → all (λ c. not (c == 0)) entry ≡ true
unfolding is_entry
is_entry-all [] h = cc
is_entry-all (unit ∷ units) h = h

-- The entries of a MULTI_SZ are read back, whatever stands in the buffer behind it.
pub multisz_entries-multisz :
    (entries : List Text) (rest : List ℕ)
    → all is_entry entries ≡ true
    → multisz_entries (multisz entries ++ rest) ≡ entries
unfolding multisz_entries multisz split_at_nul take_non_empty
multisz_entries-multisz [] rest h = refl
multisz_entries-multisz (entry ∷ entries) rest h =
    let own = (and-eq-true (is_entry entry) (all is_entry entries) h).0 in
    let others = (and-eq-true (is_entry entry) (all is_entry entries) h).1 in
    ground (
      arith,
      append_assoc entry (0 ∷ multisz entries) rest,
      split_at_nul-append entry (multisz entries ++ rest) (is_entry-all entry own),
      take_non_empty-cons entry (split_at_nul (multisz entries ++ rest)) own,
      multisz_entries-multisz entries rest others,
    )
