-- ===== src/Disk/Interfaces/Sightings.antt =====
-- cli/src/driver/windows/disk/mod.rs, `find_physical_disk` against the enumeration that it makes: which
-- interfaces it saw at the address, and what it answers.
use wisp_disk.Base.{
  ℕ, zero, suc, ◌≡◌, refl, Option, none, some, List, [], ◌∷◌, ◌==◌, Each, get_elem?, Bool-cases,
  inl, inr, arith,
}
use wisp_disk.Base.Text.{text}
use wisp_disk.Errors.{Result, ok, err}
use wisp_disk.Machine.{Windows, Process, Api, returned, failed, M}
use wisp_disk.Machine.Io.{call_for}
use wisp_disk.Volume.Identity.{ScsiLocation}
use wisp_disk.Disk.Interfaces.{
  matched_with, examine_interface, proceed, checked, enumerated, find_rounds, dropping_set,
  searched, find_physical_disk, error_no_more_items,
}

-- The enumeration from an index on: it ends where Windows has no more interfaces, and sees the disk
-- numbers of those interfaces that are at the address.
pub data Sees {W : Windows} (expected : ScsiLocation) (set : W.Handle)
    : ℕ → Process W → List ℕ → Process W → Type 0 where
  ended :
      (index : ℕ) (p p' : Process W) (os : W.State)
      → W.enum_disk_interface set index p.os ≡ (failed error_no_more_items, os)
      → record p { os = os } ≡ p'
      → Sees expected set index p [] p'
  passed :
      (index : ℕ) (p q p' : Process W) (interface : W.Handle) (os : W.State) (numbers : List ℕ)
      → W.enum_disk_interface set index p.os ≡ (returned interface, os)
      → examine_interface expected set interface (record p { os = os }) ≡ (ok none, q)
      → Sees expected set (suc index) q numbers p'
      → Sees expected set index p numbers p'
  saw :
      (index : ℕ) (p q p' : Process W) (interface : W.Handle) (os : W.State) (number : ℕ)
      (numbers : List ℕ)
      → W.enum_disk_interface set index p.os ≡ (returned interface, os)
      → examine_interface expected set interface (record p { os = os }) ≡ (ok (some number), q)
      → Sees expected set (suc index) q numbers p'
      → Sees expected set index p (number ∷ numbers) p'

-- The fold of `matched` over the numbers seen.
unfoldable pub Agree : Option ℕ → List ℕ → Option ℕ → Type 0
Agree matched [] answer = matched ≡ answer
Agree none (n ∷ ns) answer = Agree (some n) ns answer
Agree (some m) (n ∷ ns) answer = (m ≡ n) × Agree (some m) ns answer

module _ {W : Windows} (expected : ScsiLocation) where
  abbrev Outcome : W.Handle → ℕ → Process W → Option ℕ → Option ℕ → Process W → Type 0
  Outcome set index p matched answer p' =
      (numbers : List ℕ) × Sees expected set index p numbers p' × Agree matched numbers answer

  checked-Outcome :
      (set : W.Handle) (index : ℕ) (matched : Option ℕ) (again : Option ℕ → M W (Option ℕ))
      (interface : W.Handle) (p : Process W) (os : W.State) (r : Result (Option ℕ) × Process W)
      {answer : Option ℕ} {p' : Process W}
      → W.enum_disk_interface set index p.os ≡ (returned interface, os)
      → examine_interface expected set interface (record p { os = os }) ≡ r
      → ((m : Option ℕ) (q : Process W)
          → again m q ≡ some (ok answer, p')
          → Outcome set (suc index) q m answer p')
      → proceed (checked expected matched r) again ≡ some (ok answer, p')
      → Outcome set index p matched answer p'
  unfolding proceed checked matched_with Agree
  checked-Outcome set index matched again interface p os (err e, q) a b rest h = cc
  checked-Outcome set index matched again interface p os (ok none, q) {answer} {p'} a b rest h =
      let (numbers, sees, agree) = rest matched q h in
      (numbers, passed index p q p' interface os numbers a b sees, agree)
  checked-Outcome set index none again interface p os (ok (some number), q) {answer} {p'} a b rest
        h =
      let (numbers, sees, agree) = rest (some number) q h in
      (number ∷ numbers, saw index p q p' interface os number numbers a b sees, agree)
  checked-Outcome set index (some previous) again interface p os (ok (some number), q) {answer} {p'}
        a b rest h =
      elim (Bool-cases (previous == number)) [
        | inl e ↦
            let (numbers, sees, agree) = rest (some previous) q (ground arith) in
            (
              number ∷ numbers,
              saw index p q p' interface os number numbers a b sees,
              (ground arith, agree),
            )
        | inr e ↦ absurd (ground arith)
      ]

  enumerated-Outcome :
      (set : W.Handle) (index : ℕ) (matched : Option ℕ) (again : Option ℕ → M W (Option ℕ))
      (r : Api W.Handle × W.State) (p : Process W) {answer : Option ℕ} {p' : Process W}
      → W.enum_disk_interface set index p.os ≡ r
      → ((m : Option ℕ) (q : Process W)
          → again m q ≡ some (ok answer, p')
          → Outcome set (suc index) q m answer p')
      → enumerated expected set matched again r p ≡ some (ok answer, p')
      → Outcome set index p matched answer p'
  unfolding enumerated Agree
  enumerated-Outcome set index matched again (failed code, os) p {answer} {p'} a rest h =
      elim (Bool-cases (code == error_no_more_items)) [
        | inl e ↦ ([], ended index p p' os (ground (arith, a)) (ground arith), ground arith)
        | inr e ↦ absurd (ground arith)
      ]
  enumerated-Outcome set index matched again (returned interface, os) p a rest h =
      checked-Outcome set index matched again interface p os
        (examine_interface expected set interface (record p { os = os })) a refl rest h

  find_rounds-Outcome :
      (set : W.Handle) (index fuel : ℕ) (matched : Option ℕ) (p : Process W) {answer : Option ℕ}
      {p' : Process W}
      → find_rounds expected set index fuel matched p ≡ some (ok answer, p')
      → Outcome set index p matched answer p'
  unfolding find_rounds
  find_rounds-Outcome set index zero matched p h = cc
  find_rounds-Outcome set index (suc fuel) matched p h =
      enumerated-Outcome set index matched (find_rounds expected set (suc index) fuel)
        (W.enum_disk_interface set index p.os) p refl
        (λ m q k. find_rounds-Outcome set (suc index) fuel m q k) h

  dropping_set-eq_ok :
      (set : W.Handle) (o : Option (Result (Option ℕ) × Process W)) {answer : Option ℕ}
      {p' : Process W}
      → dropping_set set o ≡ some (ok answer, p')
      → (q : Process W) × (o ≡ some (ok answer, q))
        × (record q { os = W.destroy_info_set set q.os } ≡ p')
  unfolding dropping_set
  dropping_set-eq_ok set none h = cc
  dropping_set-eq_ok set (some (r, q)) h = (q, ground arith, ground arith)

  searched-Outcome :
      (fuel : ℕ) (r : Result W.Handle × Process W) {answer : Option ℕ} {p' : Process W}
      → searched expected fuel r ≡ some (ok answer, p')
      → (set : W.Handle) × (before after : Process W) × (r ≡ (ok set, before))
        × Outcome set 0 before none answer after
        × (record after { os = W.destroy_info_set set after.os } ≡ p')
  unfolding searched
  searched-Outcome fuel (ok set, p) h =
      let (q, found, dropped) = dropping_set-eq_ok set (find_rounds expected set 0 fuel none p) h in
      (set, p, q, refl, find_rounds-Outcome set 0 fuel none p found, dropped)
  searched-Outcome fuel (err e, p) h = cc

Agree-some :
    (m : ℕ) (numbers : List ℕ) (answer : Option ℕ)
    → Agree (some m) numbers answer
    → (some m ≡ answer) × Each (λ n. some n ≡ answer) numbers
unfolding Agree
Agree-some m [] answer h = (h, tt)
Agree-some m (n ∷ ns) answer h =
    let (same, each) = Agree-some m ns answer h.1 in (same, (ground arith, each))

Agree-none :
    (numbers : List ℕ) (answer : Option ℕ)
    → Agree none numbers answer
    → (get_elem? numbers 0 ≡ answer) × Each (λ n. some n ≡ answer) numbers
unfolding Agree
Agree-none [] answer h = (h, tt)
Agree-none (n ∷ ns) answer h = let (same, each) = Agree-some n ns answer h in (same, (same, each))

-- A whole search, from the process before it to the process behind it: the set of interfaces that it
-- opens is the one that it enumerates, from the first interface to the last, and then destroys.
pub record IsSearch {W : Windows} (expected : ScsiLocation) (p p' : Process W) (answer : Option ℕ)
    : Type 0 where
  pub set : W.Handle
  pub before : Process W
  pub after : Process W
  pub numbers : List ℕ
  pub opened :
      call_for (text "enumerate present disk interfaces") W.disk_interface_set p ≡ (ok set, before)
  pub sees : Sees expected set 0 before numbers after
  pub destroyed : record after { os = W.destroy_info_set set after.os } ≡ p'
  pub first : get_elem? numbers 0 ≡ answer
  pub all_the_same : Each (λ n. some n ≡ answer) numbers

-- find_physical_disk enumerates the set of present disk interfaces that it opened, from the first
-- to the last, and destroys it; its answer is the one number of all interfaces that it could read
-- and that are at the address, and none when there is no such interface.
pub find_physical_disk-Sees :
    {W : Windows} (fuel : ℕ) (expected : ScsiLocation) (p p' : Process W) (answer : Option ℕ)
    → find_physical_disk fuel expected p ≡ some (ok answer, p')
    → IsSearch expected p p' answer
unfolding find_physical_disk
find_physical_disk-Sees {W} fuel expected p p' answer h =
    let (set, before, after, opened, (numbers, sees, agree), destroyed) =
      searched-Outcome expected fuel
        (call_for (text "enumerate present disk interfaces") W.disk_interface_set p) h in
    let (first, each) = Agree-none numbers answer agree in
    record {
      set = set;
      before = before;
      after = after;
      numbers = numbers;
      opened = opened;
      sees = sees;
      destroyed = destroyed;
      first = first;
      all_the_same = each;
    }
