-- ===== src/Disk/Interfaces/Returns.antt =====
-- cli/src/driver/windows/disk/mod.rs, how many rounds `find_physical_disk` needs.
use wisp_disk.Base.{ℕ, zero, suc, ◌+◌, ◌≤◌, ◌<◌, ◌≡◌, ◌≢◌, refl, Option, none, some, arith}
use wisp_disk.Base.Text.{text}
use wisp_disk.Errors.{Result, ok, err}
use wisp_disk.Machine.{Windows, Process, Api, returned, failed, M}
use wisp_disk.Machine.Io.{call_for}
use wisp_disk.Volume.Identity.{ScsiLocation}
use wisp_disk.Disk.Interfaces.{
  examine_interface, proceed, checked, enumerated, find_rounds, dropping_set, searched,
  find_physical_disk,
}

-- Windows lists at most `count` interfaces of a set: from this index on the enumeration fails.
abbrev pub Lists : (W : Windows) → (count : ℕ) → Type 0
Lists W count =
    (set : W.Handle) (index : ℕ) (s : W.State)
    → count ≤ index
    → (code : ℕ) × ((W.enum_disk_interface set index s).0 ≡ failed code)

module _ {W : Windows} (expected : ScsiLocation) where
  proceed-ne_none :
      (r : Result (Option ℕ) × Process W) (again : Option ℕ → M W (Option ℕ))
      → ((m : Option ℕ) (q : Process W) → again m q ≢ none)
      → proceed r again ≢ none
  unfolding proceed
  proceed-ne_none (ok m, q) again k = k m q
  proceed-ne_none (err e, q) again k = λ z. cc

  enumerated-ne_none :
      (set : W.Handle) (matched : Option ℕ) (again : Option ℕ → M W (Option ℕ))
      (r : Api W.Handle × W.State) (p : Process W)
      → ((interface : W.Handle)
          → r.0 ≡ returned interface
          → (m : Option ℕ) (q : Process W) → again m q ≢ none)
      → enumerated expected set matched again r p ≢ none
  unfolding enumerated
  enumerated-ne_none set matched again (failed code, os) p k = ground arith
  enumerated-ne_none set matched again (returned interface, os) p k =
      proceed-ne_none
        (checked expected matched (examine_interface expected set interface (record p { os = os })))
        again (k interface refl)

  module _ (count : ℕ) (lists : Lists W count) where
    find_rounds-ne_none :
        (set : W.Handle) (index fuel : ℕ) (matched : Option ℕ) (p : Process W)
        → count < index + fuel
        → 0 < fuel
        → find_rounds expected set index fuel matched p ≢ none
    unfolding find_rounds
    find_rounds-ne_none set index zero matched p h k = absurd (omega (arith, k))
    find_rounds-ne_none set index (suc zero) matched p h k =
        let (code, last) = lists set index p.os (omega (arith, h)) in
        enumerated-ne_none set matched (find_rounds expected set (suc index) zero)
          (W.enum_disk_interface set index p.os) p (λ interface e m q. absurd (cc))
    find_rounds-ne_none set index (suc (suc fuel)) matched p h k =
        enumerated-ne_none set matched (find_rounds expected set (suc index) (suc fuel))
          (W.enum_disk_interface set index p.os) p
          (λ interface e m q.
            find_rounds-ne_none set (suc index) (suc fuel) m q (omega (arith, h)) (omega arith))

    dropping_set-ne_none :
        (set : W.Handle) (o : Option (Result (Option ℕ) × Process W))
        → o ≢ none
        → dropping_set set o ≢ none
    unfolding dropping_set
    dropping_set-ne_none set none h = h
    dropping_set-ne_none set (some (r, p)) h = λ z. cc

    searched-ne_none :
        (fuel : ℕ) (r : Result W.Handle × Process W)
        → count < fuel
        → searched expected fuel r ≢ none
    unfolding searched
    searched-ne_none fuel (ok set, p) h =
        dropping_set-ne_none set (find_rounds expected set 0 fuel none p)
          (find_rounds-ne_none set 0 fuel none p (omega (arith, h)) (omega (arith, h)))
    searched-ne_none fuel (err e, p) h = λ z. cc

    -- When Windows lists at most a given number of interfaces of any set, find_physical_disk
    -- returns with one round more than that.
    pub find_physical_disk-returns :
        (fuel : ℕ) (p : Process W) → count < fuel → find_physical_disk fuel expected p ≢ none
    unfolding find_physical_disk
    find_physical_disk-returns fuel p h =
        searched-ne_none fuel
          (call_for (text "enumerate present disk interfaces") W.disk_interface_set p) h
