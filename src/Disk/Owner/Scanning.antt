-- ===== src/Disk/Owner/Scanning.antt =====
-- cli/src/driver/windows/disk/removal.rs, a scan of the ports against all that the adapters claim.
use wisp_disk.Base.{
  ℕ, ◌≡◌, refl, ap, ◌∙◌, sym, Option, none, some, List, [], ◌∷◌, ◌++◌, append-nil, append_assoc,
  arith,
}
use wisp_disk.Errors.{ok}
use wisp_disk.Machine.{Windows, Process, Io}
use wisp_disk.Machine.Io.{>>=-eq_ok}
use wisp_disk.Adapter.Requests.{Adapter}
use wisp_disk.Adapter.Discovery.{adapter_at}
use wisp_disk.Disk.Owner.{scan, scanned}

abbrev pub to_list : {A : Type 0} → Option A → List A
to_list none = []
to_list (some a) = a ∷ []

-- A scan of ports, with all the claims that the answering adapters make.
pub data Scans {W : Windows} {A : Type 0}
    (Claims : Adapter W → Process W → List A → Process W → Type 0)
    : List ℕ → Process W → List A → Process W → Type 0 where
  no_ports : {p p' : Process W} → p ≡ p' → Scans Claims [] p [] p'
  silent :
      {port : ℕ} {ports : List ℕ} {p p' : Process W} {found : List A} (q : Process W)
      → adapter_at port p ≡ (none, q)
      → Scans Claims ports q found p'
      → Scans Claims (port ∷ ports) p found p'
  answers :
      {port : ℕ} {ports : List ℕ} {p p' : Process W} {own found : List A} (adapter : Adapter W)
      (q r : Process W)
      → adapter_at port p ≡ (some adapter, q)
      → Claims adapter q own r
      → Scans Claims ports r found p'
      → Scans Claims (port ∷ ports) p (own ++ found) p'

module _ {W : Windows} {A : Type 0} (Claims : Adapter W → Process W → List A → Process W → Type 0)
    (visit : Adapter W → Option A → Io W (Option A))
    (visits : (adapter : Adapter W) (m m' : Option A) (q r : Process W)
      → visit adapter m q ≡ (ok m', r)
      → (own : List A) × Claims adapter q own r × (to_list m ++ own ≡ to_list m')) where
  abbrev pub Scanned : List ℕ → Process W → Option A → Option A → Process W → Type 0
  Scanned ports p m m' p' =
      (found : List A) × Scans Claims ports p found p' × (to_list m ++ found ≡ to_list m')

  scanned-Scanned :
      (port : ℕ) (ports : List ℕ) (rest : Option A → Io W (Option A)) (m m' : Option A)
      (p p' : Process W) (a : Option (Adapter W) × Process W)
      → adapter_at port p ≡ a
      → ((m : Option A) (q : Process W) → rest m q ≡ (ok m', p') → Scanned ports q m m' p')
      → scanned visit rest m a ≡ (ok m', p')
      → Scanned (port ∷ ports) p m m' p'
  unfolding scanned
  scanned-Scanned port ports rest m m' p p' (none, q) a k h =
      let (found, others, all) = k m q h in (found, silent q a others, all)
  scanned-Scanned port ports rest m m' p p' (some adapter, q) a k h =
      let (m1, visited, h1) = >>=-eq_ok (visit adapter m) rest q h in
      let r = (visit adapter m q).1 in
      let (own, mine, now) = visits adapter m m1 q r (ground arith) in
      let (found, others, all) = k m1 r h1 in
      (
        own ++ found,
        answers adapter q r a mine others,
        sym (append_assoc (to_list m) own found) ∙ (ap (λ l. l ++ found) now ∙ all),
      )

  -- A scan that ends with at most one claim has met this claim and no other.
  pub scan-Scanned :
      (ports : List ℕ) (m m' : Option A) (p p' : Process W)
      → scan visit ports m p ≡ (ok m', p')
      → Scanned ports p m m' p'
  unfolding scan
  scan-Scanned [] m m' p p' h =
      let same : m ≡ m' = ground arith in
      let still : p ≡ p' = ap (λ r. r.1) h in
      ([], no_ports still, append-nil (to_list m) ∙ ap to_list same)
  scan-Scanned (port ∷ ports) m m' p p' h =
      scanned-Scanned port ports (scan visit ports) m m' p p' (adapter_at port p) refl
        (λ m q k. scan-Scanned ports m m' q p' k) h
