-- ===== src/Disk/Owner/Claims.antt =====
-- cli/src/driver/windows/disk/removal.rs, the searches against all claims that the adapters make.
use mathlib.Core.Path.{subst}
use wisp_disk.Base.{
  ℕ, ◌≡◌, refl, ap, ◌∙◌, Bool, true, false, Option, none, some, List, [], ◌∷◌, ◌++◌, append-nil,
  ◌==◌, if◌then◌else◌, Bool-cases, inl, inr, arith,
}
use wisp_disk.Base.Text.{Text, text}
use wisp_disk.Protocol.{DiskState, StateResponse}
use wisp_disk.Args.{DriveLetter}
use wisp_disk.Errors.{Error, ok}
use wisp_disk.Machine.{Windows, Process}
use wisp_disk.Machine.Io.{>>=-eq_ok}
use wisp_disk.Adapter.Requests.{Adapter, require_recovery, query_state, counted_disks}
use wisp_disk.Adapter.Discovery.{ports_from, scsi_port_limit}
use wisp_disk.Volume.Identity.{ScsiLocation}
use wisp_disk.Disk.Owner.{
  Owner, is_at, claimed, next_entry, claims_among, multiple_adapters, found_or_error, scan,
  search_adapter, visit_port, letter_address, find_owner, visit_instance, find_instance,
}
use wisp_disk.Disk.Owner.Scanning.{to_list, Scans, scan-Scanned}

-- The owners that an inventory names for an address.
unfoldable pub claims : ScsiLocation → (port instance_id : ℕ) → List DiskState → List Owner
claims address port instance_id [] = []
claims address port instance_id (entry ∷ entries) =
    let rest = claims address port instance_id entries in
    if is_at address entry
    then record { port_number = port; instance_id = instance_id; device_id = entry.disk.device_id }
      ∷ rest
    else rest

claims_among-claims :
    (letter : DriveLetter) (address : ScsiLocation) (port instance_id : ℕ)
    (entries : List DiskState) (m m' : Option Owner)
    → claims_among letter address port instance_id entries m ≡ ok m'
    → to_list m ++ claims address port instance_id entries ≡ to_list m'
unfolding claims_among claims claimed next_entry
claims_among-claims letter address port instance_id [] m m' h =
    let same : m ≡ m' = ground arith in append-nil (to_list m) ∙ ap to_list same
claims_among-claims letter address port instance_id (entry ∷ entries) none m' h =
    let own : Owner = record {
      port_number = port;
      instance_id = instance_id;
      device_id = entry.disk.device_id;
    } in
    elim (Bool-cases (is_at address entry)) [
      | inl e ↦
          ground (arith, claims_among-claims letter address port instance_id entries (some own) m')
      | inr e ↦ ground (arith, claims_among-claims letter address port instance_id entries none m')
    ]
claims_among-claims letter address port instance_id (entry ∷ entries) (some o) m' h =
    elim (Bool-cases (is_at address entry)) [
      | inl e ↦ absurd (ground arith)
      | inr e ↦
          ground (arith, claims_among-claims letter address port instance_id entries (some o) m')
    ]

instance_claimed :
    {A : Type 0} (e : Error) (mine : Bool) (a : A) (m m' : Option A)
    → (if mine then claimed e m a else ok m) ≡ ok m'
    → to_list m ++ (if mine then a ∷ [] else []) ≡ to_list m'
unfolding claimed
instance_claimed e true a none m' h = ground arith
instance_claimed e true a (some b) m' h = cc
instance_claimed e false a m m' h =
    let same : m ≡ m' = ground arith in append-nil (to_list m) ∙ ap to_list same

found_or_error-eq_ok :
    {A : Type 0} (e : Text) (m : Option A) (a : A) → found_or_error e m ≡ ok a → to_list m ≡ a ∷ []
unfolding found_or_error
found_or_error-eq_ok e none a h = cc
found_or_error-eq_ok e (some b) a h = ground arith

-- What an adapter claims of an address: nothing from another port, else what its inventory names.
pub data ClaimsOf {W : Windows} (address : ScsiLocation) (adapter : Adapter W) (p : Process W)
    (own : List Owner) (p' : Process W) : Type 0 where
  other_port :
      (adapter.port_number == address.port) ≡ false
      → p ≡ p'
      → [] ≡ own
      → ClaimsOf address adapter p own p'
  inventory :
      (before : Process W) (state : StateResponse)
      → (adapter.port_number == address.port) ≡ true
      → query_state adapter before ≡ (ok state, p')
      → claims address adapter.port_number state.adapter_instance (counted_disks state) ≡ own
      → ClaimsOf address adapter p own p'

-- What an adapter claims of an instance: itself, when its inventory is of that instance.
pub record InstanceOf {W : Windows} (instance_id : ℕ) (adapter : Adapter W) (p : Process W)
    (own : List (Adapter W)) (p' : Process W) : Type 0 where
  pub before : Process W
  pub state : StateResponse
  pub read : query_state adapter before ≡ (ok state, p')
  pub claim : (if state.adapter_instance == instance_id then adapter ∷ [] else []) ≡ own

module _ {W : Windows} where
  search_adapter-ClaimsOf :
      (letter : DriveLetter) (address : ScsiLocation) (adapter : Adapter W) (m m' : Option Owner)
      (q r : Process W)
      → (adapter.port_number == address.port) ≡ true
      → search_adapter letter address adapter m q ≡ (ok m', r)
      → (own : List Owner) × ClaimsOf address adapter q own r × (to_list m ++ own ≡ to_list m')
  unfolding search_adapter
  search_adapter-ClaimsOf letter address adapter m m' q r e h =
      let (_, recovers, h1) = >>=-eq_ok (require_recovery adapter) _ q h in
      let q1 = (require_recovery adapter q).1 in
      let (state, read, h2) = >>=-eq_ok (query_state adapter) _ q1 h1 in
      let own = claims address adapter.port_number state.adapter_instance (counted_disks state) in
      (
        own,
        inventory q1 state e (ground arith) refl,
        claims_among-claims letter address adapter.port_number state.adapter_instance
            (counted_disks state) m m' (ground arith),
      )

  visit_port-ClaimsOf :
      (letter : DriveLetter) (address : ScsiLocation) (adapter : Adapter W) (m m' : Option Owner)
      (q r : Process W)
      → visit_port letter address adapter m q ≡ (ok m', r)
      → (own : List Owner) × ClaimsOf address adapter q own r × (to_list m ++ own ≡ to_list m')
  unfolding visit_port
  visit_port-ClaimsOf letter address adapter m m' q r h =
      elim (Bool-cases (adapter.port_number == address.port)) [
        | inl e ↦ search_adapter-ClaimsOf letter address adapter m m' q r e (ground arith)
        | inr e ↦
            let same : m ≡ m' = ground arith in
            ([], other_port e (ground arith) refl, append-nil (to_list m) ∙ ap to_list same)
      ]

  visit_instance-InstanceOf :
      (instance_id : ℕ) (adapter : Adapter W) (m m' : Option (Adapter W)) (q r : Process W)
      → visit_instance instance_id adapter m q ≡ (ok m', r)
      → (own : List (Adapter W)) × InstanceOf instance_id adapter q own r
        × (to_list m ++ own ≡ to_list m')
  unfolding visit_instance
  visit_instance-InstanceOf instance_id adapter m m' q r h =
      let (_, recovers, h1) = >>=-eq_ok (require_recovery adapter) _ q h in
      let q1 = (require_recovery adapter q).1 in
      let (state, read, h2) = >>=-eq_ok (query_state adapter) _ q1 h1 in
      (
        if state.adapter_instance == instance_id then adapter ∷ [] else [],
        record { before = q1; state = state; read = ground arith; claim = refl },
        instance_claimed (multiple_adapters instance_id) (state.adapter_instance == instance_id)
            adapter m m' (ground arith),
      )

  -- delete_disk takes an owner only when the claims of all answering adapters on the address of
  -- the letter are this one.
  pub find_owner-Scans :
      (letter : DriveLetter) (p p' : Process W) (owner : Owner)
      → find_owner letter p ≡ (ok owner, p')
      → (address : ScsiLocation) × (q : Process W) × (letter_address letter p ≡ (ok address, q))
        × Scans (ClaimsOf {W = W} address) (ports_from 0 scsi_port_limit) q (owner ∷ []) p'
  unfolding find_owner
  find_owner-Scans letter p p' owner h =
      let (address, located, h1) = >>=-eq_ok (letter_address letter) _ p h in
      let q = (letter_address letter p).1 in
      let (m, found, h2) =
        >>=-eq_ok (scan (visit_port letter address) (ports_from 0 scsi_port_limit) none) _ q h1 in
      let (all, scans, same) =
        scan-Scanned (ClaimsOf {W = W} address) (visit_port letter address)
          (λ adapter m m' q r k. visit_port-ClaimsOf letter address adapter m m' q r k)
          (ports_from 0 scsi_port_limit) none m q p' (ground arith) in
      let only =
        same
        ∙ found_or_error-eq_ok (text "volume is not uniquely owned by WispDisk") m owner
            (ground arith) in
      (
        address,
        q,
        ground arith,
        subst (λ l. Scans (ClaimsOf {W = W} address) (ports_from 0 scsi_port_limit) q l p') only
            scans,
      )

  -- `delete_by_identity` takes the one adapter whose inventory is of the instance.
  pub find_instance-Scans :
      (instance_id : ℕ) (p p' : Process W) (adapter : Adapter W)
      → find_instance instance_id p ≡ (ok adapter, p')
      → Scans (InstanceOf {W = W} instance_id) (ports_from 0 scsi_port_limit) p (adapter ∷ []) p'
  unfolding find_instance
  find_instance-Scans instance_id p p' adapter h =
      let (m, found, h1) =
        >>=-eq_ok (scan (visit_instance instance_id) (ports_from 0 scsi_port_limit) none) _ p h in
      let (all, scans, same) =
        scan-Scanned (InstanceOf {W = W} instance_id) (visit_instance instance_id)
          (λ adapter m m' q r k. visit_instance-InstanceOf instance_id adapter m m' q r k)
          (ports_from 0 scsi_port_limit) none m p p' (ground arith) in
      let only =
        same
        ∙ found_or_error-eq_ok
            (text "adapter instance is absent or stale; refresh /list before deletion") m adapter
            (ground arith) in
      subst (λ l. Scans (InstanceOf {W = W} instance_id) (ports_from 0 scsi_port_limit) p l p') only
        scans
