-- ===== src/Inventory/Entries.antt =====
-- cli/src/driver/windows/inventory.rs, what the collection of an adapter's inventory is made of.
use mathlib.Core.List.{flat_map, map-append}
use mathlib.Core.Path.{subst}
use wisp_disk.Base.{ℕ, ◌<◌, ◌≤◌, ◌≡◌, ◌↔◌, refl, sym, Option, none, some, List, [], ◌∷◌, map, arith}
use wisp_disk.Base.Text.{Text, decimal}
use wisp_disk.Args.{removable}
use wisp_disk.Protocol.{DiskState, StateResponse}
use wisp_disk.Errors.{Error, Result, ok, err}
use wisp_disk.Machine.{Windows, Process}
use wisp_disk.Machine.Loops
use wisp_disk.Machine.Loops.{pure, run}
use wisp_disk.Adapter.Requests.{Adapter, require_recovery, query_state, counted_disks}
use wisp_disk.Volume.{VolumeInfo}
use wisp_disk.Volume.Discovery.{volumes_for_disk}
use wisp_disk.Disk.Interfaces.{find_physical_disk}
use wisp_disk.Disk.Allocation.{disk_location}
use wisp_disk.Inventory.{
  InventoryDisk, InventoryDiskState, InventoryAdapter, inventory_disk, inventory_disk_state,
  media_kind, char_of_unit, lossy_points, points_or_none, discover_mount_points, mount_points_of,
  collect_disk, collect_disks, collect_adapter,
}

-- The mount points of a disk: those of all its volumes when Windows lists these; none are known of a
-- disk that was not found or whose volumes could not be listed.
pub data AreMountPoints {W : Windows} (fuel : ℕ)
    : Option ℕ → Process W → Option (List Text) → Process W → Type 0 where
  not_found : {p : Process W} → AreMountPoints fuel none p none p
  not_listed :
      {number : ℕ} {p p' : Process W} (e : Error)
      → volumes_for_disk fuel number p ≡ some (err e, p')
      → AreMountPoints fuel (some number) p none p'
  listed :
      {number : ℕ} {p p' : Process W} (volumes : List VolumeInfo)
      → volumes_for_disk fuel number p ≡ some (ok volumes, p')
      → AreMountPoints fuel
          (some number)
          p
          (some (
            map W.to_string_lossy
              (flat_map (λ (volume : VolumeInfo). volume.mount_points) volumes)))
          p'

-- The description of one entry of the driver's inventory: each field is the one of the entry, the disk
-- number is what the search at the entry's SCSI address on this adapter's port answers, and the mount
-- points are those of this disk, asked for behind the search.
pub record IsDescribed {W : Windows} (fuel : ℕ) (adapter : Adapter W) (entry : DiskState)
    (disk : InventoryDisk) (p p' : Process W) : Type 0 where
  pub after : Process W
  pub searched :
      find_physical_disk fuel
        (record {
          port = adapter.port_number;
          path = entry.disk.path_id;
          target = entry.disk.target_id;
          lun = entry.disk.lun;
        })
        p
      ≡ some (ok disk.physical_disk, after)
  pub mount_points : AreMountPoints fuel disk.physical_disk after disk.mount_points p'
  pub device_id : disk.device_id ≡ entry.disk.device_id
  pub size_bytes : disk.size_bytes ≡ entry.disk.size_bytes
  pub path : disk.path ≡ entry.disk.path_id
  pub target : disk.target ≡ entry.disk.target_id
  pub lun : disk.lun ≡ entry.disk.lun
  pub create_operation_id : disk.create_operation_id ≡ decimal entry.create_operation_id
  pub is_online : (disk.state ≡ InventoryDiskState.online) ↔ (entry.state ≡ 1)
  pub is_stopping : (disk.state ≡ InventoryDiskState.stopping) ↔ (entry.state ≡ 2)
  pub is_removable : (disk.media ≡ removable) ↔ (entry.disk.media_kind ≡ 2)
  pub letter_shown :
      entry.disk.requested_drive_letter < 0xd800
      → disk.requested_letter ≡ entry.disk.requested_drive_letter ∷ []
  pub high_letter_shown :
      0xe000 ≤ entry.disk.requested_drive_letter
      → disk.requested_letter ≡ entry.disk.requested_drive_letter ∷ []
  pub surrogate_replaced :
      0xd800 ≤ entry.disk.requested_drive_letter
      → entry.disk.requested_drive_letter < 0xe000
      → disk.requested_letter ≡ b'?' ∷ []

-- The descriptions of the entries, in order, each collected behind the one before it.
pub data AreDescribed {W : Windows} (fuel : ℕ) (adapter : Adapter W)
    : List DiskState → List InventoryDisk → Process W → Process W → Type 0 where
  no_entries : {p : Process W} → AreDescribed fuel adapter [] [] p p
  one_more :
      {entry : DiskState} {entries : List DiskState} {disk : InventoryDisk}
      {disks : List InventoryDisk} {p q p' : Process W}
      → IsDescribed fuel adapter entry disk p q
      → AreDescribed fuel adapter entries disks q p'
      → AreDescribed fuel adapter (entry ∷ entries) (disk ∷ disks) p p'

-- A whole collection: the driver's recovery is required, its inventory is read right behind that, and
-- all that is described is what that inventory counts.
pub record IsCollected {W : Windows} (fuel : ℕ) (adapter : Adapter W) (inventory : InventoryAdapter)
    (p p' : Process W) : Type 0 where
  pub required : Process W
  pub read : Process W
  pub state : StateResponse
  pub recovers : require_recovery adapter p ≡ (ok tt, required)
  pub answered : query_state adapter required ≡ (ok state, read)
  pub described : AreDescribed fuel adapter (counted_disks state) inventory.disks read p'
  pub adapter_instance : inventory.adapter_instance ≡ decimal state.adapter_instance
  pub port : inventory.port ≡ adapter.port_number
  pub allocated_bytes : inventory.allocated_bytes ≡ state.allocated_bytes
  pub pending_operations : inventory.pending_operations ≡ state.pending_operations

lossy_points-eq_map :
    (W : Windows) (volumes : List VolumeInfo)
    → lossy_points W volumes
      ≡ map W.to_string_lossy (flat_map (λ (volume : VolumeInfo). volume.mount_points) volumes)
unfolding lossy_points flat_map
lossy_points-eq_map W [] = refl
lossy_points-eq_map W (volume ∷ volumes) = rw (
  lossy_points-eq_map W volumes,
  map-append W.to_string_lossy volume.mount_points
      (flat_map (λ (volume : VolumeInfo). volume.mount_points) volumes),
)

inventory_disk_state-online :
    (state : ℕ) → (inventory_disk_state state ≡ InventoryDiskState.online) ↔ (state ≡ 1)
unfolding inventory_disk_state
inventory_disk_state-online state = ground arith

inventory_disk_state-stopping :
    (state : ℕ) → (inventory_disk_state state ≡ InventoryDiskState.stopping) ↔ (state ≡ 2)
unfolding inventory_disk_state
inventory_disk_state-stopping state = ground arith

media_kind-removable : (code : ℕ) → (media_kind code ≡ removable) ↔ (code ≡ 2)
unfolding media_kind
media_kind-removable code = ground arith

char_of_unit-letter : (unit : ℕ) → unit < 0xd800 → char_of_unit unit ∷ [] ≡ unit ∷ []
unfolding char_of_unit
char_of_unit-letter unit h = ground arith

char_of_unit-high_letter : (unit : ℕ) → 0xe000 ≤ unit → char_of_unit unit ∷ [] ≡ unit ∷ []
unfolding char_of_unit
char_of_unit-high_letter unit h = ground arith

char_of_unit-surrogate :
    (unit : ℕ) → 0xd800 ≤ unit → unit < 0xe000 → char_of_unit unit ∷ [] ≡ b'?' ∷ []
unfolding char_of_unit
char_of_unit-surrogate unit h k = ground arith

module _ {W : Windows} (fuel : ℕ) (adapter : Adapter W) where
  points_or_none-AreMountPoints :
      (number : ℕ) (p q : Process W) (r : Result (List VolumeInfo))
      → volumes_for_disk fuel number p ≡ some (r, q)
      → AreMountPoints fuel (some number) p (points_or_none W r) q
  unfolding points_or_none
  points_or_none-AreMountPoints number p q (ok volumes) h =
      subst (λ points. AreMountPoints fuel (some number) p (some points) q)
        (sym (lossy_points-eq_map W volumes)) (listed volumes h)
  points_or_none-AreMountPoints number p q (err e) h = not_listed e h

  discover_mount_points-AreMountPoints :
      (number : ℕ) (points : Option (List Text)) (p p' : Process W)
      → discover_mount_points fuel number p ≡ some (ok points, p')
      → AreMountPoints fuel (some number) p points p'
  unfolding discover_mount_points points_or_none
  discover_mount_points-AreMountPoints number points p p' h =
      let (volumes, q, asked, h1) =
        Loops.>>=-eq_ok (Loops.outcome (volumes_for_disk fuel number))
          (λ volumes. pure (points_or_none W volumes)) p h in
      let same : points_or_none W volumes ≡ points = ground arith in
      let last : q ≡ p' = ground arith in
      subst (λ p'. AreMountPoints fuel (some number) p points p') last
        (subst (λ points. AreMountPoints fuel (some number) p points q) same
          (points_or_none-AreMountPoints number p q volumes
            (Loops.outcome-eq_ok (volumes_for_disk fuel number) p asked)))

  mount_points_of-AreMountPoints :
      (number : Option ℕ) (points : Option (List Text)) (p p' : Process W)
      → mount_points_of fuel number p ≡ some (ok points, p')
      → AreMountPoints fuel number p points p'
  unfolding mount_points_of
  mount_points_of-AreMountPoints none points p p' h =
      let same : none ≡ points = ground arith in
      let last : p ≡ p' = ground arith in
      subst (λ p'. AreMountPoints fuel none p points p') last
        (subst (λ points. AreMountPoints fuel none p points p) same not_found)
  mount_points_of-AreMountPoints (some number) points p p' h =
      discover_mount_points-AreMountPoints number points p p' h

  inventory_disk-IsDescribed :
      (entry : DiskState) (number : Option ℕ) (points : Option (List Text)) (p q p' : Process W)
      → find_physical_disk fuel (disk_location adapter entry) p ≡ some (ok number, q)
      → AreMountPoints fuel number q points p'
      → IsDescribed fuel adapter entry (inventory_disk entry number points) p p'
  unfolding inventory_disk disk_location
  inventory_disk-IsDescribed entry number points p q p' h k = record {
    after = q;
    searched = h;
    mount_points = k;
    device_id = refl;
    size_bytes = refl;
    path = refl;
    target = refl;
    lun = refl;
    create_operation_id = refl;
    is_online = inventory_disk_state-online entry.state;
    is_stopping = inventory_disk_state-stopping entry.state;
    is_removable = media_kind-removable entry.disk.media_kind;
    letter_shown = λ l. char_of_unit-letter entry.disk.requested_drive_letter l;
    high_letter_shown = λ l. char_of_unit-high_letter entry.disk.requested_drive_letter l;
    surrogate_replaced = λ l k. char_of_unit-surrogate entry.disk.requested_drive_letter l k;
  }

  collect_disk-IsDescribed :
      (entry : DiskState) (disk : InventoryDisk) (p p' : Process W)
      → collect_disk fuel adapter entry p ≡ some (ok disk, p')
      → IsDescribed fuel adapter entry disk p p'
  unfolding collect_disk
  collect_disk-IsDescribed entry disk p p' h =
      let (number, q, found, h1) =
        Loops.>>=-eq_ok (find_physical_disk fuel (disk_location adapter entry)) _ p h in
      let (points, q1, mounted, h2) =
        Loops.>>=-eq_ok (mount_points_of fuel number)
          (λ points. pure (inventory_disk entry number points)) q h1 in
      let same : inventory_disk entry number points ≡ disk = ground arith in
      let last : q1 ≡ p' = ground arith in
      subst (λ p'. IsDescribed fuel adapter entry disk p p') last
        (subst (λ disk. IsDescribed fuel adapter entry disk p q1) same
          (inventory_disk-IsDescribed entry number points p q q1 found
            (mount_points_of-AreMountPoints number points q q1 mounted)))

  collect_disks-AreDescribed :
      (entries : List DiskState) (disks : List InventoryDisk) (p p' : Process W)
      → collect_disks fuel adapter entries p ≡ some (ok disks, p')
      → AreDescribed fuel adapter entries disks p p'
  unfolding collect_disks
  collect_disks-AreDescribed [] disks p p' h =
      let same : [] ≡ disks = ground arith in
      let last : p ≡ p' = ground arith in
      subst (λ p'. AreDescribed fuel adapter [] disks p p') last
        (subst (λ disks. AreDescribed fuel adapter [] disks p p) same no_entries)
  collect_disks-AreDescribed (entry ∷ entries) disks p p' h =
      let (disk, q, one, h1) = Loops.>>=-eq_ok (collect_disk fuel adapter entry) _ p h in
      let (others, q1, more, h2) =
        Loops.>>=-eq_ok (collect_disks fuel adapter entries) (λ disks. pure (disk ∷ disks)) q h1 in
      let same : disk ∷ others ≡ disks = ground arith in
      let last : q1 ≡ p' = ground arith in
      subst (λ p'. AreDescribed fuel adapter (entry ∷ entries) disks p p') last
        (subst (λ disks. AreDescribed fuel adapter (entry ∷ entries) disks p q1) same
          (one_more (collect_disk-IsDescribed entry disk p q one)
            (collect_disks-AreDescribed entries others q q1 more)))

  -- The collection of an adapter requires its recovery, reads its inventory right behind that, and
  -- describes each counted entry in order: with the fields of the entry, a question mark in place
  -- of a letter that is a surrogate, with the disk number that the search at the address of the
  -- entry answers, and with the mount points of all volumes of that disk, which are not known when
  -- the disk is not found or its volumes cannot be listed.
  pub collect_adapter-IsCollected :
      (inventory : InventoryAdapter) (p p' : Process W)
      → collect_adapter fuel adapter p ≡ some (ok inventory, p')
      → IsCollected fuel adapter inventory p p'
  unfolding collect_adapter
  collect_adapter-IsCollected inventory p p' h =
      let (_, q, recovers, h1) = Loops.>>=-eq_ok (run (require_recovery adapter)) _ p h in
      let (state, q1, read, h2) = Loops.>>=-eq_ok (run (query_state adapter)) _ q h1 in
      let (disks, q2, collected, h3) =
        Loops.>>=-eq_ok (collect_disks fuel adapter (counted_disks state)) _ q1 h2 in
      let same : disks ≡ inventory.disks = ground arith in
      let last : q2 ≡ p' = ground arith in
      record {
        required = q;
        read = q1;
        state = state;
        recovers = ground arith;
        answered = ground arith;
        described =
            subst (λ p'. AreDescribed fuel adapter (counted_disks state) inventory.disks q1 p') last
              (subst (λ disks. AreDescribed fuel adapter (counted_disks state) disks q1 q2) same
                (collect_disks-AreDescribed (counted_disks state) disks q1 q2 collected));
        adapter_instance = ground arith;
        port = ground arith;
        allocated_bytes = ground arith;
        pending_operations = ground arith;
      }
