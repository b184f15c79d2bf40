-- ===== src/Inventory.antt =====
-- cli/src/driver/windows/inventory.rs, the collection of the driver's inventory with the disks and the
-- mount points that Windows has for it. The printing of it is not modelled. The searches run on fuel.
pub mod Entries
use wisp_disk.Base.{
  ℕ, Bool, not, ◌&&◌, Option, none, some, List, [], ◌∷◌, ◌++◌, map, leb, ltb, ◌==◌, if◌then◌else◌,
}
use wisp_disk.Base.Text.{Text, text, decimal}
use wisp_disk.Args.{MediaKind, fixed, removable}
use wisp_disk.Protocol.{DiskState, StateResponse, ProtocolMediaKind, media_code}
use wisp_disk.Errors.{Error, Result, ok, err}
use wisp_disk.Machine.{Windows, Process, M}
use wisp_disk.Machine.Loops.{pure, run, outcome, ◌>>=◌, ◌>>◌}
use wisp_disk.Adapter.Requests.{Adapter, require_recovery, query_state, counted_disks}
use wisp_disk.Adapter.Discovery.{adapter_at, ports_from, scsi_port_limit}
use wisp_disk.Volume.{VolumeInfo}
use wisp_disk.Volume.Discovery.{volumes_for_disk}
use wisp_disk.Disk.Interfaces.{find_physical_disk}
use wisp_disk.Disk.Allocation.{disk_location}

pub data InventoryDiskState : Type 0 where
  online stopping unknown : InventoryDiskState

-- `InventoryDiskState::from`.
unfoldable pub inventory_disk_state : ℕ → InventoryDiskState
inventory_disk_state state =
    if state == 1
    then InventoryDiskState.online
    else if state == 2
    then InventoryDiskState.stopping
    else InventoryDiskState.unknown

pub record InventoryDisk : Type 0 where
  pub device_id : ℕ
  pub state : InventoryDiskState
  pub size_bytes : ℕ
  pub media : MediaKind
  pub requested_letter : Text
  pub create_operation_id : Text
  pub path : ℕ
  pub target : ℕ
  pub lun : ℕ
  pub physical_disk : Option ℕ
  pub mount_points : Option (List Text)

pub record InventoryAdapter : Type 0 where
  pub adapter_instance : Text
  pub port : ℕ
  pub allocated_bytes : ℕ
  pub pending_operations : ℕ
  pub disks : List InventoryDisk

media_kind : ℕ → MediaKind
media_kind code = if code == media_code ProtocolMediaKind.removable then removable else fixed

-- `char::from_u32(...).unwrap_or('?')` on a 16-bit unit: a surrogate is no `char`.
unfoldable pub char_of_unit : ℕ → ℕ
char_of_unit unit = if leb 0xd800 unit && ltb unit 0xe000 then b'?' else unit

-- The entry with what Windows has for it.
unfoldable pub inventory_disk : DiskState → Option ℕ → Option (List Text) → InventoryDisk
unfolding media_kind
inventory_disk entry number mount_points = record {
  device_id = entry.disk.device_id;
  state = inventory_disk_state entry.state;
  size_bytes = entry.disk.size_bytes;
  media = media_kind entry.disk.media_kind;
  requested_letter = char_of_unit entry.disk.requested_drive_letter ∷ [];
  create_operation_id = decimal entry.create_operation_id;
  path = entry.disk.path_id;
  target = entry.disk.target_id;
  lun = entry.disk.lun;
  physical_disk = number;
  mount_points = mount_points;
}

-- The `flat_map` and the `map` over the volumes.
lossy_points : (W : Windows) → List VolumeInfo → List Text
lossy_points W [] = []
lossy_points W (volume ∷ volumes) =
    map W.to_string_lossy volume.mount_points ++ lossy_points W volumes

points_or_none : (W : Windows) → Result (List VolumeInfo) → Option (List Text)
unfolding lossy_points
points_or_none W (ok volumes) = some (lossy_points W volumes)
points_or_none W (err e) = none

module _ {W : Windows} (fuel : ℕ) where
  unfoldable pub discover_mount_points : ℕ → M W (Option (List Text))
  unfolding points_or_none
  discover_mount_points number = do
    volumes ← outcome (volumes_for_disk fuel number)
    pure (points_or_none W volumes)

  -- `number.and_then(discover_mount_points)`.
  mount_points_of : Option ℕ → M W (Option (List Text))
  mount_points_of none = pure none
  mount_points_of (some number) = discover_mount_points number

  -- `InventoryDisk::collect`.
  unfoldable pub collect_disk : Adapter W → DiskState → M W InventoryDisk
  unfolding mount_points_of
  collect_disk adapter entry = do
    number ← find_physical_disk fuel (disk_location adapter entry)
    mount_points ← mount_points_of number
    pure (inventory_disk entry number mount_points)

  unfoldable pub collect_disks : Adapter W → List DiskState → M W (List InventoryDisk)
  collect_disks adapter [] = pure []
  collect_disks adapter (entry ∷ entries) = do
    disk ← collect_disk adapter entry
    disks ← collect_disks adapter entries
    pure (disk ∷ disks)

  -- `InventoryAdapter::collect`.
  unfoldable pub collect_adapter : Adapter W → M W InventoryAdapter
  collect_adapter adapter = do
    run (require_recovery adapter)
    state ← run (query_state adapter)
    disks ← collect_disks adapter (counted_disks state)
    pure (record {
      adapter_instance = decimal state.adapter_instance;
      port = adapter.port_number;
      allocated_bytes = state.allocated_bytes;
      pending_operations = state.pending_operations;
      disks = disks;
    })

  beside : M W (List InventoryAdapter) → Adapter W → M W (List InventoryAdapter)
  beside others adapter = do own ← collect_adapter adapter; rest ← others; pure (own ∷ rest)

  answered :
      M W (List InventoryAdapter)
      → Option (Adapter W) × Process W
      → Option (Result (List InventoryAdapter) × Process W)
  unfolding beside
  answered others (none, p) = others p
  answered others (some adapter, p) = beside others adapter p

  collect_ports : List ℕ → M W (List InventoryAdapter)
  unfolding answered
  collect_ports [] = pure []
  collect_ports (port ∷ ports) = λ p. answered (collect_ports ports) (adapter_at port p)

  unfoldable pub collect_inventory : M W (List InventoryAdapter)
  unfolding collect_ports
  collect_inventory = collect_ports (ports_from 0 scsi_port_limit)
