-- ===== src/Tests/Inventory.antt =====
-- Runs of cli/src/driver/windows/inventory.rs.
use wisp_disk.Base.{◌≡◌, refl, some, [], ◌∷◌, arith}
use wisp_disk.Base.Bytes.{le_bytes, read_le}
use wisp_disk.Base.Text.{text, text_eq, decimal}
use wisp_disk.Protocol.{is_valid_state}
use wisp_disk.Protocol.Wire
use wisp_disk.Errors.{ok}
use wisp_disk.Adapter.Transport
use wisp_disk.Adapter.Requests
use wisp_disk.Adapter.Requests.{Adapter, counted_disks}
use wisp_disk.Volume.Identity
use wisp_disk.Volume.Finder
use wisp_disk.Volume.Discovery
use wisp_disk.Disk.Interfaces
use wisp_disk.Disk.Allocation.{disk_location}
use wisp_disk.Inventory
use wisp_disk.Adapter.Requests.Inventory.{IsInventory, query_state-IsInventory}
use wisp_disk.Inventory.Entries.{IsCollected, collect_adapter-IsCollected}
use wisp_disk.Tests.Responses
use wisp_disk.Tests.System.{
  simulated, process, opened_file, version_reply, inventory_reply, listed_disk, listing,
}

abbrev adapter : Adapter simulated
adapter = record { handle = 9; port_number = 2 }

abbrev described : Inventory.InventoryAdapter
described = record {
  adapter_instance = decimal 7;
  port = 2;
  allocated_bytes = 4_194_304;
  pending_operations = 0;
  disks =
      Inventory.inventory_disk listed_disk (some 4) (some ((b'R' ∷ []) ∷ (b'S' ∷ []) ∷ [])) ∷ [];
}

disk_found :
    Interfaces.find_physical_disk 3 (disk_location adapter listed_disk) (process [] 3)
    ≡ some (ok (some 4), process [] 3)
unfolding disk_location Interfaces.find_physical_disk Interfaces.find_rounds Interfaces.matched_with
    Interfaces.examine_interface Interfaces.disk_interface_path Interfaces.sighted
    Interfaces.storage_device_number Identity.scsi_location Finder.wide_from_buffer opened_file
    text_eq text
disk_found = refl

points_found :
    Inventory.discover_mount_points 3 4 (process [] 3)
    ≡ some (ok (some ((b'R' ∷ []) ∷ (b'S' ∷ []) ∷ [])), process [] 3)
unfolding Inventory.discover_mount_points Discovery.volumes_for_disk Discovery.volume_rounds
    Discovery.examine Discovery.volume_paths Discovery.multisz_entries Discovery.split_at_nul
    Discovery.take_non_empty Finder.new_finder Finder.next Finder.wide_from_buffer
    Identity.volume_device_path Identity.disk_number opened_file text text_eq
points_found = refl

inventory_read :
    Requests.query_state adapter (process (inventory_reply 2 ∷ []) 2)
    ≡ (ok (listing 2), process [] 3)
unfolding Requests.query_state Transport.request_header Transport.send Transport.received
    Transport.receive Transport.accepted Transport.validate_response_header Transport.read_srb
    Transport.encode_srb read_le le_bytes text_eq Wire.read_response_header
    Responses.encode_response_header Wire.read_state_response Responses.encode_state_response
    Wire.read_disks Responses.encode_disks Wire.read_disk_state Responses.encode_disk_state
    Wire.read_disk_info Responses.encode_disk_info is_valid_state
inventory_read = refl

recovers :
    Requests.require_recovery adapter (process (version_reply 1 ∷ inventory_reply 2 ∷ []) 1)
    ≡ (ok tt, process (inventory_reply 2 ∷ []) 2)
unfolding Requests.require_recovery Requests.query_version Transport.request_header Transport.send
    Transport.received Transport.receive Transport.accepted Transport.validate_response_header
    Transport.read_srb Transport.encode_srb read_le le_bytes text_eq Wire.read_response_header
    Responses.encode_response_header Responses.encode_query_version_response
    Wire.read_query_version_response
recovers = refl

disks_collected :
    Inventory.collect_disks 3 adapter (counted_disks (listing 2)) (process [] 3)
    ≡ some (ok described.disks, process [] 3)
unfolding Inventory.collect_disks Inventory.collect_disk
disks_collected = ground (arith, disk_found, points_found)

collected :
    Inventory.collect_adapter 3 adapter (process (version_reply 1 ∷ inventory_reply 2 ∷ []) 1)
    ≡ some (ok described, process [] 3)
unfolding Inventory.collect_adapter
collected = ground (arith, recovers, inventory_read, disks_collected)

collect_adapter-IsCollected_example :
    IsCollected 3 adapter described
      (process (version_reply 1 ∷ inventory_reply 2 ∷ []) 1)
      (process [] 3)
collect_adapter-IsCollected_example =
    collect_adapter-IsCollected 3 adapter described
      (process (version_reply 1 ∷ inventory_reply 2 ∷ []) 1) (process [] 3) collected

query_state-IsInventory_example :
    IsInventory (process (inventory_reply 2 ∷ []) 2) (listing 2) (process [] 3)
query_state-IsInventory_example =
    query_state-IsInventory adapter (process (inventory_reply 2 ∷ []) 2) (listing 2) (process [] 3)
      inventory_read
