-- ===== src/Tests/Owner.antt =====
-- A run of `delete_disk` of cli/src/driver/windows/disk/removal.rs.
use wisp_disk.Base.{ℕ, ◌≡◌, refl, Option, some, none, true, List, [], ◌∷◌, arith}
use wisp_disk.Base.Bytes.{Bytes, le_bytes, read_le}
use wisp_disk.Base.Text.{text, text_eq, decimal}
use wisp_disk.Protocol.{is_valid_state}
use wisp_disk.Protocol.Wire
use wisp_disk.Errors.{ok}
use wisp_disk.Machine.{Process, Io}
use wisp_disk.Adapter.Transport
use wisp_disk.Adapter.Requests
use wisp_disk.Adapter.Requests.{Adapter}
use wisp_disk.Adapter.Discovery
use wisp_disk.Disk.Owner
use wisp_disk.Disk.Owner.Scanning.{Scans}
use wisp_disk.Disk.Owner.Claims.{ClaimsOf, find_owner-Scans}
use wisp_disk.Volume.Identity
use wisp_disk.Volume.Identity.{ScsiLocation}
use wisp_disk.Volume.Letters
use wisp_disk.Volume.Finder
use wisp_disk.Volume.Name
use wisp_disk.Tests.Responses
use wisp_disk.Tests.System.{simulated, process, opened_file, version_reply, inventory_reply}
use wisp_disk.Tests.Provisioning.{location, letter}

-- The system in which the disk leaves behind the last reply.
abbrev pub leaving : List Bytes → ℕ → Process simulated
leaving replies id = record (process replies id) {
  os = record (process replies id).os { drives_at = 0; leaves = true };
}

abbrev pub adapter : Adapter simulated
adapter = record { handle = 9; port_number = 2 }

answering_1 :
    (rest : List Bytes)
    → Discovery.adapter_at 2 (leaving (version_reply 1 ∷ rest) 1) ≡ (some adapter, leaving rest 2)
unfolding Discovery.adapter_at opened_file Requests.query_version decimal text
    Transport.request_header Transport.send Transport.received Transport.receive Transport.accepted
    Transport.validate_response_header Transport.read_srb Transport.encode_srb read_le le_bytes
    text_eq Wire.read_response_header Responses.encode_response_header
    Responses.encode_query_version_response Wire.read_query_version_response
answering_1 rest = refl

answering_4 :
    (rest : List Bytes)
    → Discovery.adapter_at 2 (leaving (version_reply 4 ∷ rest) 4) ≡ (some adapter, leaving rest 5)
unfolding Discovery.adapter_at opened_file Requests.query_version decimal text
    Transport.request_header Transport.send Transport.received Transport.receive Transport.accepted
    Transport.validate_response_header Transport.read_srb Transport.encode_srb read_le le_bytes
    text_eq Wire.read_response_header Responses.encode_response_header
    Responses.encode_query_version_response Wire.read_query_version_response
answering_4 rest = refl

silent_0 :
    (replies : List Bytes) (id : ℕ)
    → Discovery.adapter_at 0 (leaving replies id) ≡ (none, leaving replies id)
unfolding Discovery.adapter_at opened_file decimal text text_eq
silent_0 replies id = refl

silent_1 :
    (replies : List Bytes) (id : ℕ)
    → Discovery.adapter_at 1 (leaving replies id) ≡ (none, leaving replies id)
unfolding Discovery.adapter_at opened_file decimal text text_eq
silent_1 replies id = refl

-- No other port answers.
quiet :
    {A : Type 0} (visit : Adapter simulated → Option A → Io simulated (Option A)) (m : Option A)
    (replies : List Bytes) (id : ℕ)
    → Owner.scan visit (Discovery.ports_from 3 253) m (leaving replies id)
      ≡ (ok m, leaving replies id)
unfolding Owner.scan Discovery.ports_from Discovery.adapter_at opened_file decimal text text_eq
quiet visit m replies id = refl

ports : Discovery.ports_from 0 256 ≡ 0 ∷ 1 ∷ 2 ∷ Discovery.ports_from 3 253
unfolding Discovery.ports_from
ports = refl

abbrev pub owner : Owner.Owner
owner = record { port_number = 2; instance_id = 7; device_id = 3 }

claimed :
    (rest : List Bytes)
    → Owner.visit_port letter location adapter none
        (leaving (version_reply 2 ∷ inventory_reply 3 ∷ rest) 2)
      ≡ (ok (some owner), leaving rest 4)
unfolding Owner.visit_port Owner.claims_among Owner.is_at Requests.require_recovery
    Requests.query_version decimal text Transport.request_header Transport.send Transport.received
    Transport.receive Transport.accepted Transport.validate_response_header Transport.read_srb
    Transport.encode_srb read_le le_bytes text_eq Wire.read_response_header
    Responses.encode_response_header Responses.encode_query_version_response
    Wire.read_query_version_response Wire.read_state_response Responses.encode_state_response
    Wire.read_disks Responses.encode_disks Wire.read_disk_state Responses.encode_disk_state
    Wire.read_disk_info Responses.encode_disk_info is_valid_state Requests.query_state
claimed rest = refl

of_instance :
    (rest : List Bytes)
    → Owner.visit_instance 7 adapter none (leaving (version_reply 5 ∷ inventory_reply 6 ∷ rest) 5)
      ≡ (ok (some adapter), leaving rest 7)
unfolding Owner.visit_instance Requests.require_recovery Requests.query_version decimal text
    Transport.request_header Transport.send Transport.received Transport.receive Transport.accepted
    Transport.validate_response_header Transport.read_srb Transport.encode_srb read_le le_bytes
    text_eq Wire.read_response_header Responses.encode_response_header
    Responses.encode_query_version_response Wire.read_query_version_response
    Wire.read_state_response Responses.encode_state_response Wire.read_disks Responses.encode_disks
    Wire.read_disk_state Responses.encode_disk_state Wire.read_disk_info Responses.encode_disk_info
    is_valid_state Requests.query_state
of_instance rest = refl

letter_located :
    (replies : List Bytes)
    → Owner.letter_address letter (leaving (version_reply 1 ∷ replies) 1)
      ≡ (ok location, leaving (version_reply 1 ∷ replies) 1)
unfolding Owner.letter_address Letters.drive_letter_in_use Letters.letter_bit Name.get_volume_name
    Name.mount_point Finder.wide_from_buffer Owner.address_of_volume Identity.disk_number
    Identity.physical_disk_address Identity.open_physical_drive Identity.closing_location
    Identity.scsi_location opened_file text text_eq
letter_located replies = refl

pub owner_found :
    (rest : List Bytes)
    → Owner.find_owner letter
        (leaving (version_reply 1 ∷ version_reply 2 ∷ inventory_reply 3 ∷ rest) 1)
      ≡ (ok owner, leaving rest 4)
unfolding Owner.find_owner Owner.scan
owner_found rest = ground (
  arith,
  ports,
  letter_located (version_reply 2 ∷ inventory_reply 3 ∷ rest),
  silent_0 (version_reply 1 ∷ version_reply 2 ∷ inventory_reply 3 ∷ rest) 1,
  silent_1 (version_reply 1 ∷ version_reply 2 ∷ inventory_reply 3 ∷ rest) 1,
  answering_1 (version_reply 2 ∷ inventory_reply 3 ∷ rest),
  claimed rest,
  quiet (Owner.visit_port letter location) (some owner) rest 4,
)

find_owner-Scans_example :
    (address : ScsiLocation) × (q : Process simulated) × (Owner.letter_address letter
        (leaving (version_reply 1 ∷ version_reply 2 ∷ inventory_reply 3 ∷ []) 1)
      ≡ (ok address, q))
    × Scans
        (ClaimsOf {W = simulated} address)
        (Discovery.ports_from 0 256)
        q
        (owner ∷ [])
        (leaving [] 4)
find_owner-Scans_example =
    find_owner-Scans letter (leaving (version_reply 1 ∷ version_reply 2 ∷ inventory_reply 3 ∷ []) 1)
      (leaving [] 4) owner (owner_found [])

pub instance_found :
    (rest : List Bytes)
    → Owner.find_instance 7
        (leaving (version_reply 4 ∷ version_reply 5 ∷ inventory_reply 6 ∷ rest) 4)
      ≡ (ok adapter, leaving rest 7)
unfolding Owner.find_instance Owner.scan
instance_found rest = ground (
  arith,
  ports,
  silent_0 (version_reply 4 ∷ version_reply 5 ∷ inventory_reply 6 ∷ rest) 4,
  silent_1 (version_reply 4 ∷ version_reply 5 ∷ inventory_reply 6 ∷ rest) 4,
  answering_4 (version_reply 5 ∷ inventory_reply 6 ∷ rest),
  of_instance rest,
  quiet (Owner.visit_instance 7) (some adapter) rest 7,
)
