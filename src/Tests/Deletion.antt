-- ===== src/Tests/Deletion.antt =====
-- Runs of the searches for a disk, its volumes and its owner.
use wisp_disk.Base.{
  zero, suc, none, ◌≡◌, ◌≢◌, refl, some, true, false, List, [], ◌∷◌, ◌++◌, all, arith,
}
use wisp_disk.Base.Text.{text, text_eq}
use wisp_disk.Errors.{ok}
use wisp_disk.Machine.{Process}
use wisp_disk.Machine.Polling.{poll}
use wisp_disk.Volume.{VolumeInfo, Volume}
use wisp_disk.Volume.Identity
use wisp_disk.Volume.Identity.{same_location, ScsiLocation}
use wisp_disk.Volume.Finder
use wisp_disk.Volume.Discovery
use wisp_disk.Volume.Discovery.Entries.{multisz, is_entry, multisz_entries-multisz}
use wisp_disk.Disk.Deletion
use wisp_disk.Disk.Interfaces
use wisp_disk.Disk.Interfaces.Returns.{Lists, find_physical_disk-returns}
use wisp_disk.Disk.Interfaces.Sightings.{IsSearch, find_physical_disk-Sees}
use wisp_disk.Disk.Interfaces.Located.{IsLocated, examine_interface-IsLocated}
use wisp_disk.Disk.Opening.{open_deletion}
use wisp_disk.Disk.Opening.Opened.{AreOnDisk, open_deletion-AreOnDisk}
use wisp_disk.Disk.Arrival
use wisp_disk.Tests.System.{simulated, process, opened_file}
use wisp_disk.Tests.Provisioning.{location}

abbrev start : Process simulated
start = process [] 1

abbrev pub info : VolumeInfo
info = record { name = b'v' ∷ b'\\' ∷ []; mount_points = (b'R' ∷ []) ∷ (b'S' ∷ []) ∷ [] }

abbrev pub opened_volume : Volume simulated
opened_volume = record {
  name = info.name;
  mount_points = info.mount_points;
  handle = 9;
  locked = false;
  removed_mount_points = [];
}

valid : all is_entry info.mount_points ≡ true
unfolding is_entry
valid = refl

multisz_entries-multisz_example :
    Discovery.multisz_entries (multisz info.mount_points ++ (7 ∷ 0 ∷ [])) ≡ info.mount_points
multisz_entries-multisz_example = multisz_entries-multisz info.mount_points (7 ∷ 0 ∷ []) valid

sighted : Interfaces.examine_interface location 5 6 start ≡ (ok (some 4), start)
unfolding Interfaces.examine_interface Interfaces.disk_interface_path Interfaces.sighted
    Interfaces.storage_device_number Identity.scsi_location Finder.wide_from_buffer opened_file
sighted = refl

examine_interface-IsLocated_example : IsLocated simulated location 4
examine_interface-IsLocated_example = examine_interface-IsLocated location 5 6 start start 4 sighted

searched : Interfaces.find_physical_disk 2 location start ≡ some (ok (some 4), start)
unfolding Interfaces.find_physical_disk Interfaces.find_rounds Interfaces.matched_with
searched = ground (arith, sighted)

volumes_found : Discovery.volumes_for_disk 2 4 start ≡ some (ok (info ∷ []), start)
unfolding Discovery.volumes_for_disk Discovery.volume_rounds Discovery.examine
    Discovery.volume_paths Discovery.multisz_entries Discovery.split_at_nul Discovery.take_non_empty
    Finder.new_finder Finder.next Finder.wide_from_buffer Identity.volume_device_path
    Identity.disk_number opened_file text text_eq
volumes_found = refl

find_physical_disk-Sees_example : IsSearch location start start (some 4)
find_physical_disk-Sees_example = find_physical_disk-Sees 2 location start start (some 4) searched

one_interface : Lists simulated 1
one_interface set zero s h = absurd (omega (arith, h))
one_interface set (suc index) s h = (259, refl)

find_physical_disk-returns_example : Interfaces.find_physical_disk 2 location start ≢ none
find_physical_disk-returns_example =
    find_physical_disk-returns location 1 one_interface 2 start (omega arith)

arrived : Arrival.wait_for_physical_disk 2 location 1_000 start ≡ some (ok 4, start)
unfolding Arrival.wait_for_physical_disk Arrival.new_notification Arrival.drop_notification poll
arrived = ground (arith, searched)

opened_all : Deletion.open_all 4 (info ∷ []) start ≡ (ok (opened_volume ∷ []), start)
unfolding Deletion.open_all Identity.open_volume Identity.volume_device_path Identity.disk_number
    opened_file text
opened_all = refl

still_there :
    Deletion.verified 4 location (opened_volume ∷ []) start ≡ (ok (opened_volume ∷ []), start)
unfolding Deletion.verified Identity.verify_physical_disk_location Identity.physical_disk_address
    Identity.open_physical_drive Identity.closing_location Identity.scsi_location opened_file text
still_there = refl

opened : open_deletion 2 4 location start ≡ some (ok (opened_volume ∷ []), start)
unfolding open_deletion
opened = ground (arith, volumes_found, opened_all, still_there)

open_deletion-AreOnDisk_example :
    (infos : List VolumeInfo) × (q : Process simulated) × (Discovery.volumes_for_disk 2 4 start
      ≡ some (ok infos, q))
    × AreOnDisk 4 infos (opened_volume ∷ [])
    × (before : Process simulated) × (actual : ScsiLocation) × (Identity.physical_disk_address 4
          before
        ≡ (ok actual, start))
    × (same_location actual location ≡ true)
open_deletion-AreOnDisk_example =
    open_deletion-AreOnDisk 4 2 location start start (opened_volume ∷ []) opened
