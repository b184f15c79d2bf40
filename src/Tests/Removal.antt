-- ===== src/Tests/Removal.antt =====
-- Runs of cli/src/driver/windows/disk/removal.rs and of the wait for a deleted disk to be gone.
use wisp_disk.Base.{◌≡◌, refl, true, false, some, [], ◌∷◌, is_some, arith}
use wisp_disk.Base.Text.{text}
use wisp_disk.Errors.{downcast_unresolved, ok}
use wisp_disk.Volume.{lock, dismount, volume_control, remove_mounts, remove_each}
use wisp_disk.Disk.Deletion.{lock_all, dismount_all, remove_all}
use wisp_disk.Disk.Removal.{prepare, remove_allocation}
use wisp_disk.Disk.Removal.Outcomes.{Ends, remove_allocation-Ends}
use wisp_disk.Volume.Identity
use wisp_disk.Disk.Absence.{answers_at, absence_rounds, wait_for_physical_disk_absent}
use wisp_disk.Tests.System.{opened_file, process}
use wisp_disk.Tests.Adapter.{adapter, deletion, deleted, lost_deletion, lost}
use wisp_disk.Tests.Volume.{fresh, held}

all_prepared : prepare false (fresh ∷ []) deletion ≡ (ok tt, held ∷ [], deletion)
unfolding prepare lock_all dismount_all remove_all lock dismount volume_control remove_mounts
    remove_each
all_prepared = refl

removed :
    remove_allocation adapter 3 7 3 false (fresh ∷ []) deletion
    ≡ some (ok tt, held ∷ [], process [] 5)
unfolding remove_allocation
removed = ground (arith, all_prepared, deleted)

remove_allocation-Ends_example :
    Ends adapter 3 7 3 false (fresh ∷ []) deletion (ok tt, held ∷ [], process [] 5)
remove_allocation-Ends_example =
    remove_allocation-Ends adapter 3 7 3 false (fresh ∷ []) deletion removed

prepared_for_loss : prepare false (fresh ∷ []) lost_deletion ≡ (ok tt, held ∷ [], lost_deletion)
unfolding prepare lock_all dismount_all remove_all lock dismount volume_control remove_mounts
    remove_each
prepared_for_loss = refl

lost-unresolved : is_some (downcast_unresolved lost) ≡ true
unfolding downcast_unresolved
lost-unresolved = refl

-- The simulated disk answers at LUN 0.
abbrev vacant : Identity.ScsiLocation
vacant = record { port = 2; path = 0; target = 0; lun = 1 }

absent : wait_for_physical_disk_absent 4 vacant 2 1_000 deletion ≡ some (ok tt, deletion)
unfolding wait_for_physical_disk_absent absence_rounds answers_at Identity.physical_disk_address
    Identity.open_physical_drive Identity.closing_location Identity.scsi_location opened_file text
absent = refl
