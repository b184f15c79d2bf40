-- ===== src/Tests/Undone.antt =====
-- A run of `add_disk` of cli/src/driver/windows/disk/creation.rs behind the creation of a disk whose
-- letter is taken meanwhile, so that the disk is deleted again.
use wisp_disk.Base.{◌≡◌, refl, some, [], ◌∷◌, ◌++◌, arith}
use wisp_disk.Base.Text.{text}
use wisp_disk.Args.{fixed, fat32}
use wisp_disk.Args.Display.{show_drive_letter}
use wisp_disk.Errors.{Error, message, context, err}
use wisp_disk.Machine.{Process}
use wisp_disk.Adapter.Requests.{CreatedDisk}
use wisp_disk.Volume.Letters
use wisp_disk.Disk.Creation
use wisp_disk.Disk.Creation.Undone.{Undone, set_up_or_roll_back-Undone}
use wisp_disk.Tests.System.{simulated, inventory_reply}
use wisp_disk.Tests.Provisioning.{letter}
use wisp_disk.Tests.Owner.{leaving, adapter}
use wisp_disk.Tests.Freed.{deletion_replies, deleted}

abbrev created : CreatedDisk
created = record { adapter_instance = 7; device_id = 3; path_id = 0; target_id = 0; lun = 0 }

abbrev taken : Process simulated
taken = leaving (inventory_reply 7 ∷ deletion_replies) 7

abbrev letter_taken : Error
letter_taken =
    message (text "drive letter " ++ (show_drive_letter letter ++ text " is already in use"))

set_up :
    Creation.initialize_created_disk 3 adapter created letter fixed 4_194_304 fat32 taken
    ≡ some (err letter_taken, taken)
unfolding Creation.initialize_created_disk Letters.ensure_drive_letter_available
    Letters.drive_letter_in_use Letters.letter_bit
set_up = refl

rolled_back :
    Creation.set_up_or_roll_back 3 adapter created letter fixed 4_194_304 fat32 taken
    ≡ some (err (context Creation.rolled_back letter_taken), leaving [] 12)
unfolding Creation.set_up_or_roll_back Creation.rollback_created_disk Creation.rollback_rounds
rolled_back = ground (arith, set_up, deleted)

set_up_or_roll_back-Undone_example :
    Undone 3 adapter created letter fixed 4_194_304 fat32 taken
      (context Creation.rolled_back letter_taken)
      (leaving [] 12)
set_up_or_roll_back-Undone_example =
    set_up_or_roll_back-Undone 3 adapter created letter fixed 4_194_304 fat32 taken
      (context Creation.rolled_back letter_taken) (leaving [] 12) rolled_back
