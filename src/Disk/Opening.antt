-- ===== src/Disk/Opening.antt =====
-- cli/src/driver/windows/disk/deletion.rs, `DiskDeletion::open`: the volumes of a disk, opened. The
-- enumeration of volumes runs on fuel.
pub mod Opened
use wisp_disk.Base.{ℕ, List}
use wisp_disk.Machine.{Windows, M}
use wisp_disk.Machine.Loops.{run, ◌>>=◌, ◌>>◌}
use wisp_disk.Volume.{Volume}
use wisp_disk.Volume.Identity.{ScsiLocation}
use wisp_disk.Volume.Discovery.{volumes_for_disk}
use wisp_disk.Disk.Deletion.{open_all, verified}

unfoldable pub open_deletion : {W : Windows} → ℕ → ℕ → ScsiLocation → M W (List (Volume W))
open_deletion fuel number location = do
  infos ← volumes_for_disk fuel number
  volumes ← run (open_all number infos)
  run (verified number location volumes)
