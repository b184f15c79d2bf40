-- ===== src/Program.antt =====
-- cli/src/driver/windows/mod.rs and cli/src/driver.rs, the dispatch of a command. What the list prints
-- is not modelled.
use wisp_disk.Base.{ℕ, Bool, true, false}
use wisp_disk.Base.Text.{text}
use wisp_disk.Args.{Command}
use wisp_disk.Errors.{message}
use wisp_disk.Machine.{Windows, M}
use wisp_disk.Machine.Loops.{pure, fail, ◌>>=◌}
use wisp_disk.Disk.Creation.{add_disk}
use wisp_disk.Disk.Delete.{delete_disk, delete_by_identity}
use wisp_disk.Inventory.{collect_inventory}

module _ {W : Windows} (fuel : ℕ) (install_embedded_driver : M W (Unit {0})) where
  listed : M W (Unit {0})
  listed = do _ ← collect_inventory fuel; pure tt

  -- `windows::execute`.
  unfoldable pub dispatch : Command → M W (Unit {0})
  unfolding listed
  dispatch (Command.add letter media size_bytes file_system) =
      add_disk fuel install_embedded_driver letter media size_bytes file_system
  dispatch (Command.delete letter force) = delete_disk fuel letter force
  dispatch (Command.delete_id adapter id force) = delete_by_identity fuel adapter id force
  dispatch (Command.list json) = listed

  -- `driver::execute`.
  unfoldable pub execute : (package_is_embedded : Bool) → Command → M W (Unit {0})
  execute true command = dispatch command
  execute false command = fail (
      message
        (text "no signed driver package is embedded; build with WISPDISK_DRIVER_PACKAGE_DIR set"))
