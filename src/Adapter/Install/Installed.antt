-- ===== src/Adapter/Install/Installed.antt =====
-- cli/src/driver/windows/adapter/install.rs, `create_if_missing` and `install` put together, and what a
-- success rests on.
use wisp_disk.Base.{ℕ, ◌≡◌, Bool, false, Option, some}
use wisp_disk.Base.Text.{Text}
use wisp_disk.Errors.{ok}
use wisp_disk.Machine.{Windows, Process, returned, M}
use wisp_disk.Machine.Loops.{run, ◌>>=◌}
use wisp_disk.Adapter.Install.{
  CreatedDevice, root_hardware_id, device_exists, bind_driver, stage_package, create_unless,
}

unfoldable pub create_if_missing : {W : Windows} → ℕ → M W (Option (CreatedDevice W))
create_if_missing fuel = do exists ← device_exists fuel; run (create_unless exists)

unfoldable pub install : {W : Windows} → ℕ → Text → M W (Unit {0})
install fuel inf = do
  reboot_required ← run (stage_package inf)
  created ← create_if_missing fuel
  run (bind_driver inf reboot_required created)

-- The root device, which was there or was registered, and the driver bound to it last, with no reboot
-- pending.
pub record IsInstalled {W : Windows} (fuel : ℕ) (inf : Text) (p' : Process W) : Type 0 where
  pub searched : Process W
  pub exists : Bool
  pub looked : Process W
  pub created : Option (CreatedDevice W)
  pub ready : Process W
  pub reboot_required : Bool
  pub asked : device_exists fuel searched ≡ some (ok exists, looked)
  pub made : create_unless exists looked ≡ (ok created, ready)
  pub bound_last :
      W.update_driver root_hardware_id inf reboot_required ready.os ≡ (returned false, p'.os)
