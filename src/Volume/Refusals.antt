-- ===== src/Volume/Refusals.antt =====
-- cli/src/driver/windows/volume/mod.rs, locking a volume, and which failures are a refusal to lock.
use wisp_disk.Base.{ℕ, ◌≡◌, refl, Bool, true, false, ◌&&◌, ◌||◌, ◌==◌, arith}
use wisp_disk.Base.Text.{Text}
use wisp_disk.Errors.{Error, os_error, has_lock_failure, downcast_os_error, err}
use wisp_disk.Machine.{Windows, Process, Api, returned, failed, VolumeCode}
use wisp_disk.Machine.Io.{contextual, api_result}
use wisp_disk.Volume.{
  Volume, lock, lock_tried, volume_control, control_error, is_lock_refusal, is_access_denied,
}
use wisp_disk.Volume.Mounts.{succeeds, accepted}

abbrev pub is_lock : VolumeCode → Bool
is_lock VolumeCode.lock = true
is_lock VolumeCode.dismount = false
is_lock VolumeCode.unlock = false

control_error-refusal :
    (code : VolumeCode) (operation : Text) (last_error : ℕ)
    → is_lock_refusal (control_error code operation (os_error last_error))
      ≡ (is_lock code && last_error == 5)
unfolding is_lock_refusal control_error has_lock_failure downcast_os_error is_access_denied
control_error-refusal VolumeCode.lock operation last_error = refl
control_error-refusal VolumeCode.dismount operation last_error = refl
control_error-refusal VolumeCode.unlock operation last_error = refl

-- The same of the answer of Windows.
contextual_refusal :
    (code : VolumeCode) (operation : Text) (reply : Api (Unit {0})) (e : Error)
    → contextual (control_error code operation) (api_result reply) ≡ err e
    → (last_error : ℕ) × (reply ≡ failed last_error)
      × (is_lock_refusal e ≡ (is_lock code && last_error == 5))
contextual_refusal code operation (returned done) e h = cc
contextual_refusal code operation (failed last_error) e h =
    (last_error, refl, ground (arith, control_error-refusal code operation last_error))

module _ {W : Windows} where
  -- `lock` succeeds when Windows grants the lock or `/force` is given, and marks the volume as held
  -- exactly when Windows granted it.
  pub lock-grants :
      (force : Bool) (v : Volume W) (p : Process W)
      → (succeeds (lock force v p).0
          ≡ (accepted (W.volume_control v.handle VolumeCode.lock p.os).0 || force))
        × ((lock force v p).1.locked
            ≡ (accepted (W.volume_control v.handle VolumeCode.lock p.os).0 || v.locked))
  unfolding lock lock_tried volume_control
  lock-grants force v p = (ground arith, ground arith)

  -- What a failed control call fails with is a refusal to lock, which the rollback retries, exactly
  -- when the call was for the lock and Windows answered that access is denied.
  pub volume_control-refusal :
      (handle : W.Handle) (code : VolumeCode) (operation : Text) (p : Process W) (e : Error)
      → (volume_control handle code operation p).0 ≡ err e
      → (last_error : ℕ) × ((W.volume_control handle code p.os).0 ≡ failed last_error)
        × (is_lock_refusal e ≡ (is_lock code && last_error == 5))
  unfolding volume_control
  volume_control-refusal handle code operation p e h =
      contextual_refusal code operation (W.volume_control handle code p.os).0 e h
