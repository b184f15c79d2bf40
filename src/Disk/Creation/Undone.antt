-- ===== src/Disk/Creation/Undone.antt =====
-- cli/src/driver/windows/disk/creation.rs, what a failed setup leaves of the disk.
use wisp_disk.Base.{ℕ, ◌+◌, ◌≡◌, refl, false, Option, none, some, arith}
use mathlib.Core.Path.{subst}
use wisp_disk.Args.{DriveLetter, MediaKind, FileSystem}
use wisp_disk.Errors.{Error, context, recovery_failed, Result, ok, err, error_exit_code}
use wisp_disk.Errors.ExitCode.{exit_code-of_recovery}
use wisp_disk.Machine.{Windows, Process, M}
use wisp_disk.Adapter.Requests.{Adapter, CreatedDisk}
use wisp_disk.Adapter.Reserved.{device_wait}
use wisp_disk.Disk.Delete.{delete_allocation}
use wisp_disk.Disk.Delete.Confirmed.{IsDeleted, delete_allocation-IsDeleted}
use wisp_disk.Disk.Creation.{
  initialize_created_disk, rollback_created_disk, with_error, rollback_error, rollback_action,
  rolled_back, initialized, set_up_or_roll_back,
}
use wisp_disk.Disk.Creation.Rollback.{
  Tries, deleted, failed_otherwise, too_late, tried_again, rollback_rounds-Tries,
}
use wisp_disk.Disk.Creation.Checks.{rolled-eq}

module _ {W : Windows} (delete : M W (Unit {0})) (deadline : ℕ) where
  -- A success of the tries is the success of one of them, the last.
  Tries-eq_ok :
      {p p' : Process W} {r : Result (Unit {0})}
      → Tries delete deadline p r p'
      → r ≡ ok tt
      → (tried : Process W) × (delete tried ≡ some (ok tt, p'))
  Tries-eq_ok {p} (deleted d) h = (p, d)
  Tries-eq_ok (failed_otherwise e d f) h = cc
  Tries-eq_ok (too_late e q os now d f n l s) h = cc
  Tries-eq_ok (tried_again e q os now d f n l again) h = Tries-eq_ok again h

-- What is left of a disk whose setup failed, with the error that `add_disk` ends with.
pub data Undone {W : Windows} (fuel : ℕ) (adapter : Adapter W) (created : CreatedDisk)
    (letter : DriveLetter) (media : MediaKind) (size_bytes : ℕ) (file_system : FileSystem)
    (p : Process W) : Error → Process W → Type 0 where
  -- This very device is deleted, as the last of the tries confirmed.
  undone :
      {p' : Process W} (e : Error) (q tried : Process W)
      → initialize_created_disk fuel adapter created letter media size_bytes file_system p
        ≡ some (err e, q)
      → IsDeleted fuel adapter created.adapter_instance created.device_id tried p'
      → Undone fuel adapter created letter media size_bytes file_system p (context rolled_back e) p'
  -- The deletion of this device was tried at the end of the setup, and again only within the thirty
  -- seconds behind it, and failed; an unresolved failure is not hidden behind that of the setup.
  not_undone :
      {p' : Process W} (e failure : Error) (q : Process W) (os : W.State) (now : ℕ)
      → initialize_created_disk fuel adapter created letter media size_bytes file_system p
        ≡ some (err e, q)
      → W.now q.os ≡ (now, os)
      → Tries
          (delete_allocation fuel adapter created.adapter_instance created.device_id false)
          (now + device_wait)
          (record q { os = os })
          (err failure)
          p'
      → (error_exit_code failure ≡ 3
          → error_exit_code (recovery_failed e (rollback_action created) failure) ≡ 3)
      → Undone fuel adapter created letter media size_bytes file_system p
          (recovery_failed e (rollback_action created) failure)
          p'

module _ {W : Windows} (fuel : ℕ) (adapter : Adapter W) (created : CreatedDisk)
    (letter : DriveLetter) (media : MediaKind) (size_bytes : ℕ) (file_system : FileSystem)
    (p : Process W) where
  abbrev Left : Error → Process W → Type 0
  Left = Undone fuel adapter created letter media size_bytes file_system p

  with_error-Undone :
      (e : Error) (q : Process W) (o : Option (Result (Unit {0}) × Process W)) {e' : Error}
      {p' : Process W}
      → initialize_created_disk fuel adapter created letter media size_bytes file_system p
        ≡ some (err e, q)
      → ((r : Result (Unit {0})) (p' : Process W)
          → o ≡ some (r, p')
          → Tries
              (delete_allocation fuel adapter created.adapter_instance created.device_id false)
              ((W.now q.os).0 + device_wait)
              (record q { os = (W.now q.os).1 })
              r
              p')
      → with_error created e o ≡ some (e', p')
      → Left e' p'
  unfolding with_error rollback_error
  with_error-Undone e q none i k h = cc
  with_error-Undone e q (some (ok done, q')) {e'} {p'} i k h =
      let (tried, d) = Tries-eq_ok _ _ (k (ok tt) p' (ground arith)) refl in
      let same : context rolled_back e ≡ e' = ground arith in
      subst (λ e. Left e p') same
        (undone e q tried i (
          delete_allocation-IsDeleted adapter fuel created.adapter_instance created.device_id false
            tried p' d))
  with_error-Undone e q (some (err failure, q')) {e'} {p'} i k h =
      let same : recovery_failed e (rollback_action created) failure ≡ e' = ground arith in
      subst (λ e. Left e p') same
        (not_undone e failure q (W.now q.os).1 (W.now q.os).0 i refl
          (k (err failure) p' (ground arith))
          (exit_code-of_recovery e (rollback_action created) failure))

  rollback_created_disk-Undone :
      (e : Error) (q : Process W) {e' : Error} {p' : Process W}
      → initialize_created_disk fuel adapter created letter media size_bytes file_system p
        ≡ some (err e, q)
      → rollback_created_disk fuel adapter created e q ≡ some (e', p')
      → Left e' p'
  unfolding rollback_created_disk
  rollback_created_disk-Undone e q i h =
      with_error-Undone e q _ i
        (λ r p' k.
          rollback_rounds-Tries
            (delete_allocation fuel adapter created.adapter_instance created.device_id false)
            ((W.now q.os).0 + device_wait) fuel (record q { os = (W.now q.os).1 }) r p' k)
        h

  initialized-Undone :
      (o : Option (Result (Unit {0}) × Process W)) {e' : Error} {p' : Process W}
      → initialize_created_disk fuel adapter created letter media size_bytes file_system p ≡ o
      → initialized fuel adapter created o ≡ some (err e', p')
      → Left e' p'
  unfolding initialized
  initialized-Undone none i h = cc
  initialized-Undone (some (ok done, q)) i h = cc
  initialized-Undone (some (err e, q)) {e'} {p'} i h =
      let (e'', same, rollback) = rolled-eq (rollback_created_disk fuel adapter created e q) h in
      let back : e'' ≡ e' = ground arith in
      subst (λ e. Left e p') back (rollback_created_disk-Undone e q i rollback)

  -- When add_disk fails behind the creation of a disk, its setup failed, and either this very
  -- device is deleted again, as the inventory and the absence of the disk confirm, and the error
  -- is that of the setup, or the deletion of this device, which was tried at the end of the setup
  -- and again only within the thirty seconds behind it, failed, and the error is that of the setup
  -- with that of the deletion, which exits with 3 when that of the deletion does.
  pub set_up_or_roll_back-Undone :
      (e : Error) (p' : Process W)
      → set_up_or_roll_back fuel adapter created letter media size_bytes file_system p
        ≡ some (err e, p')
      → Undone fuel adapter created letter media size_bytes file_system p e p'
  unfolding set_up_or_roll_back
  set_up_or_roll_back-Undone e p' h =
      initialized-Undone
        (initialize_created_disk fuel adapter created letter media size_bytes file_system p) refl h
