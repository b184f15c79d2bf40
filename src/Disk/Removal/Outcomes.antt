-- ===== src/Disk/Removal/Outcomes.antt =====
-- cli/src/driver/windows/disk/removal.rs, the ends of `delete_allocation` once the volumes are open.
use wisp_disk.Base.{ℕ, ◌≡◌, refl, Bool, true, false, Option, none, some, if◌then◌else◌}
use mathlib.Core.Path.{subst}
use wisp_disk.Base.Text.{Text}
use wisp_disk.Protocol.{StateResponse}
use wisp_disk.Errors.{OperationHandle, Error, Result, ok, err, downcast_unresolved}
use wisp_disk.Machine.{Windows, Process}
use wisp_disk.Adapter.Requests.{Adapter, query_state}
use wisp_disk.Adapter.Mutations.{delete_by_id}
use wisp_disk.Adapter.Mutations.Deleted.{IsGone, delete_by_id-IsGone}
use wisp_disk.Volume.{Changed}
use wisp_disk.Disk.Deletion.{restore_all}
use wisp_disk.Disk.Removal.{
  Volumes, still_online, prepare, abandon, restored, rejected, left, inventory_read,
  deletion_failed, deletion_answered, prepared, remove_allocation,
}

module _ {W : Windows} (adapter : Adapter W) (fuel instance_id device_id : ℕ) where
  abbrev delete : Process W → Option (Result (Unit {0}) × Process W)
  delete = delete_by_id adapter fuel instance_id device_id

  -- The ends, each with the volumes and the process that are left.
  pub data Ends (force : Bool) (vs : Volumes W) (p : Process W)
      : Changed W (Volumes W) → Type 0 where
    -- The driver's inventory does not list the device any more.
    gone :
        {vs' : Volumes W} {p' : Process W}
        → IsGone adapter instance_id device_id p'
        → Ends force vs p (ok tt, vs', p')
    -- The preparation failed: the volumes are restored, and the adapter was not called.
    not_prepared :
        (e e' : Error) (vs₁ : Volumes W) (p₁ : Process W) (r : Result (Unit {0})) {vs' : Volumes W}
        {p' : Process W}
        → prepare force vs p ≡ (err e, vs₁, p₁)
        → restore_all vs₁ p₁ ≡ (r, vs', p')
        → Ends force vs p (err e', vs', p')
    -- The deletion failed for certain: an inventory read behind it lists the device as online, and
    -- the volumes are restored.
    put_back :
        (e e' : Error) (vs₁ : Volumes W) (p₁ p₂ p₃ : Process W) (state : StateResponse)
        (r : Result (Unit {0})) {vs' : Volumes W} {p' : Process W}
        → prepare force vs p ≡ (ok tt, vs₁, p₁)
        → delete p₁ ≡ some (err e, p₂)
        → downcast_unresolved e ≡ none
        → query_state adapter p₂ ≡ (ok state, p₃)
        → still_online instance_id device_id state ≡ true
        → restore_all vs₁ p₃ ≡ (r, vs', p')
        → Ends force vs p (err e', vs', p')
    -- The deletion failed otherwise: the volumes stay as they were prepared.
    left_alone :
        (e e' : Error) (p₁ p₂ : Process W) {vs' : Volumes W} {p' : Process W}
        → prepare force vs p ≡ (ok tt, vs', p₁)
        → delete p₁ ≡ some (err e, p₂)
        → Ends force vs p (err e', vs', p')

  module _ (force : Bool) (vs : Volumes W) (p : Process W) where
    rejected-Ends :
        (e : Error) (action : Text) (otherwise : Error) (vs₁ : Volumes W) (p₁ p₂ p₃ : Process W)
        (state : StateResponse) (x : Changed W (Volumes W))
        → prepare force vs p ≡ (ok tt, vs₁, p₁)
        → delete p₁ ≡ some (err e, p₂)
        → downcast_unresolved e ≡ none
        → query_state adapter p₂ ≡ (ok state, p₃)
        → still_online instance_id device_id state ≡ true
        → restore_all vs₁ p₃ ≡ x
        → Ends force vs p (restored e action otherwise x)
    unfolding restored
    rejected-Ends e action otherwise vs₁ p₁ p₂ p₃ state (ok done, vs', p') h k n q o r =
        put_back e _ vs₁ p₁ p₂ p₃ state (ok done) h k n q o r
    rejected-Ends e action otherwise vs₁ p₁ p₂ p₃ state (err e', vs', p') h k n q o r =
        put_back e _ vs₁ p₁ p₂ p₃ state (err e') h k n q o r

    still_online-Ends :
        (e : Error) (vs₁ : Volumes W) (p₁ p₂ p₃ : Process W) (state : StateResponse) (online : Bool)
        → prepare force vs p ≡ (ok tt, vs₁, p₁)
        → delete p₁ ≡ some (err e, p₂)
        → downcast_unresolved e ≡ none
        → query_state adapter p₂ ≡ (ok state, p₃)
        → still_online instance_id device_id state ≡ online
        → Ends force vs p (
            if online
            then rejected adapter fuel instance_id device_id e vs₁ p₃
            else left adapter fuel instance_id device_id e vs₁ p₃)
    unfolding rejected left
    still_online-Ends e vs₁ p₁ p₂ p₃ state true h k n q o =
        rejected-Ends e _ _ vs₁ p₁ p₂ p₃ state (restore_all vs₁ p₃) h k n q o refl
    still_online-Ends e vs₁ p₁ p₂ p₃ state false h k n q o = left_alone e _ p₁ p₂ h k

    inventory_read-Ends :
        (e : Error) (vs₁ : Volumes W) (p₁ p₂ : Process W) (r : Result StateResponse × Process W)
        → prepare force vs p ≡ (ok tt, vs₁, p₁)
        → delete p₁ ≡ some (err e, p₂)
        → downcast_unresolved e ≡ none
        → query_state adapter p₂ ≡ r
        → Ends force vs p (inventory_read adapter fuel instance_id device_id e vs₁ r)
    unfolding inventory_read left
    inventory_read-Ends e vs₁ p₁ p₂ (ok state, p₃) h k n q =
        still_online-Ends e vs₁ p₁ p₂ p₃ state (still_online instance_id device_id state) h k n q
          refl
    inventory_read-Ends e vs₁ p₁ p₂ (err _, p₃) h k n q = left_alone e _ p₁ p₂ h k

    deletion_failed-Ends :
        (unresolved : Option OperationHandle) (e : Error) (vs₁ : Volumes W) (p₁ p₂ : Process W)
        → prepare force vs p ≡ (ok tt, vs₁, p₁)
        → delete p₁ ≡ some (err e, p₂)
        → downcast_unresolved e ≡ unresolved
        → Ends force vs p (deletion_failed adapter fuel instance_id device_id unresolved e vs₁ p₂)
    unfolding deletion_failed left
    deletion_failed-Ends (some handle) e vs₁ p₁ p₂ h k n = left_alone e _ p₁ p₂ h k
    deletion_failed-Ends none e vs₁ p₁ p₂ h k n =
        inventory_read-Ends e vs₁ p₁ p₂ (query_state adapter p₂) h k n refl

    abandoned-Ends :
        (e : Error) (action : Text) (vs₁ : Volumes W) (p₁ : Process W) (x : Changed W (Volumes W))
        → prepare force vs p ≡ (err e, vs₁, p₁)
        → restore_all vs₁ p₁ ≡ x
        → Ends force vs p (restored e action e x)
    unfolding restored
    abandoned-Ends e action vs₁ p₁ (ok done, vs', p') h r = not_prepared e _ vs₁ p₁ (ok done) h r
    abandoned-Ends e action vs₁ p₁ (err e', vs', p') h r = not_prepared e _ vs₁ p₁ (err e') h r

    -- What the deletion comes to, for each of its answers.
    data Answers : Option (Changed W (Volumes W)) → Type 0 where
      no_answer : Answers none
      answer : {x : Changed W (Volumes W)} → Ends force vs p x → Answers (some x)

    deletion_answered-Answers :
        (vs₁ : Volumes W) (p₁ : Process W) (o : Option (Result (Unit {0}) × Process W))
        → prepare force vs p ≡ (ok tt, vs₁, p₁)
        → delete p₁ ≡ o
        → Answers (deletion_answered adapter fuel instance_id device_id vs₁ o)
    unfolding deletion_answered
    deletion_answered-Answers vs₁ p₁ none h k = no_answer
    deletion_answered-Answers vs₁ p₁ (some (ok done, p₂)) h k =
        answer (gone (delete_by_id-IsGone adapter fuel instance_id device_id p₁ p₂ k))
    deletion_answered-Answers vs₁ p₁ (some (err e, p₂)) h k =
        answer (deletion_failed-Ends (downcast_unresolved e) e vs₁ p₁ p₂ h k refl)

    prepared-Answers :
        (x : Changed W (Volumes W))
        → prepare force vs p ≡ x
        → Answers (prepared adapter fuel instance_id device_id x)
    unfolding prepared abandon
    prepared-Answers (ok done, vs₁, p₁) h = deletion_answered-Answers vs₁ p₁ (delete p₁) h refl
    prepared-Answers (err e, vs₁, p₁) h =
        answer (abandoned-Ends e _ vs₁ p₁ (restore_all vs₁ p₁) h refl)

    Answers-Ends :
        (o : Option (Changed W (Volumes W))) {x : Changed W (Volumes W)}
        → Answers o
        → o ≡ some x
        → Ends force vs p x
    Answers-Ends none a h = cc
    Answers-Ends (some y) (answer e) h = subst (Ends force vs p) (cc h) e

    -- Once the volumes are open, `delete_allocation` ends with the device gone from the inventory,
    -- with the volumes restored because the preparation failed before the adapter was called, with
    -- the volumes restored because a read of the inventory still lists the device as online after a
    -- resolved failure, or with a failure and the volumes as they were prepared.
    pub remove_allocation-Ends :
        {x : Changed W (Volumes W)}
        → remove_allocation adapter fuel instance_id device_id force vs p ≡ some x
        → Ends force vs p x
    unfolding remove_allocation
    remove_allocation-Ends h = Answers-Ends _ (prepared-Answers (prepare force vs p) refl) h
