-- ===== src/Adapter/Mutations/Deleted.antt =====
-- cli/src/driver/windows/adapter/mod.rs, on a success of `delete_by_id`.
use mathlib.Core.Path.{subst}
use wisp_disk.Base.{ℕ, ◌≡◌, false, some, arith}
use wisp_disk.Protocol.{StateResponse, ReservedDeleteRequest, delete_disk}
use wisp_disk.Errors.{OperationHandle, unresolved_outcome, ok}
use wisp_disk.Machine.{Windows, Process}
use wisp_disk.Machine.Io
use wisp_disk.Machine.Loops.{run, >>=-eq_ok}
use wisp_disk.Adapter.Operations.{delete_reserved_operation}
use wisp_disk.Adapter.Requests.{
  Adapter, recover, reserve, query_state, lists_device, start_delete, confirm_delete,
}
use wisp_disk.Adapter.Mutations.{delete_by_id}

module _ {W : Windows} (adapter : Adapter W) where
  -- The inventory of this adapter instance, read last, which no longer lists the device.
  pub record IsGone (expected_instance device_id : ℕ) (p' : Process W) : Type 0 where
    pub before : Process W
    pub inventory : StateResponse
    pub read_last : query_state adapter before ≡ (ok inventory, p')
    pub same_instance : inventory.adapter_instance ≡ expected_instance
    pub not_listed : lists_device device_id inventory ≡ false

  confirm_delete-IsGone :
      (handle : OperationHandle) (device_id : ℕ) (p p' : Process W)
      → confirm_delete adapter handle device_id p ≡ (ok tt, p')
      → IsGone handle.adapter_instance device_id p'
  unfolding confirm_delete
  confirm_delete-IsGone handle device_id p p' h =
      let (inventory, found, rest) =
        Io.>>=-eq_ok (Io.map_err (unresolved_outcome handle) (query_state adapter)) _ p h in
      record {
        before = p;
        inventory = inventory;
        read_last = ground arith;
        same_instance = ground arith;
        not_listed = ground arith;
      }

  start_delete-same_instance :
      (expected_instance device_id : ℕ) (p : Process W) (handle : OperationHandle)
      (request : ReservedDeleteRequest) (q : Process W)
      → start_delete adapter expected_instance device_id p ≡ (ok (handle, request), q)
      → handle.adapter_instance ≡ expected_instance
  unfolding start_delete
  start_delete-same_instance expected_instance device_id p handle request q h =
      let (reserved, found, rest) = Io.>>=-eq_ok (reserve adapter delete_disk) _ p h in ground arith

  -- A success of `delete_by_id` rests on an inventory of the named adapter instance, read last, in
  -- which the device is no longer listed.
  pub delete_by_id-IsGone :
      (fuel expected_instance device_id : ℕ) (p p' : Process W)
      → delete_by_id adapter fuel expected_instance device_id p ≡ some (ok tt, p')
      → IsGone expected_instance device_id p'
  unfolding delete_by_id
  delete_by_id-IsGone fuel expected_instance device_id p p' h =
      let ((handle, request), q, started, rest) =
        >>=-eq_ok (run (start_delete adapter expected_instance device_id)) _ p h in
      let (reply, q', recovered, last) =
        >>=-eq_ok (recover adapter fuel delete_reserved_operation handle delete_disk request) _ q
          rest in
      subst (λ n. IsGone n device_id p')
        (start_delete-same_instance expected_instance device_id p handle request q (cc started))
        (confirm_delete-IsGone handle device_id q' p' (cc last))
