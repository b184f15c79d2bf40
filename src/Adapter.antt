-- ===== src/Adapter.antt =====
-- cli/src/driver/windows/adapter, the control protocol as the program speaks it: `Operations` is
-- control_operation.rs, `Transport` the sending of one request, `Requests` the protocol's steps and
-- `Mutations` the creation and the deletion of a disk, all of mod.rs, and `Reserved` is
-- reserved_operation.rs.
pub mod Operations
pub mod Discovery
pub mod Install
pub mod Transport
pub mod Reserved
pub mod Requests
pub mod Mutations
