-- ===== src/Tests.antt =====
-- Runs of the program on a small simulated system, at which the theorems are applied.
mod Responses
mod System
mod Adapter
mod Recovery
mod Volume
mod Removal
mod Args
mod Provisioning
mod Deletion
mod Creation
mod Owner
mod Freed
mod Undone
mod BuildTool
mod Inventory
