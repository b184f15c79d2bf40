-- ===== src/Disk.antt =====
-- cli/src/driver/windows/disk, the removal of a disk.
pub mod Absence
pub mod Deletion
pub mod Interfaces
pub mod Arrival
pub mod Provisioning
pub mod Removal
pub mod Opening
pub mod Allocation
pub mod Owner
pub mod Delete
pub mod Creation
