-- ===== src/Manager.antt =====
-- The command line's database and what runs from it (oathgate/src): processes, kernels, disk images,
-- bridges and virtual machines, and the commands on them.
pub mod Process
pub mod Database
pub mod State
pub mod Kernel
pub mod Image
pub mod Device
pub mod Shard
pub mod Logger
pub mod Commands
mod Tests
