-- ===== src/Runner.antt =====
-- The runner of a virtual machine (oathgate-runner/src): its terminals and the loop that serves them.
pub mod Vm
pub mod Terminals
pub mod Hypervisor
mod Tests
