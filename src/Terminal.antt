-- ===== src/Terminal.antt =====
-- The terminals of the guests: the runner's side of a connection (oathgate-runner/src/pty/fabrial.rs)
-- and the agent's in the guest (oathgate-fabrial/src/tty.rs), which the runner's messages are for.
pub mod Client
pub mod Agent
pub mod Messages
pub mod Session
pub mod Attach
pub mod Guest
mod Tests
