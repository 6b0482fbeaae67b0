-- ===== src/Vhost/Device.antt =====
-- oathgate-vhost/src/device.rs: the state of a device, and the actions its message handlers are made
-- of. A system call is a value of `Syscall`; the system's answer is a parameter (`none`, or an error
-- number), and the calls made are kept in the state, the last one first. A file descriptor is a number.
mod Monad
pub mod Messages
pub mod Replies
pub mod Queues
pub mod Memory
pub use Monad.*
