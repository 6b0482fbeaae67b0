-- ===== src/Vhost.antt =====
-- The crate oathgate-vhost: the virtio network device behind the vhost-user protocol.
pub mod Error
pub mod Types
pub mod NetHeader
pub mod Mapping
pub mod Queue
pub mod Device
pub mod Rings
pub mod Worker
mod Tests
