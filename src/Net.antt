-- ===== src/Net.antt =====
-- The crate oathgate-net: packets of the network protocols, and the tables kept about them.
pub mod Error
pub mod EtherType
pub mod Mac
pub mod Network
pub mod Checksum
pub mod Frame
pub mod Ipv4
pub mod Arp
pub mod Icmp
pub mod Nat
mod Tests
