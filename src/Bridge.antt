-- ===== src/Bridge.antt =====
-- The crate oathgate-bridge: the switch, the router with its protocol handlers, and the DHCP server.
pub mod Switch
pub mod Dhcp
pub mod Handler
pub mod Router
pub mod Guests
pub mod Wan
mod Tests
