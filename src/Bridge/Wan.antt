-- ===== src/Bridge/Wan.antt =====
-- oathgate-bridge/src/net/wan.rs, wan/udp.rs, wan/tap.rs: connections to the wide area network. What
-- they put out is a list: packets handed to the router, and bytes sent. Sockets, devices and the
-- channels between threads are not modelled; what they
-- give is an argument.
pub mod Udp
pub mod Tap
pub mod Wireguard
mod Tests
use oathgate.Common.{ℕ, List}
use oathgate.Net.Error.{ProtocolError}
use oathgate.Net.Ipv4.{Ipv4Packet}

pub data NetworkError : Type 0 where
  protocol : ProtocolError → NetworkError
  missing_fragment : NetworkError
  io : ℕ → NetworkError

-- A packet for the router, bytes to a peer, or bytes to a device. A packet of version 6 is nothing,
-- since the router drops it.
pub data Output : Type 0 where
  route_ipv4 : Ipv4Packet → Output
  sent : ℕ → List ℕ → Output
  device_write : List ℕ → Output
