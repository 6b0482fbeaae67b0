-- ===== src/Bridge/Wan/Tap.antt =====
-- oathgate-bridge/src/net/wan/tap.rs: packets written to a tun or tap device.
use oathgate.Common.{ℕ, List, [], ◌∷◌, ◌++◌, Option, none, some}
use oathgate.Net.Ipv4.{Ipv4Packet}
use oathgate.Bridge.Wan.{Output, device_write}

-- What wakes the loop: bytes on the device (an error number if they cannot be read), packets to
-- write, or an unknown token.
pub data Event : Type 0 where
  readable : Option ℕ → Event
  writable : List Ipv4Packet → Event
  unknown : ℕ → Event

-- A packet that cannot be written is logged, and the loop goes on.
unfoldable pub write_to_device : (List ℕ → Option ℕ) → Ipv4Packet → List Output
write_to_device write pkt = elim (write pkt.bytes) [
  | none ↦ device_write pkt.bytes ∷ []
  | some e ↦ []
]

unfoldable pub write_all : (List ℕ → Option ℕ) → List Ipv4Packet → List Output
unfolding write_to_device
write_all write [] = []
write_all write (pkt ∷ pkts) = write_to_device write pkt ++ write_all write pkts

-- What is read from the device is not used.
unfoldable pub handle_event : (List ℕ → Option ℕ) → Event → List Output
unfolding write_all
handle_event write (readable failed) = []
handle_event write (writable pkts) = write_all write pkts
handle_event write (unknown t) = []

unfoldable pub run : (List ℕ → Option ℕ) → List Event → List Output
unfolding handle_event
run write [] = []
run write (event ∷ events) = handle_event write event ++ run write events
