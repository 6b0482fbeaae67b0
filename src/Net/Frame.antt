-- ===== src/Net/Frame.antt =====
-- oathgate-net/src/frame.rs: Ethernet frames.
pub mod RoundTrip
use oathgate.Common.{
  ℕ, List, [], ◌∷◌, ◌++◌, length, take, drop, replicate, ltb, if◌then◌else◌, Outcome, ok, err,
  ◌>>=◌,
}
use oathgate.Common.Bytes.{be16_bytes, slice, copy_from_slice}
use oathgate.Net.Error.{ProtocolError, not_enough_data}
use oathgate.Net.EtherType.{EtherType, as_u16, try_from_bytes}
use oathgate.Net.Mac.{MacAddress, as_bytes}
use oathgate.Net.Mac

abbrev pub ethernet_frame_size : ℕ
ethernet_frame_size = 14

pub record EthernetFrame : Type 0 where
  pub dst : MacAddress
  pub src : MacAddress
  pub ethertype : EtherType

pub record EthernetPacket : Type 0 where
  pub frame : EthernetFrame
  pub payload : List ℕ

-- The header's three fields, from the 14 bytes that were drained.
unfoldable pub read_header : List ℕ → Outcome ProtocolError EthernetFrame
unfolding Mac.parse try_from_bytes
read_header hdr = do
  dst ← Mac.parse (← slice hdr 0 6)
  src ← Mac.parse (← slice hdr 6 12)
  ethertype ← try_from_bytes (← slice hdr 12 14)
  ok (record { dst = dst; src = src; ethertype = ethertype })

-- The result, and what is left of the vector.
unfoldable pub extract : List ℕ → Outcome ProtocolError EthernetFrame × List ℕ
unfolding read_header
extract pkt =
    if ltb (length pkt) 14
    then (err (not_enough_data (length pkt) 14), pkt)
    else (read_header (take 14 pkt), drop 14 pkt)

unfoldable pub gen_reply : EthernetFrame → EthernetFrame
gen_reply f = record { dst = f.src; src = f.dst; ethertype = f.ethertype }

-- Writes the header over the first 14 bytes of the buffer.
unfoldable pub frame_bytes : EthernetFrame → List ℕ → Outcome ProtocolError (List ℕ)
unfolding as_u16
frame_bytes f pkt = do
  pkt ← copy_from_slice pkt 0 6 (as_bytes f.dst)
  pkt ← copy_from_slice pkt 6 12 (as_bytes f.src)
  copy_from_slice pkt 12 14 (be16_bytes (as_u16 f.ethertype))

unfoldable pub to_bytes : EthernetFrame → Outcome ProtocolError (List ℕ)
unfolding frame_bytes
to_bytes f = frame_bytes f (replicate ethernet_frame_size 0)
