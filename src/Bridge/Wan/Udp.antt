-- ===== src/Bridge/Wan/Udp.antt =====
-- oathgate-bridge/src/net/wan/udp.rs: packets to and from UDP peers.
use oathgate.Common.{
  ℕ, ◌/◌, List, [], ◌∷◌, ◌++◌, take, ◌^◌, ◌==◌, if◌then◌else◌, Option, none, some, Outcome, ok, err,
  panic, ◌>>=◌, map_err,
}
use oathgate.Common.Bytes.{index}
use oathgate.Net.Ipv4.{Ipv4Packet, parse}
use oathgate.Bridge.Wan.{NetworkError, protocol, io, Output, route_ipv4, sent}

-- A datagram, or an error number.
pub data Arrival : Type 0 where
  datagram : List ℕ → Arrival
  failed : ℕ → Arrival

-- A datagram by the version in its first half byte; all but version 4 is dropped, that of version
-- 6 by the router.
unfoldable pub route_datagram : List ℕ → Outcome NetworkError (List Output)
unfolding parse
route_datagram pkt = do
  first ← index pkt 0
  if first / 2 ^ 4 == 4
      then (do p ← map_err protocol (parse pkt); ok (route_ipv4 p ∷ []))
      else ok []

-- The buffer of a `recv_from` has 1600 bytes.
unfoldable pub handle_arrival : Arrival → Outcome NetworkError (List Output)
unfolding route_datagram
handle_arrival (datagram bytes) = route_datagram (take 1600 bytes)
handle_arrival (failed e) = err (io e)

-- The loop: what was put out before an error stays, and the error ends the thread.
unfoldable pub run : List Output → List Arrival → List Output × Outcome NetworkError (Unit {0})
unfolding handle_arrival
run out [] = (out, ok tt)
run out (a ∷ arrivals) = elim (handle_arrival a) [
  | ok more ↦ run (out ++ more) arrivals
  | err e ↦ (out, err e)
  | panic ↦ (out, panic)
]

-- A packet goes to every destination in turn, until a send fails.
unfoldable pub write :
    (ℕ → Option ℕ)
    → List ℕ
    → List Output
    → Ipv4Packet
    → List Output × Outcome NetworkError (Unit {0})
write send [] out pkt = (out, ok tt)
write send (dest ∷ dests) out pkt = elim (send dest) [
  | none ↦ write send dests (out ++ sent dest pkt.bytes ∷ []) pkt
  | some e ↦ (out, err (io e))
]
