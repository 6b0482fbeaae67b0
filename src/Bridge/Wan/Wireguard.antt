-- ===== src/Bridge/Wan/Wireguard.antt =====
-- oathgate-bridge/src/net/wan/wireguard.rs: a WireGuard tunnel with address translation. The
-- tunnel's cryptography (crate boringtun) is a parameter, `Tunn`; so is whether a send fails.
pub mod Kept
pub mod Fragments
pub mod Translation
pub mod Queue
use oathgate.Common.{
  ℕ, zero, suc, Bool, true, false, List, [], ◌∷◌, ◌++◌, take, ◌==◌, if◌then◌else◌, Option, none,
  some, ℕ_discrete, Outcome, ok, err, panic, ◌>>=◌, ◌>>◌, map_err,
}
use oathgate.Common.HashMap.{HashMap}
use oathgate.Common.HashMap
use oathgate.Net.Ipv4.{
  Ipv4Header, Ipv4Packet, extract_from_slice, parse, has_fragments, add_fragment_data, payload,
  finalize, masquerade, unmasquerade,
}
use oathgate.Net.Nat.{NatTable, insert, get}
use oathgate.Bridge.Wan.{NetworkError, protocol, missing_fragment, io, Output, route_ipv4, sent}

-- What the tunnel asks for.
pub data TunnResult : Type 0 where
  tun_error : ℕ → TunnResult
  done : TunnResult
  write_to_network : List ℕ → TunnResult
  write_to_tunnel_v4 : List ℕ → TunnResult
  write_to_tunnel_v6 : List ℕ → TunnResult

pub record Tunn : Type 1 where
  pub State : Type 0
  pub encapsulate : List ℕ → State → State × TunnResult
  -- the peer's address and a datagram; no bytes ask for what is queued
  pub decapsulate : ℕ → List ℕ → State → State × TunnResult
  pub update_timers : State → State × TunnResult

-- What `recv_from` gives: the peer's address and its bytes, or an error number.
pub data Arrival : Type 0 where
  datagram : ℕ → List ℕ → Arrival
  failed : ℕ → Arrival

module _ (tunn : Tunn) (send : List ℕ → Option ℕ) where
  pub record WgDevice : Type 0 where
    pub tun : tunn.State
    pub endpoint : ℕ
    pub ipv4 : ℕ
    pub nat : NatTable
    pub cache : HashMap ℕ Ipv4Packet
    pub out : List Output

  abbrev pub Step : Type 0 → Type 0
  Step A = WgDevice → WgDevice × Outcome NetworkError A

  abbrev pub continue :
      {A B : Type 0}
      → WgDevice × Outcome NetworkError A
      → (A → Step B)
      → WgDevice × Outcome NetworkError B
  continue (d, ok a) f = f a d
  continue (d, err e) f = (d, err e)
  continue (d, panic) f = (d, panic)

  infixl 4 ◌>=>◌
  abbrev pub ◌>=>◌ : {A B : Type 0} → Step A → (A → Step B) → Step B
  ◌>=>◌ m f d = continue (m d) f

  abbrev pub lift : {A : Type 0} → Outcome NetworkError A → Step A
  lift r d = (d, r)

  unfoldable pub put : Output → Step (Unit {0})
  put o d = (record d { out = d.out ++ o ∷ [] }, ok tt)

  -- A fragment is put into the packet that is kept under its identification, if there is one.
  unfoldable pub add_to : ℕ → ℕ → Ipv4Packet → Option Ipv4Packet → Step (Option Ipv4Packet)
  unfolding add_fragment_data payload
  add_to id offset pkt none d = (d, ok none)
  add_to id offset pkt (some kept) d =
      elim (map_err protocol (payload pkt >>= add_fragment_data kept offset)) [
        | ok longer ↦ (record d { cache = HashMap.insert ℕ_discrete d.cache id longer }, ok none)
        | err e ↦ (d, err e)
        | panic ↦ (d, panic)
      ]

  -- The last fragment completes the packet that was kept, which leaves the cache.
  unfoldable pub complete : ℕ → ℕ → Ipv4Packet → Option Ipv4Packet → Step (Option Ipv4Packet)
  unfolding add_fragment_data payload finalize
  complete id offset pkt none d = (d, err missing_fragment)
  complete id offset pkt (some kept) d = (
    record d { cache = HashMap.remove ℕ_discrete d.cache id },
    map_err protocol (do
      fragment ← payload pkt
      longer ← add_fragment_data kept offset fragment
      whole ← finalize longer
      ok (some whole)),
  )

  -- `match (pkt.has_fragments(), pkt.fragment_offset())`
  unfoldable pub rebuild : Ipv4Packet → Step (Option Ipv4Packet)
  unfolding has_fragments add_to complete
  rebuild pkt d =
      let id = pkt.header.id in
      let offset = pkt.header.frag_offset in
      let kept = HashMap.get ℕ_discrete d.cache id in
      if offset == 0
      then (if has_fragments pkt
          then (record d { cache = HashMap.insert ℕ_discrete d.cache id pkt }, ok none)
          else (d, ok (some pkt)))
      else if has_fragments pkt
      then add_to id offset pkt kept d
      else complete id offset pkt kept d

  -- The original address, and the packet to the router; without an entry it is dropped.
  unfoldable pub restore_as : Ipv4Packet → Option ℕ → Step (Unit {0})
  unfolding unmasquerade put
  restore_as pkt none = lift (ok tt)
  restore_as pkt (some orig) =
      lift (map_err protocol (unmasquerade orig pkt)) >=> λ p. put (route_ipv4 p)

  unfoldable pub restore : Option Ipv4Packet → Step (Unit {0})
  unfolding restore_as
  restore none d = (d, ok tt)
  restore (some pkt) d = (lift (map_err protocol (get d.nat pkt)) >=> restore_as pkt) d

  -- A packet from the tunnel.
  unfoldable pub receive_v4 : List ℕ → Step (Unit {0})
  unfolding extract_from_slice parse rebuild restore
  receive_v4 bytes = lift (map_err protocol (parse bytes)) >=> λ pkt. rebuild pkt >=> restore

  -- True if something was sent to the network. A packet of version 6 goes to the router, which
  -- drops it.
  unfoldable pub handle_tun_result : TunnResult → Step Bool
  unfolding receive_v4 put
  handle_tun_result (tun_error e) d = (d, ok false)
  handle_tun_result done d = (d, ok false)
  handle_tun_result (write_to_network pkt) d = elim (send pkt) [
    | none ↦ (put (sent d.endpoint pkt) >=> λ _. lift (ok true)) d
    | some e ↦ (d, err (io e))
  ]
  handle_tun_result (write_to_tunnel_v4 bytes) d = (receive_v4 bytes >=> λ _. lift (ok false)) d
  handle_tun_result (write_to_tunnel_v6 bytes) d = (d, ok false)

  -- A call of the tunnel, and what it asks for.
  unfoldable pub tunnel : (tunn.State → tunn.State × TunnResult) → Step Bool
  unfolding handle_tun_result
  tunnel f d = let (s, action) = f d.tun in handle_tun_result action (record d { tun = s })

  -- The loop that asks for queued packets as long as something was sent, by the number of rounds.
  unfoldable pub decapsulate : ℕ → ℕ → List ℕ → Step (Unit {0})
  unfolding tunnel
  decapsulate zero peer bytes = lift panic
  decapsulate (suc rounds) peer bytes = tunnel (tunn.decapsulate peer bytes) >=> λ again.
      let rest = decapsulate rounds peer [] in if again then rest else lift (ok tt)

  -- The buffer of a `recv_from` has 1600 bytes.
  unfoldable pub handle_arrival : ℕ → Arrival → Step (Unit {0})
  unfolding decapsulate
  handle_arrival rounds (datagram peer bytes) = decapsulate rounds peer (take 1600 bytes)
  handle_arrival rounds (failed e) = lift (err (io e))

  -- The loop over the datagrams that have arrived.
  unfoldable pub handle_arrivals : ℕ → List Arrival → Step (Unit {0})
  unfolding handle_arrival
  handle_arrivals rounds [] = lift (ok tt)
  handle_arrivals rounds (a ∷ arrivals) =
      handle_arrival rounds a >=> λ _. handle_arrivals rounds arrivals

  -- A packet of the local network: its sender is entered, and replaced by the device's address.
  unfoldable pub send_packet : Ipv4Packet → Step (Unit {0})
  unfolding insert masquerade tunnel
  send_packet pkt d =
      (lift (map_err protocol (insert d.nat pkt)) >=> λ nat d'.
      (lift (map_err protocol (masquerade d'.ipv4 pkt)) >=> λ p.
      tunnel (tunn.encapsulate p.bytes) >=> λ _. lift (ok tt))
        (record d' { nat = nat }))
        d

  unfoldable pub send_packets : List Ipv4Packet → Step (Unit {0})
  unfolding send_packet
  send_packets [] = lift (ok tt)
  send_packets (pkt ∷ pkts) = send_packet pkt >=> λ _. send_packets pkts

  pub data Event : Type 0 where
    udp : List Arrival → Event
    waker : List Ipv4Packet → Event
    timer : Event

  unfoldable pub handle_event : ℕ → Event → Step (Unit {0})
  unfolding handle_arrivals send_packets tunnel
  handle_event rounds (udp arrivals) = handle_arrivals rounds arrivals
  handle_event rounds (waker pkts) = send_packets pkts
  handle_event rounds timer = tunnel tunn.update_timers >=> λ _. lift (ok tt)

  -- The thread over a sequence of events: an error ends it.
  unfoldable pub run : ℕ → List Event → Step (Unit {0})
  unfolding handle_event
  run rounds [] = lift (ok tt)
  run rounds (event ∷ events) = handle_event rounds event >=> λ _. run rounds events
