-- ===== src/Bridge/Router.antt =====
-- oathgate-bridge/src/net/router.rs: the layer 3 router. `Device` is what can be connected to the
-- switch, and `Handle` the connection to the wide area network. What a step puts out is a list of
-- deliveries of the switch and of packets written to the network. `id` is the identification that a
-- reply's header draws at random. Tracing and the channel are not modelled.
pub mod Actions
pub mod Answers
pub mod Sending
use oathgate.Common.{
  ℕ, ◌+◌, Bool, true, false, ◌||◌, List, [], ◌∷◌, ◌++◌, map, length, take, drop, replicate, ◌==◌,
  if◌then◌else◌, Option, none, some, ℕ_discrete, Outcome, ok, err, panic, ◌>>=◌,
}
use oathgate.Common.Bytes.{be16_bytes, slice_from}
use oathgate.Common.HashMap.{HashMap}
use oathgate.Common.HashMap
use oathgate.Net.Arp.{ArpPacket, IpAddr, v4, v6, to_reply, size, arp_bytes}
use oathgate.Net.Arp
use oathgate.Net.Error.{ProtocolError}
use oathgate.Net.EtherType.{EtherType, as_u16}
use oathgate.Net.Frame.{EthernetPacket}
use oathgate.Net.Ipv4.{Ipv4Packet, reply, write_header}
use oathgate.Net.Ipv4
use oathgate.Net.Mac.{MacAddress, as_bytes}
use oathgate.Net.Network.{Ipv4Network, contains, is_broadcast}
use oathgate.Bridge.Dhcp.Message.{Dhcproto}
use oathgate.Bridge.Handler.{ProtocolHandler, protocol, handle_protocol}
use oathgate.Bridge.Switch.{VirtioSwitch, Delivery, process}

abbrev pub ipv4_hdr_sz : ℕ
ipv4_hdr_sz = 20

unfoldable pub IpAddr-discrete : Discrete IpAddr
IpAddr-discrete = hlevel ℕ_discrete

pub data RouterAction : Type 0 where
  to_lan : EtherType → IpAddr → List ℕ → RouterAction
  to_wan : Ipv4Packet → RouterAction
  drop_packet : List ℕ → RouterAction

pub data RouterMsg : Type 0 where
  from_lan : EthernetPacket → RouterMsg
  from_wan4 : Ipv4Packet → RouterMsg

module _ (proto : Dhcproto) (Device Handle : Type 0) where
  pub record Router : Type 0 where
    pub arp : HashMap IpAddr MacAddress
    pub switch : VirtioSwitch Device
    pub port : ℕ
    pub wan : Option Handle
    pub mac : MacAddress
    pub network : Ipv4Network
    pub ip4_handlers : HashMap ℕ (ProtocolHandler proto)

  pub data Output : Type 0 where
    delivered : Delivery Device → Output
    written : Handle → Ipv4Packet → Output

  unfoldable pub is_local : Router → IpAddr → Bool
  is_local r (v4 ip) = r.network.ip == ip
  is_local r (v6 ip) = false

  unfoldable pub is_global_broadcast : IpAddr → Bool
  is_global_broadcast (v4 ip) = is_broadcast ip
  is_global_broadcast (v6 ip) = false

  -- The answer with the router's address, if the packet asks for it.
  unfoldable pub answer_arp : Router → ArpPacket → List ℕ → Outcome ProtocolError RouterAction
  unfolding is_local is_global_broadcast
  answer_arp r arp pkt =
      if is_local r arp.tpa || is_global_broadcast arp.tpa
      then (do
        let arp' = to_reply r.mac arp
        rpkt ← arp_bytes arp' (replicate (size arp) 0)
        ok (to_lan EtherType.arp arp'.tpa rpkt))
      else ok (drop_packet pkt)

  unfoldable pub handle_parsed_arp :
      Router
      → List ℕ
      → Outcome ProtocolError ArpPacket
      → Router × Outcome ProtocolError RouterAction
  unfolding answer_arp
  handle_parsed_arp r pkt (ok arp) =
      let r' = record r { arp = HashMap.insert IpAddr-discrete r.arp arp.spa arp.sha } in
      (r', answer_arp r' arp pkt)
  handle_parsed_arp r pkt (err e) = (r, err e)
  handle_parsed_arp r pkt panic = (r, panic)

  unfoldable pub handle_arp : Router → List ℕ → Router × Outcome ProtocolError RouterAction
  unfolding handle_parsed_arp
  handle_arp r pkt = handle_parsed_arp r pkt (Arp.parse pkt)

  -- The reply's header in front of the `sz` bytes that a handler wrote; nothing if it wrote none.
  unfoldable pub build_reply :
      ℕ → Ipv4Packet → Outcome ProtocolError (List ℕ × ℕ) → Outcome ProtocolError RouterAction
  build_reply id pkt (ok (buf, sz)) = if sz == 0 then ok (drop_packet []) else (do
    let rpkt = take (ipv4_hdr_sz + sz) (replicate ipv4_hdr_sz 0 ++ buf)
    let hdr = reply id pkt (drop ipv4_hdr_sz rpkt)
    front ← write_header hdr (take ipv4_hdr_sz rpkt)
    ok (to_lan EtherType.ipv4 (v4 hdr.dst) (front ++ drop ipv4_hdr_sz rpkt)))
  build_reply id pkt (err e) = ok (drop_packet [])
  build_reply id pkt panic = panic

  unfoldable pub handle_local_by :
      ℕ
      → Router
      → Ipv4Packet
      → Option (ProtocolHandler proto)
      → Router × Outcome ProtocolError RouterAction
  unfolding build_reply
  handle_local_by id r pkt none = (r, ok (drop_packet []))
  handle_local_by id r pkt (some handler) =
      let (handler', result) =
        handle_protocol proto handler pkt (drop ipv4_hdr_sz (replicate 1560 0)) in
      (
        record r {
          ip4_handlers = HashMap.insert ℕ_discrete r.ip4_handlers pkt.header.protocol handler';
        },
        build_reply id pkt result,
      )

  unfoldable pub handle_local_ipv4 :
      ℕ → Router → Ipv4Packet → Router × Outcome ProtocolError RouterAction
  unfolding handle_local_by
  handle_local_ipv4 id r pkt =
      handle_local_by id r pkt (HashMap.get ℕ_discrete r.ip4_handlers pkt.header.protocol)

  unfoldable pub route_ip4 : ℕ → Router → Ipv4Packet → Router × Outcome ProtocolError RouterAction
  unfolding is_local
  route_ip4 id r pkt =
      let dst = pkt.header.dst in
      if contains r.network dst || is_broadcast dst
      then (if is_local r (v4 dst) || is_broadcast dst
          then handle_local_ipv4 id r pkt
          else (r, ok (to_lan EtherType.ipv4 (v4 dst) pkt.bytes)))
      else (r, ok (to_wan pkt))

  unfoldable pub route_ip6 : Router → List ℕ → Router × Outcome ProtocolError RouterAction
  route_ip6 r pkt = (r, ok (drop_packet pkt))

  -- What the switch makes of a frame; an error of the switch is only logged.
  unfoldable pub switched :
      Router
      → VirtioSwitch Device × Outcome ProtocolError (List (Delivery Device))
      → Router × Outcome ProtocolError (List Output)
  switched r (s, ok ds) = (record r { switch = s }, ok (map delivered ds))
  switched r (s, err e) = (record r { switch = s }, ok [])
  switched r (s, panic) = (record r { switch = s }, panic)

  unfoldable pub write_to_switch :
      Router → MacAddress → EtherType → List ℕ → Router × Outcome ProtocolError (List Output)
  unfolding switched as_u16
  write_to_switch r dst ethertype pkt = switched r (
      process Device r.switch r.port
        (as_bytes dst ++ as_bytes r.mac ++ be16_bytes (as_u16 ethertype) ++ pkt))

  unfoldable pub forward_packet : Option Handle → Ipv4Packet → List Output
  forward_packet (some wan) pkt = written wan pkt ∷ []
  forward_packet none pkt = []

  -- `dst.or_else(|| self.arp.get(&dst_ip))`
  unfoldable pub resolve : Router → Option MacAddress → IpAddr → Option MacAddress
  resolve r (some dst) ip = some dst
  resolve r none ip = HashMap.get IpAddr-discrete r.arp ip

  unfoldable pub send_to :
      Router → Option MacAddress → EtherType → List ℕ → Router × Outcome ProtocolError (List Output)
  unfolding write_to_switch
  send_to r (some dst) ethertype pkt = write_to_switch r dst ethertype pkt
  send_to r none ethertype pkt = (r, ok [])

  unfoldable pub handle_action :
      Router → RouterAction → Option MacAddress → Router × Outcome ProtocolError (List Output)
  unfolding send_to resolve forward_packet
  handle_action r (to_lan ethertype dst_ip pkt) dst = send_to r (resolve r dst dst_ip) ethertype pkt
  handle_action r (to_wan pkt) dst = (r, ok (forward_packet r.wan pkt))
  handle_action r (drop_packet pkt) dst = (r, ok [])

  -- `action?`, and then the action.
  unfoldable pub then_act :
      Option MacAddress
      → Router × Outcome ProtocolError RouterAction
      → Router × Outcome ProtocolError (List Output)
  unfolding handle_action
  then_act dst (r, ok action) = handle_action r action dst
  then_act dst (r, err e) = (r, err e)
  then_act dst (r, panic) = (r, panic)

  unfoldable pub route_parsed :
      ℕ → Router → Outcome ProtocolError Ipv4Packet → Router × Outcome ProtocolError RouterAction
  unfolding route_ip4
  route_parsed id r (ok pkt) = route_ip4 id r pkt
  route_parsed id r (err e) = (r, err e)
  route_parsed id r panic = (r, panic)

  -- `match pkt.frame.ethertype`
  unfoldable pub action_of :
      ℕ → Router → EtherType → List ℕ → Router × Outcome ProtocolError RouterAction
  unfolding handle_arp route_parsed route_ip6
  action_of id r EtherType.arp pkt = handle_arp r pkt
  action_of id r EtherType.ipv4 pkt = route_parsed id r (Ipv4.parse pkt)
  action_of id r EtherType.ipv6 pkt = route_ip6 r pkt

  unfoldable pub route : ℕ → Router → EthernetPacket → Router × Outcome ProtocolError (List Output)
  unfolding action_of then_act
  route id r pkt = then_act (some pkt.frame.src) (action_of id r pkt.frame.ethertype pkt.payload)

  unfoldable pub step : ℕ → Router → RouterMsg → Router × Outcome ProtocolError (List Output)
  unfolding route route_ip4 then_act
  step id r (from_lan pkt) = route id r pkt
  step id r (from_wan4 pkt) = then_act none (route_ip4 id r pkt)

  -- The loop over the messages received, each with the identification that is drawn for it. An error
  -- is logged and the loop goes on; a panic ends the thread.
  unfoldable pub run :
      Router → List (ℕ × RouterMsg) → List Output → Router × Outcome ProtocolError (List Output)
  unfolding step
  run r [] out = (r, ok out)
  run r ((id, msg) ∷ msgs) out =
      let (r', result) = step id r msg in
      elim result [
        | ok out' ↦ run r' msgs (out ++ out')
        | err e ↦ run r' msgs out
        | panic ↦ (r', panic)
      ]
