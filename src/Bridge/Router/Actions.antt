-- ===== src/Bridge/Router/Actions.antt =====
-- Where the router sends IPv4 packets (oathgate-bridge/src/net/router.rs, `route_ip4` and
-- `handle_action`).
use oathgate.Common.{ℕ, ◌-◌, ◌^◌, ◌≡◌, ◌≢◌, refl, arith, [], ◌∷◌, ◌++◌, true, false, ok, none, some}
use oathgate.Common.Bytes.{IsU32}
use oathgate.Common.HashMap
use oathgate.Net.Arp.{v4}
use oathgate.Net.EtherType.{EtherType}
use oathgate.Net.Frame.{EthernetPacket}
use oathgate.Net.Ipv4.{Ipv4Packet, parse}
use oathgate.Net.Network.{Ipv4Network, contains}
use oathgate.Net.Network.Prefix.{IsNetwork, prefix, contains_iff}
use oathgate.Net.Frame.RoundTrip.{wire}
use oathgate.Net.Mac.{MacAddress}
use oathgate.Bridge.Dhcp.Message.{Dhcproto}
use oathgate.Bridge.Switch.{VirtioSwitch, process}
use oathgate.Bridge.Router.Sending.{Reaches, write_to_switch-Reaches}
use oathgate.Bridge.Router.{
  IpAddr-discrete, Router, written, to_lan, to_wan, from_lan, from_wan4, is_local, route_ip4,
  route_parsed, forward_packet, action_of, then_act, handle_action, resolve, send_to, route, step,
  delivered,
}

contains_other :
    {n : Ipv4Network} {k : ℕ} (v : IsNetwork n k) (ip : ℕ)
    → IsU32 ip
    → prefix k ip ≢ prefix k n.ip
    → contains n ip ≡ false
contains_other v ip h ne = let c = contains_iff v ip h in ground (arith, c)

contains_same :
    {n : Ipv4Network} {k : ℕ} (v : IsNetwork n k) (ip : ℕ)
    → IsU32 ip
    → prefix k ip ≡ prefix k n.ip
    → contains n ip ≡ true
contains_same v ip h e = (contains_iff v ip h).1 e

module _ (proto : Dhcproto) (Device Handle : Type 0) where
  route_ip4_outside :
      (id : ℕ) (r : Router proto Device Handle) (pkt : Ipv4Packet)
      → contains r.network pkt.header.dst ≡ false
      → pkt.header.dst ≢ 2 ^ 32 - 1
      → route_ip4 proto Device Handle id r pkt ≡ (r, ok (to_wan pkt))
  unfolding route_ip4
  route_ip4_outside id r pkt h b = ground arith

  route_ip4_inside :
      (id : ℕ) (r : Router proto Device Handle) (pkt : Ipv4Packet)
      → contains r.network pkt.header.dst ≡ true
      → pkt.header.dst ≢ r.network.ip
      → pkt.header.dst ≢ 2 ^ 32 - 1
      → route_ip4 proto Device Handle id r pkt
        ≡ (r, ok (to_lan EtherType.ipv4 (v4 pkt.header.dst) pkt.bytes))
  unfolding route_ip4 is_local
  route_ip4_inside id r pkt h ne b = ground arith

  -- An IPv4 packet from the local network for an address outside of it, which is not the global
  -- broadcast address, is written to the wide area network as it came, if there is one. The router
  -- does not change.
  pub step_outside :
      (id k : ℕ) (r : Router proto Device Handle) (pkt : EthernetPacket) (ip : Ipv4Packet)
      → IsNetwork r.network k
      → pkt.frame.ethertype ≡ EtherType.ipv4
      → parse pkt.payload ≡ ok ip
      → IsU32 ip.header.dst
      → prefix k ip.header.dst ≢ prefix k r.network.ip
      → ip.header.dst ≢ 2 ^ 32 - 1
      → step proto Device Handle id r (from_lan pkt)
        ≡ (r, ok (elim r.wan [ some handle ↦ written handle ip ∷ [] | none ↦ [] ]))
  unfolding step route action_of then_act handle_action forward_packet route_parsed
  step_outside id k r pkt ip v he hp hd ne b =
      rw (he, hp, route_ip4_outside id r ip (contains_other v ip.header.dst hd ne) b) (ground arith)

  -- A packet from the wide area network for a host of the local network, not for the router and
  -- not for everyone, whose hardware address the router has learnt and which the switch reaches at a
  -- device: that device and no other is given the packet as it came, in a frame of type IPv4 to the
  -- host's hardware address from the router's. Of the router only the switch changes.
  pub step_inside :
      (id k : ℕ) (r : Router proto Device Handle) (ip : Ipv4Packet) (mac : MacAddress)
      (dev : Device)
      → IsNetwork r.network k
      → IsU32 ip.header.dst
      → prefix k ip.header.dst ≡ prefix k r.network.ip
      → ip.header.dst ≢ r.network.ip
      → ip.header.dst ≢ 2 ^ 32 - 1
      → HashMap.get IpAddr-discrete r.arp (v4 ip.header.dst) ≡ some mac
      → Reaches Device r.switch r.mac mac dev
      → (s : VirtioSwitch Device) × (step proto Device Handle id r (from_wan4 ip) ≡ (
        record r { switch = s },
        ok (
            delivered (record {
              device = dev;
              frame = record { dst = mac; src = r.mac; ethertype = EtherType.ipv4 };
              payload = ip.bytes;
            })
            ∷ []),
      ))
  unfolding step then_act handle_action resolve send_to
  step_inside id k r ip mac dev v hd same ne b known reach = (
    (process Device r.switch r.port
        (wire (record { dst = mac; src = r.mac; ethertype = EtherType.ipv4 }) ++ ip.bytes)).0,
    rw (route_ip4_inside id r ip (contains_same v ip.header.dst hd same) ne b, known)
        (write_to_switch-Reaches Device proto Handle r mac EtherType.ipv4 ip.bytes dev reach),
  )

  -- Such a packet for a host whose hardware address the router has not learnt is dropped.
  pub step_inside_unknown :
      (id k : ℕ) (r : Router proto Device Handle) (ip : Ipv4Packet)
      → IsNetwork r.network k
      → IsU32 ip.header.dst
      → prefix k ip.header.dst ≡ prefix k r.network.ip
      → ip.header.dst ≢ r.network.ip
      → ip.header.dst ≢ 2 ^ 32 - 1
      → HashMap.get IpAddr-discrete r.arp (v4 ip.header.dst) ≡ none
      → step proto Device Handle id r (from_wan4 ip) ≡ (r, ok [])
  unfolding step then_act handle_action resolve send_to
  step_inside_unknown id k r ip v hd same ne b unknown =
      rw (route_ip4_inside id r ip (contains_same v ip.header.dst hd same) ne b, unknown) refl
