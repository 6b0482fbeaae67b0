-- ===== src/Bridge/Tests.antt =====
-- The theorems about the switch, the router and its servers at concrete packets.
use oathgate.Common.{
  ℕ, ◌-◌, ◌≡◌, ◌≢◌, ◌<◌, ◌⊎◌, refl, ap, arith, ite, min, suc, List, [], ◌∷◌, ◌++◌, map, replicate,
  true, false, none, some, ok, ℕ_discrete,
}
use oathgate.Common.Bytes.{be16_bytes, be32_bytes}
use oathgate.Common.HashMap.{HashMap}
use oathgate.Common.HashMap
use oathgate.Net.Arp.{ArpPacket, v4}
use oathgate.Net.Arp.RoundTrip.{IsIpv4, wire}
use oathgate.Net.Checksum.{checksum}
use oathgate.Net.EtherType.{EtherType}
use oathgate.Net.Frame.{EthernetFrame, EthernetPacket, extract}
use oathgate.Net.Ipv4.{Ipv4Header, Ipv4Packet, payload, extract_from_slice}
use oathgate.Net.Ipv4
use oathgate.Net.Mac.{MacAddress, MacAddress-discrete, is_broadcast, as_bytes}
use oathgate.Net.Mac
use oathgate.Net.Network.{Ipv4Network, broadcast}
use oathgate.Net.Network
use oathgate.Net.Network.Prefix.{IsNetwork, new-IsNetwork}
use oathgate.Bridge.Dhcp.{DhcpServer, DhcpConfig, lease_to}
use oathgate.Bridge.Dhcp
use oathgate.Bridge.Dhcp.Leases.{IsServer, holder, lease_to-IsServer, lease_to_lem}
use oathgate.Bridge.Dhcp.Message.{Dhcproto}
use oathgate.Bridge.Dhcp.Pool.{addresses, first_network, new-available}
use oathgate.Bridge.Handler.{icmp_handle_protocol}
use oathgate.Bridge.Handler.Echo.{icmp_handle_protocol_answers}
use oathgate.Bridge.Router.{IpAddr-discrete, Router, written, from_lan, from_wan4, step, delivered}
use oathgate.Bridge.Router.Actions.{step_outside, step_inside}
use oathgate.Bridge.Router.Answers.{step_arp}
use oathgate.Bridge.Router.Sending.{Reaches}
use oathgate.Bridge.Switch.{VirtioSwitch, get_port, process}
use oathgate.Bridge.Switch.Forwarding.{deliver, process_broadcast, process_learnt}

abbrev mac : ℕ → MacAddress
mac n = record { octet0 = 2; octet1 = 0; octet2 = 0; octet3 = 0; octet4 = 0; octet5 = n }

macs_differ : (a b : ℕ) → a ≢ b → mac a ≢ mac b
macs_differ a b ne e = ne (ap (λ (m : MacAddress). m.octet5) e)

abbrev frame : MacAddress → ℕ → EthernetFrame
frame dst src = record { dst = dst; src = mac src; ethertype = EtherType.ipv4 }

-- The packet of a frame, with a payload of one byte.
abbrev packet : MacAddress → ℕ → List ℕ
packet dst src = Mac.as_bytes dst ++ Mac.as_bytes (mac src) ++ 8 ∷ 0 ∷ 7 ∷ []

packet-extract : (n src : ℕ) → extract (packet (mac n) src) ≡ (ok (frame (mac n) src), 7 ∷ [])
unfolding extract
packet-extract n src = refl

call-extract :
    (src : ℕ) → extract (packet Mac.broadcast src) ≡ (ok (frame Mac.broadcast src), 7 ∷ [])
unfolding extract
call-extract src = refl

-- A switch with the devices 10, 11 and 12.
abbrev switch : VirtioSwitch ℕ
switch = record { ports = 10 ∷ 11 ∷ 12 ∷ []; cache = HashMap.empty; logging = false; logged = [] }

not_broadcast : is_broadcast (mac 1) ≡ false
unfolding is_broadcast MacAddress-discrete ℕ_discrete Mac.broadcast
not_broadcast = refl

is_broadcast_lem : is_broadcast Mac.broadcast ≡ true
unfolding is_broadcast MacAddress-discrete ℕ_discrete Mac.broadcast
is_broadcast_lem = refl

unknown : get_port ℕ switch (mac 1) ≡ none
unfolding get_port HashMap.get
unknown = refl

process_learnt_example :
    (process ℕ (process ℕ switch 1 (packet (mac 9) 1)).0 2 (packet (mac 1) 2)).1
    ≡ ok (deliver ℕ (frame (mac 1) 2) (7 ∷ []) 11 ∷ [])
process_learnt_example =
    process_learnt ℕ switch 1 2 11 (packet (mac 9) 1) (packet (mac 1) 2) (7 ∷ []) (7 ∷ [])
      (frame (mac 9) 1) (frame (mac 1) 2) refl (omega arith) (packet-extract 9 1) (omega arith)
      (packet-extract 1 2) refl (macs_differ 2 1 (omega arith)) not_broadcast

process_broadcast_example :
    (process ℕ switch 1 (packet Mac.broadcast 1)).1
    ≡ ok (map (deliver ℕ (frame Mac.broadcast 1) (7 ∷ [])) (10 ∷ 12 ∷ []))
process_broadcast_example =
    process_broadcast ℕ switch 1 (packet Mac.broadcast 1) (7 ∷ []) (frame Mac.broadcast 1)
      (omega arith) (call-extract 1) is_broadcast_lem

-- A server of 10.0.0.1/24 with two addresses left, and one that `mac 5` has.
abbrev network : Ipv4Network
network = record { ip = 0x0a000001; mask = 0xffffff00 }

abbrev server : DhcpServer
server = record {
  network = network;
  lease_time = 86400;
  available = 0x0a00000b ∷ 0x0a00000c ∷ [];
  leased = record { entries = (0x0a00000a, mac 5) ∷ [] };
}

server-IsServer : IsServer server
unfolding HashMap.get ℕ_discrete
server-IsServer = record {
  distinct = ((λ e. absurd (omega arith), tt), (tt, tt));
  unleased = (refl, (refl, tt));
}

leased_away : holder server 0x0a00000a ≡ some (mac 5)
unfolding HashMap.get ℕ_discrete
leased_away = refl

granted :
    (lease_to server (mac 6) none).1
    ≡ some (Network.new 0x0a00000b (Network.subnet_mask_bits network))
unfolding lease_to
granted = refl

free : holder server 0x0a00000c ≡ none
unfolding HashMap.get ℕ_discrete
free = refl

lease_to_lem_example :
    ((holder server (Network.new 0x0a00000b (Network.subnet_mask_bits network)).ip ≡ none)
      ⊎ (holder server (Network.new 0x0a00000b (Network.subnet_mask_bits network)).ip
          ≡ some (mac 6)))
    × (holder (lease_to server (mac 6) none).0 0x0a00000a
        ≡ ite
            (ℕ_discrete (Network.new 0x0a00000b (Network.subnet_mask_bits network)).ip 0x0a00000a)
            (some (mac 6))
            (holder server 0x0a00000a))
lease_to_lem_example =
    lease_to_lem server (mac 6) none (Network.new 0x0a00000b (Network.subnet_mask_bits network))
      0x0a00000a server-IsServer granted

lease_to-IsServer_example : IsServer (lease_to server (mac 6) (some 0x0a00000c)).0
lease_to-IsServer_example = lease_to-IsServer server (mac 6) (some 0x0a00000c) server-IsServer

abbrev config : DhcpConfig
config = record { start = 0x0a00000a; end = 0x0a00000c }

config_before : config.start < broadcast (first_network network config)
unfolding broadcast Network.new Network.subnet_mask_bits
config_before = omega arith

abbrev offered : ℕ → DhcpServer
offered last = record {
  network = network;
  lease_time = 86400;
  available = addresses 0x0a00000a (suc (last - 0x0a00000a));
  leased = HashMap.empty;
}

new-available_example :
    Dhcp.new network config
    ≡ some (offered (min 0x0a00000c (broadcast (first_network network config) - 1)))
new-available_example = new-available network config (omega arith) (omega arith) config_before

abbrev header : ℕ → ℕ → Ipv4Header
header src dst = record {
  version = 4;
  ihl = 5;
  length = 40;
  id = 77;
  flags = 2;
  frag_offset = 0;
  ttl = 64;
  protocol = 1;
  checksum = 0;
  src = src;
  dst = dst;
}

-- An echo request with two bytes behind its type, its code and its checksum.
abbrev ping : Ipv4Packet
ping = record {
  header = header 0x0a000002 0x0a000001;
  bytes = replicate 20 0 ++ 8 ∷ 0 ∷ 0x12 ∷ 0x34 ∷ 5 ∷ 6 ∷ [];
}

ping-payload : payload ping ≡ ok (8 ∷ 0 ∷ 0x12 ∷ 0x34 ∷ 5 ∷ 6 ∷ [])
unfolding payload
ping-payload = refl

icmp_handle_protocol_answers_example :
    icmp_handle_protocol ping (replicate 7 0)
    ≡ ok (0 ∷ 0 ∷ be16_bytes (checksum (0 ∷ 0 ∷ 0 ∷ 0 ∷ 5 ∷ 6 ∷ 0 ∷ [])) ++ 5 ∷ 6 ∷ 0 ∷ [], 6)
icmp_handle_protocol_answers_example =
    icmp_handle_protocol_answers ping 0 0x12 0x34 (5 ∷ 6 ∷ []) 3 ping-payload (omega arith)

abbrev unanswered : Ipv4Packet
unanswered = record {
  header = header 0x0a000002 0x0a000001;
  bytes = replicate 20 0 ++ 13 ∷ 0 ∷ 0 ∷ 0 ∷ [];
}

unanswered-payload : payload unanswered ≡ ok (13 ∷ 0 ∷ 0 ∷ 0 ∷ [])
unfolding payload
unanswered-payload = refl

-- Messages that are bytes, for a router without DHCP clients.
abbrev plain : Dhcproto
plain = record {
  Message = List ℕ;
  decode = some;
  encode = some;
  msg_type = λ m. none;
  requested_ip = λ m. none;
  chaddr = λ m. m;
  flags = λ m. 0;
  htype = λ m. 0;
  xid = λ m. 0;
  ciaddr = λ m. 0;
  giaddr = λ m. 0;
  new_reply = [];
  set_flags = λ n m. m;
  set_boot_reply = λ m. m;
  set_htype = λ n m. m;
  set_xid = λ n m. m;
  set_yiaddr = λ n m. m;
  set_ciaddr = λ n m. m;
  set_siaddr = λ n m. m;
  set_giaddr = λ n m. m;
  set_chaddr = λ bytes m. m;
  insert_option = λ option m. m;
}

-- A router at 10.0.0.1/24, with a connection `0` to the wide area network, that knows one host.
abbrev router : Router plain ℕ ℕ
router = record {
  arp = record { entries = (v4 0x0a000002, mac 2) ∷ [] };
  switch = switch;
  port = 0;
  wan = some 0;
  mac = mac 1;
  network = Network.new 0x0a000001 24;
  ip4_handlers = HashMap.empty;
}

router-IsNetwork : IsNetwork router.network 8
router-IsNetwork = new-IsNetwork 0x0a000001 24 (omega arith) (omega arith)

router_ip : router.network.ip ≡ 0x0a000001
unfolding Network.new
router_ip = refl

abbrev question : ArpPacket
question = record {
  hardware_type = 1;
  protocol_type = EtherType.ipv4;
  hardware_len = 6;
  protocol_len = 4;
  operation = 1;
  sha = mac 3;
  spa = v4 0x0a000003;
  tha = mac 0;
  tpa = v4 0x0a000001;
}

question-IsIpv4 : IsIpv4 question 0x0a000003 0x0a000001
question-IsIpv4 = record {
  hardware = refl;
  hardware_size = refl;
  protocol = refl;
  protocol_size = refl;
  operation-IsU16 = omega arith;
  spa_lem = refl;
  tpa_lem = refl;
  s-IsU32 = omega arith;
  t-IsU32 = omega arith;
}

abbrev arp_packet : EthernetPacket
arp_packet = record {
  frame = record { dst = mac 1; src = mac 3; ethertype = EtherType.arp };
  payload = wire question 0x0a000003 0x0a000001 ++ [];
}

-- The router's switch, with a device for each of two hosts.
abbrev lan : VirtioSwitch ℕ
lan = record switch {
  cache =
      HashMap.insert MacAddress-discrete
        (HashMap.insert MacAddress-discrete HashMap.empty (mac 2) 1) (mac 3) 2;
}

abbrev lan_router : Router plain ℕ ℕ
lan_router = record router { switch = lan }

asker-Reaches : Reaches ℕ lan (mac 1) (mac 3) 12
unfolding is_broadcast MacAddress-discrete ℕ_discrete Mac.broadcast get_port HashMap.get
    HashMap.insert
asker-Reaches = record {
  at_port = 2;
  to_one = refl;
  to_other = macs_differ 1 3 (omega arith);
  known = refl;
  connected = refl;
}

host-Reaches : Reaches ℕ lan (mac 1) (mac 2) 11
unfolding is_broadcast MacAddress-discrete ℕ_discrete Mac.broadcast get_port HashMap.get
    HashMap.insert
host-Reaches = record {
  at_port = 1;
  to_one = refl;
  to_other = macs_differ 1 2 (omega arith);
  known = refl;
  connected = refl;
}

step_arp_example :
    ((step plain ℕ ℕ 77 lan_router (from_lan arp_packet)).0.arp
      ≡ HashMap.insert IpAddr-discrete router.arp (v4 0x0a000003) (mac 3))
    × ((step plain ℕ ℕ 77 lan_router (from_lan arp_packet)).1
        ≡ ok (
            ite
              (ℕ_discrete router.network.ip 0x0a000001)
              (delivered (record {
                device = 12;
                frame = record { dst = mac 3; src = mac 1; ethertype = EtherType.arp };
                payload =
                    0 ∷ 1 ∷ 8 ∷ 0 ∷ 6 ∷ 4 ∷ 0 ∷ 2 ∷ as_bytes (mac 1)
                    ++ be32_bytes 0x0a000001
                    ++ as_bytes (mac 3)
                    ++ be32_bytes 0x0a000003;
              })
                ∷ [])
              []))
step_arp_example =
    step_arp plain ℕ ℕ 77 lan_router arp_packet question 0x0a000003 0x0a000001 [] 12 question-IsIpv4
      refl refl (omega arith) asker-Reaches

-- The bytes of a header from 10.0.0.2 to 8.8.8.8, and the packet read from them.
abbrev away_bytes : List ℕ
away_bytes =
    0x45 ∷ 0 ∷ 0 ∷ 20 ∷ 0 ∷ 77 ∷ 0x40 ∷ 0 ∷ 64 ∷ 17 ∷ 0 ∷ 0 ∷ 10 ∷ 0 ∷ 0 ∷ 2 ∷ 8 ∷ 8 ∷ 8 ∷ 8 ∷ []

abbrev away : Ipv4Packet
away = record {
  header = record (header 0x0a000002 0x08080808) { length = 20; protocol = 17 };
  bytes = away_bytes;
}

away-parse : Ipv4.parse away_bytes ≡ ok away
unfolding Ipv4.parse
away-parse = refl

abbrev away_packet : EthernetPacket
away_packet = record {
  frame = record { dst = mac 1; src = mac 2; ethertype = EtherType.ipv4 };
  payload = away_bytes;
}

step_outside_example :
    step plain ℕ ℕ 77 router (from_lan away_packet) ≡ (router, ok (written 0 away ∷ []))
unfolding Network.new
step_outside_example =
    step_outside plain ℕ ℕ 77 8 router away_packet away router-IsNetwork refl away-parse
      (omega arith) (omega arith) (omega arith)

abbrev back : Ipv4Packet
back = record { header = header 0x08080808 0x0a000002; bytes = replicate 20 0 }

step_inside_example :
    (s : VirtioSwitch ℕ) × (step plain ℕ ℕ 77 lan_router (from_wan4 back) ≡ (
      record lan_router { switch = s },
      ok (
          delivered (record {
            device = 11;
            frame = record { dst = mac 2; src = mac 1; ethertype = EtherType.ipv4 };
            payload = replicate 20 0;
          })
          ∷ []),
    ))
unfolding Network.new HashMap.get IpAddr-discrete ℕ_discrete
step_inside_example =
    step_inside plain ℕ ℕ 77 8 lan_router back (mac 2) 11 router-IsNetwork (omega arith)
      (omega arith) (omega arith) (omega arith) refl host-Reaches
