-- ===== src/Net/Nat.antt =====
-- oathgate-net/src/nat.rs: the table that leads a reply back to the host which asked.
pub mod Replies
use oathgate.Common.{
  ℕ, List, Option, none, some, ◌==◌, if◌then◌else◌, ℕ_discrete, Outcome, ok, ◌>>=◌,
}
use oathgate.Common.Bytes.{be16_at}
use oathgate.Common.HashMap.{HashMap}
use oathgate.Common.HashMap
use oathgate.Net.Error.{ProtocolError}
use oathgate.Net.Ipv4.{Ipv4Packet, payload, net_protocol_icmp, net_protocol_tcp, net_protocol_udp}

-- The remote address and the port, or the identification of an ICMP query.
pub data NatEntry : Type 0 where
  tcp udp icmp : ℕ → ℕ → NatEntry

unfoldable pub NatEntry-discrete : Discrete NatEntry
NatEntry-discrete = hlevel ℕ_discrete

pub record NatTable : Type 0 where
  pub table : HashMap NatEntry ℕ

abbrev pub empty : NatTable
empty = record { table = HashMap.empty }

unfoldable pub put_tcp : NatTable → ℕ → ℕ → ℕ → NatTable
put_tcp t dst port src = record {
  table = HashMap.insert NatEntry-discrete t.table (tcp dst port) src;
}

unfoldable pub put_udp : NatTable → ℕ → ℕ → ℕ → NatTable
put_udp t dst port src = record {
  table = HashMap.insert NatEntry-discrete t.table (udp dst port) src;
}

unfoldable pub put_icmp : NatTable → ℕ → ℕ → ℕ → NatTable
put_icmp t dst id src = record {
  table = HashMap.insert NatEntry-discrete t.table (icmp dst id) src;
}

-- An outgoing packet: its source port, or its identification, and both addresses.
unfoldable pub insert : NatTable → Ipv4Packet → Outcome ProtocolError NatTable
unfolding payload put_tcp put_udp put_icmp
insert t pkt =
    let proto = pkt.header.protocol in
    let dst = pkt.header.dst in
    let src = pkt.header.src in
    if proto == net_protocol_icmp
    then (do id ← be16_at (← payload pkt) 4; ok (put_icmp t dst id src))
    else if proto == net_protocol_tcp
    then (do port ← be16_at (← payload pkt) 0; ok (put_tcp t dst port src))
    else if proto == net_protocol_udp
    then (do port ← be16_at (← payload pkt) 0; ok (put_udp t dst port src))
    else ok t

-- An incoming packet: its destination port, or its identification, and its source.
unfoldable pub get : NatTable → Ipv4Packet → Outcome ProtocolError (Option ℕ)
unfolding payload
get t pkt =
    let proto = pkt.header.protocol in
    let src = pkt.header.src in
    if proto == net_protocol_icmp
    then (do
      id ← be16_at (← payload pkt) 4
      ok (HashMap.get NatEntry-discrete t.table (icmp src id)))
    else if proto == net_protocol_tcp
    then (do
      port ← be16_at (← payload pkt) 2
      ok (HashMap.get NatEntry-discrete t.table (tcp src port)))
    else if proto == net_protocol_udp
    then (do
      port ← be16_at (← payload pkt) 2
      ok (HashMap.get NatEntry-discrete t.table (udp src port)))
    else ok none
