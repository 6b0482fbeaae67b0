-- ===== src/Net/Nat/Replies.antt =====
-- Replies find the host that sent the packet they answer.
use oathgate.Common.{
  ℕ, ◌≡◌, ◌≢◌, refl, sym, ap, ◌∙◌, ◌⊎◌, inl, inr, ◌∷◌, arith, List, Option, none, some, ◌==◌,
  if◌then◌else◌, Outcome, ok, ◌>>=◌,
}
use oathgate.Common.Bytes.{be16, be16_at}
use oathgate.Common.HashMap.{get-insert_self, get-insert_ne}
use oathgate.Common.HashMap
use oathgate.Net.Error.{ProtocolError}
use oathgate.Net.Ipv4.{Ipv4Packet, payload, net_protocol_icmp, net_protocol_tcp, net_protocol_udp}
use oathgate.Net.Nat.{NatTable, NatEntry, tcp, udp, icmp, NatEntry-discrete, insert, get}

-- The key under which an outgoing packet is entered, and the one under which an incoming packet is
-- looked up; `none` for a protocol that is not translated.
abbrev pub outgoing_entry : Ipv4Packet → Outcome ProtocolError (Option NatEntry)
outgoing_entry pkt =
    let proto = pkt.header.protocol in
    let dst = pkt.header.dst in
    if proto == net_protocol_icmp
    then (do id ← be16_at (← payload pkt) 4; ok (some (icmp dst id)))
    else if proto == net_protocol_tcp
    then (do port ← be16_at (← payload pkt) 0; ok (some (tcp dst port)))
    else if proto == net_protocol_udp
    then (do port ← be16_at (← payload pkt) 0; ok (some (udp dst port)))
    else ok none

abbrev pub incoming_entry : Ipv4Packet → Outcome ProtocolError (Option NatEntry)
incoming_entry pkt =
    let proto = pkt.header.protocol in
    let src = pkt.header.src in
    if proto == net_protocol_icmp
    then (do id ← be16_at (← payload pkt) 4; ok (some (icmp src id)))
    else if proto == net_protocol_tcp
    then (do port ← be16_at (← payload pkt) 2; ok (some (tcp src port)))
    else if proto == net_protocol_udp
    then (do port ← be16_at (← payload pkt) 2; ok (some (udp src port)))
    else ok none

insert_by_entry :
    (t : NatTable) (out : Ipv4Packet) {k : NatEntry}
    → outgoing_entry out ≡ ok (some k)
    → insert t out
      ≡ ok (record { table = HashMap.insert NatEntry-discrete t.table k out.header.src })
unfolding insert
insert_by_entry t out e = ground arith

get_by_entry :
    (t : NatTable) (pkt : Ipv4Packet) {k : NatEntry}
    → incoming_entry pkt ≡ ok (some k)
    → get t pkt ≡ ok (HashMap.get NatEntry-discrete t.table k)
unfolding get
get_by_entry t pkt e = ground arith

-- After a packet is entered, a lookup under its key finds its source, and a lookup under any other
-- key finds what it found before.
pub get-insert_lem :
    (t : NatTable) (out pkt : Ipv4Packet) (k j : NatEntry)
    → outgoing_entry out ≡ ok (some k)
    → incoming_entry pkt ≡ ok (some j)
    → (t' : NatTable) × (insert t out ≡ ok t')
      × (k ≡ j → get t' pkt ≡ ok (some out.header.src))
      × (k ≢ j → get t' pkt ≡ get t pkt)
get-insert_lem t out pkt k j ho hp = (
  t',
  insert_by_entry t out ho,
  λ e.
      get_by_entry t' pkt hp
      ∙ ap ok (
          ap (HashMap.get NatEntry-discrete t'.table) (sym e)
          ∙ get-insert_self NatEntry-discrete t.table k out.header.src),
  λ ne.
      get_by_entry t' pkt hp
      ∙ ap ok (get-insert_ne NatEntry-discrete t.table k j out.header.src ne)
      ∙ sym (get_by_entry t pkt hp),
)
  where
    t' : NatTable
    t' = record { table = HashMap.insert NatEntry-discrete t.table k out.header.src }

-- A packet of a transport protocol answers another if it comes from the address that the other went
-- to, and its destination port is the other's source port; an ICMP packet, if the identifications
-- agree.
pub data IsReply (out back : Ipv4Packet) : Type 0 where
  transport :
      (a b c d : ℕ) (r r' : List ℕ)
      → (out.header.protocol ≡ net_protocol_tcp) ⊎ (out.header.protocol ≡ net_protocol_udp)
      → payload out ≡ ok (a ∷ b ∷ r)
      → payload back ≡ ok (c ∷ d ∷ a ∷ b ∷ r')
      → back.header.protocol ≡ out.header.protocol
      → back.header.src ≡ out.header.dst
      → IsReply out back
  query :
      (a b c0 c1 c2 c3 d0 d1 d2 d3 : ℕ) (r r' : List ℕ)
      → out.header.protocol ≡ net_protocol_icmp
      → payload out ≡ ok (c0 ∷ c1 ∷ c2 ∷ c3 ∷ a ∷ b ∷ r)
      → payload back ≡ ok (d0 ∷ d1 ∷ d2 ∷ d3 ∷ a ∷ b ∷ r')
      → back.header.protocol ≡ out.header.protocol
      → back.header.src ≡ out.header.dst
      → IsReply out back

-- A reply to a TCP, UDP or ICMP packet that was entered is led back to the packet's source,
-- whatever the table held.
pub get_reply :
    (t : NatTable) (out back : Ipv4Packet)
    → IsReply out back
    → (t' : NatTable) × (insert t out ≡ ok t') × (get t' back ≡ ok (some out.header.src))
get_reply t out back (transport a b c d r r' (inl p) ho hb hp hs) =
    let (t', e, found, _) =
      get-insert_lem t out back (tcp out.header.dst (be16 a b)) (tcp out.header.dst (be16 a b))
        (ground arith) (ground arith) in
    (t', e, found refl)
get_reply t out back (transport a b c d r r' (inr p) ho hb hp hs) =
    let (t', e, found, _) =
      get-insert_lem t out back (udp out.header.dst (be16 a b)) (udp out.header.dst (be16 a b))
        (ground arith) (ground arith) in
    (t', e, found refl)
get_reply t out back (query a b c0 c1 c2 c3 d0 d1 d2 d3 r r' p ho hb hp hs) =
    let (t', e, found, _) =
      get-insert_lem t out back (icmp out.header.dst (be16 a b)) (icmp out.header.dst (be16 a b))
        (ground arith) (ground arith) in
    (t', e, found refl)
