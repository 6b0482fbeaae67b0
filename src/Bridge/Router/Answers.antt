-- ===== src/Bridge/Router/Answers.antt =====
-- How the router answers questions for its own address (oathgate-bridge/src/net/router.rs,
-- `handle_arp`).
use oathgate.Common.{
  ℕ, ◌-◌, ◌^◌, ◌≡◌, ◌≢◌, refl, ap, ◌∙◌, ite, ℕ_discrete, arith, List, [], ◌∷◌, ◌++◌, ok,
}
use oathgate.Common.HashMap
use oathgate.Common.Bytes.{be32_bytes}
use oathgate.Net.Arp.{ArpPacket, v4, to_reply, size}
use oathgate.Net.Arp.RoundTrip.{IsIpv4, wire, arp_bytes-wire, parse-wire}
use oathgate.Net.EtherType.{EtherType}
use oathgate.Net.Frame.{EthernetPacket}
use oathgate.Net.Mac.{MacAddress, as_bytes}
use oathgate.Bridge.Dhcp.Message.{Dhcproto}
use oathgate.Bridge.Router.Sending.{Reaches, write_to_switch-Reaches}
use oathgate.Bridge.Router.{
  IpAddr-discrete, Router, to_lan, drop_packet, from_lan, is_local, is_global_broadcast, answer_arp,
  handle_parsed_arp, handle_arp, action_of, then_act, handle_action, resolve, send_to, route, step,
  write_to_switch, delivered,
}

to_reply-IsIpv4 :
    (mac : MacAddress) (p : ArpPacket) (s t : ℕ) → IsIpv4 p s t → IsIpv4 (to_reply mac p) t s
unfolding to_reply
to_reply-IsIpv4 mac p s t v = record {
  hardware = v.hardware;
  hardware_size = v.hardware_size;
  protocol = v.protocol;
  protocol_size = v.protocol_size;
  operation-IsU16 = omega arith;
  spa_lem = v.tpa_lem;
  tpa_lem = v.spa_lem;
  s-IsU32 = v.t-IsU32;
  t-IsU32 = v.s-IsU32;
}

to_reply_lem :
    (mac : MacAddress) (p : ArpPacket) (s t : ℕ)
    → IsIpv4 p s t
    → (size (to_reply mac p) ≡ size p) × ((to_reply mac p).tpa ≡ p.spa)
unfolding to_reply size
to_reply_lem mac p s t v = (rw (v.spa_lem, v.tpa_lem) refl, refl)

module _ (proto : Dhcproto) (Device Handle : Type 0) where
  -- The router that has learnt who sent an ARP packet.
  abbrev learnt : Router proto Device Handle → ArpPacket → ℕ → Router proto Device Handle
  learnt r p s = record r { arp = HashMap.insert IpAddr-discrete r.arp (v4 s) p.sha }

  answer_arp_local :
      (r : Router proto Device Handle) (p : ArpPacket) (s t : ℕ) (pkt : List ℕ)
      → IsIpv4 p s t
      → r.network.ip ≡ t
      → answer_arp proto Device Handle r p pkt
        ≡ ok (to_lan EtherType.arp (v4 s) (wire (to_reply r.mac p) t s))
  unfolding answer_arp is_local
  answer_arp_local r p s t pkt v h = ground (
    arith,
    v.spa_lem,
    v.tpa_lem,
    to_reply_lem r.mac p s t v,
    arp_bytes-wire (to_reply r.mac p) t s (to_reply-IsIpv4 r.mac p s t v),
  )

  answer_arp_other :
      (r : Router proto Device Handle) (p : ArpPacket) (s t : ℕ) (pkt : List ℕ)
      → IsIpv4 p s t
      → r.network.ip ≢ t
      → t ≢ 2 ^ 32 - 1
      → answer_arp proto Device Handle r p pkt ≡ ok (drop_packet pkt)
  unfolding answer_arp is_local is_global_broadcast
  answer_arp_other r p s t pkt v h b = ground (arith, v.tpa_lem)

  handle_arp-wire :
      (r : Router proto Device Handle) (p : ArpPacket) (s t : ℕ) (rest : List ℕ)
      → IsIpv4 p s t
      → handle_arp proto Device Handle r (wire p s t ++ rest)
        ≡ (learnt r p s, answer_arp proto Device Handle (learnt r p s) p (wire p s t ++ rest))
  unfolding handle_arp handle_parsed_arp
  handle_arp-wire r p s t rest v = rw (parse-wire p s t rest v, v.spa_lem) refl

  action_of_arp :
      (id : ℕ) (r : Router proto Device Handle) (pkt : EthernetPacket) (p : ArpPacket) (s t : ℕ)
      (rest : List ℕ)
      → IsIpv4 p s t
      → pkt.frame.ethertype ≡ EtherType.arp
      → pkt.payload ≡ wire p s t ++ rest
      → t ≢ 2 ^ 32 - 1
      → (d : Dec (r.network.ip ≡ t))
      → step proto Device Handle id r (from_lan pkt)
        ≡ ite d
            (write_to_switch proto Device Handle
              (learnt r p s)
              pkt.frame.src
              EtherType.arp
              (wire (to_reply r.mac p) t s))
            (learnt r p s, ok [])
  unfolding step route action_of then_act handle_action resolve send_to
  action_of_arp id r pkt p s t rest v he hp b (yes h) =
      rw
        (
          he,
          hp,
          handle_arp-wire r p s t rest v,
          answer_arp_local (learnt r p s) p s t (wire p s t ++ rest) v h,
        )
        refl
  action_of_arp id r pkt p s t rest v he hp b (no h) =
      rw
        (
          he,
          hp,
          handle_arp-wire r p s t rest v,
          answer_arp_other (learnt r p s) p s t (wire p s t ++ rest) v h b,
        )
        refl

  -- A host of the local network asks by ARP for an IPv4 address that is not the global broadcast
  -- address: the router learns the asker's address. If it is asked for its own address, the asker's
  -- device and no other is given an ARP reply, in a frame from the router's hardware address to the
  -- asker's, which names the router's hardware address for the address asked for, and the asker's
  -- two addresses as its target; otherwise nothing is sent. This for an asker that the switch
  -- reaches at a device.
  pub step_arp :
      (id : ℕ) (r : Router proto Device Handle) (pkt : EthernetPacket) (p : ArpPacket) (s t : ℕ)
      (rest : List ℕ) (dev : Device)
      → IsIpv4 p s t
      → pkt.frame.ethertype ≡ EtherType.arp
      → pkt.payload ≡ wire p s t ++ rest
      → t ≢ 2 ^ 32 - 1
      → Reaches Device r.switch r.mac pkt.frame.src dev
      → ((step proto Device Handle id r (from_lan pkt)).0.arp
          ≡ HashMap.insert IpAddr-discrete r.arp (v4 s) p.sha)
        × ((step proto Device Handle id r (from_lan pkt)).1
            ≡ ok (
                ite
                  (ℕ_discrete r.network.ip t)
                  (delivered (record {
                    device = dev;
                    frame = record { dst = pkt.frame.src; src = r.mac; ethertype = EtherType.arp };
                    payload =
                        0 ∷ 1 ∷ 8 ∷ 0 ∷ 6 ∷ 4 ∷ 0 ∷ 2 ∷ as_bytes r.mac
                        ++ be32_bytes t
                        ++ as_bytes p.sha
                        ++ be32_bytes s;
                  })
                    ∷ [])
                  []))
  unfolding to_reply
  step_arp id r pkt p s t rest dev v he hp b reach =
      let all = action_of_arp id r pkt p s t rest v he hp b in
      let sent =
        write_to_switch-Reaches Device proto Handle (learnt r p s) pkt.frame.src EtherType.arp
          (wire (to_reply r.mac p) t s) dev reach in
      elim (ℕ_discrete r.network.ip t)
        as (λ d.
          ((step proto Device Handle id r (from_lan pkt)).0.arp ≡ (learnt r p s).arp)
          × ((step proto Device Handle id r (from_lan pkt)).1
              ≡ ok (
                  ite d
                    (delivered (record {
                      device = dev;
                      frame = record {
                        dst = pkt.frame.src;
                        src = r.mac;
                        ethertype = EtherType.arp;
                      };
                      payload = wire (to_reply r.mac p) t s;
                    })
                      ∷ [])
                    []))) [
                      | yes own ↦
                          let e = all (yes own) ∙ sent in (ap (λ x. x.0.arp) e, ap (λ x. x.1) e)
                      | no other ↦ let e = all (no other) in (ap (λ x. x.0.arp) e, ap (λ x. x.1) e)
                    ]
