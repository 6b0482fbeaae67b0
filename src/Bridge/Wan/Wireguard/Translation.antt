-- ===== src/Bridge/Wan/Wireguard/Translation.antt =====
-- Addresses of packets through the tunnel (oathgate-bridge/src/net/wan/wireguard.rs, with
-- oathgate-net/src/nat.rs).
use oathgate.Common.{
  ℕ, suc, ◌≡◌, ◌≢◌, refl, ap, ◌∙◌, arith, Bool, true, false, List, [], ◌∷◌, ◌++◌, take,
  if◌then◌else◌, Option, none, some, ℕ_discrete, Outcome, ok, err, panic, ◌>>=◌, map_err,
}
use oathgate.Common.HashMap
use oathgate.Net.Error.{ProtocolError}
use oathgate.Net.Ipv4.{
  Ipv4Header, Ipv4Packet, has_fragments, parse, fix_checksum_at, fix_transport_checksum, masquerade,
  unmasquerade, write_header,
}
use oathgate.Net.Nat.{NatTable, insert, get}
use oathgate.Net.Nat.Replies.{IsReply, get_reply}
use oathgate.Bridge.Wan.{NetworkError, protocol, missing_fragment, route_ipv4}
use oathgate.Bridge.Wan.Wireguard.{
  Tunn, TunnResult, tun_error, done, write_to_network, write_to_tunnel_v4, write_to_tunnel_v6,
  WgDevice, Step, continue, lift, put, add_to, complete, rebuild, restore_as, restore, receive_v4,
  handle_tun_result, tunnel, send_packet, Arrival, datagram, decapsulate, handle_arrival,
  handle_arrivals, Event, udp, handle_event, run,
}
use oathgate.Bridge.Wan.Wireguard.Fragments.{rebuild-missing}

-- Whatever packet an operation gives has the header.
abbrev HeaderIs : Ipv4Header → Outcome ProtocolError Ipv4Packet → Type 0
HeaderIs h r = (p : Ipv4Packet) → r ≡ ok p → p.header ≡ h

ok-HeaderIs : (h : Ipv4Header) (p : Ipv4Packet) → p.header ≡ h → HeaderIs h (ok p)
ok-HeaderIs h p e q eq = ground (arith, eq, e)

bind-HeaderIs :
    {A : Type 0} (h : Ipv4Header) (r : Outcome ProtocolError A)
    (f : A → Outcome ProtocolError Ipv4Packet)
    → ((a : A) → HeaderIs h (f a))
    → HeaderIs h (r >>= f)
bind-HeaderIs h (ok a) f all p e = all a p e
bind-HeaderIs h (err x) f all p e = absurd (ground (arith, e))
bind-HeaderIs h panic f all p e = absurd (ground (arith, e))

fix_checksum_at-HeaderIs :
    (start : ℕ) (p : Ipv4Packet) → HeaderIs p.header (fix_checksum_at start p)
unfolding fix_checksum_at
fix_checksum_at-HeaderIs start p = search (bind-HeaderIs, ok-HeaderIs)

if-HeaderIs :
    (h : Ipv4Header) (b : Bool) (x y : Outcome ProtocolError Ipv4Packet)
    → HeaderIs h x
    → HeaderIs h y
    → HeaderIs h (if b then x else y)
if-HeaderIs h true x y hx hy = hx
if-HeaderIs h false x y hx hy = hy

fix_transport_checksum-HeaderIs : (p : Ipv4Packet) → HeaderIs p.header (fix_transport_checksum p)
unfolding fix_transport_checksum
fix_transport_checksum-HeaderIs p =
    search (if-HeaderIs, fix_checksum_at-HeaderIs, bind-HeaderIs, ok-HeaderIs)

-- A packet whose destination was restored goes there.
unmasquerade-dst :
    (orig : ℕ) (pkt p : Ipv4Packet) → unmasquerade orig pkt ≡ ok p → p.header.dst ≡ orig
unfolding unmasquerade
unmasquerade-dst orig pkt p e =
    let header = record (pkt.header) { dst = orig } in
    ap (λ (h : Ipv4Header). h.dst)
      (bind-HeaderIs header (write_header header pkt.bytes)
        (λ bytes. fix_transport_checksum (record { header = header; bytes = bytes }))
        (λ bytes. fix_transport_checksum-HeaderIs (record { header = header; bytes = bytes })) p e)

module _ (tunn : Tunn) (send : List ℕ → Option ℕ) where
  -- Neither the tunnel nor the translations are touched.
  abbrev pub Alike : WgDevice tunn send → WgDevice tunn send → Type 0
  Alike d' d = (d'.tun ≡ d.tun) × (d'.nat ≡ d.nat)

  abbrev pub Keeps : {A : Type 0} → Step tunn send A → Type 0
  Keeps m = (d : WgDevice tunn send) → Alike (m d).0 d

  continue-Keeps :
      {A B : Type 0} (d : WgDevice tunn send) (r : WgDevice tunn send × Outcome NetworkError A)
      (f : A → Step tunn send B)
      → Alike r.0 d
      → ((a : A) → Keeps (f a))
      → Alike (continue tunn send r f).0 d
  continue-Keeps d (w, ok a) f h hf = ((hf a w).0 ∙ h.0, (hf a w).1 ∙ h.1)
  continue-Keeps d (w, err e) f h hf = h
  continue-Keeps d (w, panic) f h hf = h

  lift-Keeps : {A : Type 0} (r : Outcome NetworkError A) → Keeps (lift tunn send r)
  lift-Keeps r d = (refl, refl)

  add_to-Keeps :
      (id offset : ℕ) (pkt : Ipv4Packet) (o : Option Ipv4Packet)
      → Keeps (add_to tunn send id offset pkt o)
  unfolding add_to
  add_to-Keeps id offset pkt none d = (refl, refl)
  add_to-Keeps id offset pkt (some kept) d = (ground arith, ground arith)

  complete-Keeps :
      (id offset : ℕ) (pkt : Ipv4Packet) (o : Option Ipv4Packet)
      → Keeps (complete tunn send id offset pkt o)
  unfolding complete
  complete-Keeps id offset pkt none d = (refl, refl)
  complete-Keeps id offset pkt (some kept) d = (refl, refl)

  rebuild-Keeps : (pkt : Ipv4Packet) → Keeps (rebuild tunn send pkt)
  unfolding rebuild
  rebuild-Keeps pkt d =
      let kept = HashMap.get ℕ_discrete d.cache pkt.header.id in
      let added = add_to-Keeps pkt.header.id pkt.header.frag_offset pkt kept d in
      let finished = complete-Keeps pkt.header.id pkt.header.frag_offset pkt kept d in
      (ground (arith, added, finished), ground (arith, added, finished))

  restore_as-Keeps : (pkt : Ipv4Packet) (o : Option ℕ) → Keeps (restore_as tunn send pkt o)
  unfolding restore_as put
  restore_as-Keeps pkt none d = (refl, refl)
  restore_as-Keeps pkt (some orig) d =
      continue-Keeps d (d, map_err protocol (unmasquerade orig pkt)) _ (refl, refl)
        (λ p d'. (refl, refl))

  restore-Keeps : (o : Option Ipv4Packet) → Keeps (restore tunn send o)
  unfolding restore
  restore-Keeps none d = (refl, refl)
  restore-Keeps (some pkt) d =
      continue-Keeps d (d, map_err protocol (get d.nat pkt)) (restore_as tunn send pkt) (refl, refl)
        (restore_as-Keeps pkt)

  receive_v4-Keeps : (bytes : List ℕ) → Keeps (receive_v4 tunn send bytes)
  unfolding receive_v4
  receive_v4-Keeps bytes d =
      continue-Keeps d (d, map_err protocol (parse bytes)) _ (refl, refl)
        (λ pkt d'.
          continue-Keeps d' (rebuild tunn send pkt d') (restore tunn send) (rebuild-Keeps pkt d')
            restore-Keeps)

  pub handle_tun_result-Keeps : (action : TunnResult) → Keeps (handle_tun_result tunn send action)
  unfolding handle_tun_result put
  handle_tun_result-Keeps (tun_error e) d = (refl, refl)
  handle_tun_result-Keeps done d = (refl, refl)
  handle_tun_result-Keeps (write_to_network pkt) d = (ground arith, ground arith)
  handle_tun_result-Keeps (write_to_tunnel_v4 bytes) d =
      continue-Keeps d (receive_v4 tunn send bytes d) _ (receive_v4-Keeps bytes d)
        (λ _. lift-Keeps (ok false))
  handle_tun_result-Keeps (write_to_tunnel_v6 bytes) d = (refl, refl)

  tunnel-nat :
      (f : tunn.State → tunn.State × TunnResult) (d : WgDevice tunn send)
      → (tunnel tunn send f d).0.nat ≡ d.nat
  unfolding tunnel
  tunnel-nat f d = (handle_tun_result-Keeps (f d.tun).1 (record d { tun = (f d.tun).0 })).1

  -- What sending a packet leaves in the table, once the packet is entered.
  send_packet-nat :
      (pkt : Ipv4Packet) (t : NatTable) (d : WgDevice tunn send)
      → insert d.nat pkt ≡ ok t
      → (send_packet tunn send pkt d).0.nat ≡ t
  unfolding send_packet
  send_packet-nat pkt t d e =
      ap (λ r. (continue tunn send (d, map_err protocol r) (λ nat d'. after nat d')).0.nat) e
      ∙ masked (masquerade d.ipv4 pkt)
    where
      d1 : WgDevice tunn send
      d1 = record d { nat = t }

      after : NatTable → Step tunn send (Unit {0})
      after nat d' =
          continue tunn send (record d' { nat = nat }, map_err protocol (masquerade d'.ipv4 pkt))
            (λ p d''.
              continue tunn send (tunnel tunn send (tunn.encapsulate p.bytes) d'')
                (λ _. lift tunn send (ok tt)))

      sent_on :
          (r : WgDevice tunn send × Outcome NetworkError Bool)
          → (continue tunn send r (λ _. lift tunn send (ok tt))).0.nat ≡ r.0.nat
      sent_on (w, ok b) = refl
      sent_on (w, err x) = refl
      sent_on (w, panic) = refl

      masked :
          (r : Outcome ProtocolError Ipv4Packet)
          → (continue tunn send
              (d1, map_err protocol r)
              (λ p d''.
                continue tunn send
                  (tunnel tunn send (tunn.encapsulate p.bytes) d'')
                  (λ _. lift tunn send (ok tt)))).0.nat
            ≡ t
      masked (ok p) =
          sent_on (tunnel tunn send (tunn.encapsulate p.bytes) d1)
          ∙ tunnel-nat (tunn.encapsulate p.bytes) d1
      masked (err x) = refl
      masked panic = refl

  -- A whole packet, found under an address, is handed to the router.
  routed :
      (bytes : List ℕ) (back p : Ipv4Packet) (orig : ℕ) (d : WgDevice tunn send)
      → parse bytes ≡ ok back
      → has_fragments back ≡ false
      → back.header.frag_offset ≡ 0
      → get d.nat back ≡ ok (some orig)
      → unmasquerade orig back ≡ ok p
      → handle_tun_result tunn send (write_to_tunnel_v4 bytes) d
        ≡ (record d { out = d.out ++ route_ipv4 p ∷ [] }, ok false)
  unfolding handle_tun_result receive_v4 rebuild restore restore_as put
  routed bytes back p orig d parsed frag at_0 found restored =
      ground (arith, parsed, found, restored)

  -- After a packet of the local network was sent, whether the tunnel took it or not, a reply to it
  -- that comes through the tunnel in one piece is handed to the router with the address of the host
  -- that sent the packet for its destination, and nothing is sent back to the tunnel. This for a
  -- reply whose header and checksum can be written anew.
  pub send_packet-reply :
      (pkt back p : Ipv4Packet) (bytes : List ℕ) (d : WgDevice tunn send)
      → IsReply pkt back
      → parse bytes ≡ ok back
      → has_fragments back ≡ false
      → back.header.frag_offset ≡ 0
      → unmasquerade pkt.header.src back ≡ ok p
      → let d' = (send_packet tunn send pkt d).0 in
        (handle_tun_result tunn send (write_to_tunnel_v4 bytes) d'
          ≡ (record d' { out = d'.out ++ route_ipv4 p ∷ [] }, ok false))
        × (p.header.dst ≡ pkt.header.src)
  send_packet-reply pkt back p bytes d answers parsed frag at_0 restored =
      let d' = (send_packet tunn send pkt d).0 in
      let (t, entered, found) = get_reply d.nat pkt back answers in
      (
        routed bytes back p pkt.header.src d' parsed frag at_0
            (ap (λ nat. get nat back) (send_packet-nat pkt t d entered) ∙ found) restored,
        unmasquerade-dst pkt.header.src back p restored,
      )

  -- One datagram whose packet is the last fragment of a packet of which nothing is kept ends the
  -- thread of the connection: the datagrams and the events behind it are not handled.
  pub run_lost_fragment :
      (rounds peer : ℕ) (bytes inner : List ℕ) (pkt : Ipv4Packet) (s : tunn.State)
      (arrivals : List Arrival) (events : List (Event tunn send)) (d : WgDevice tunn send)
      → tunn.decapsulate peer (take 1600 bytes) d.tun ≡ (s, write_to_tunnel_v4 inner)
      → parse inner ≡ ok pkt
      → HashMap.get ℕ_discrete d.cache pkt.header.id ≡ none
      → has_fragments pkt ≡ false
      → pkt.header.frag_offset ≢ 0
      → run tunn send (suc rounds) (udp (datagram peer bytes ∷ arrivals) ∷ events) d
        ≡ (record d { tun = s }, err missing_fragment)
  unfolding run handle_event handle_arrivals handle_arrival decapsulate tunnel handle_tun_result
      receive_v4
  run_lost_fragment rounds peer bytes inner pkt s arrivals events d opened parsed lost frag later =
      ground (
        arith,
        opened,
        parsed,
        rebuild-missing tunn send pkt (record d { tun = s }) lost frag later,
      )
