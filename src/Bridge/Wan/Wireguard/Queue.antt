-- ===== src/Bridge/Wan/Wireguard/Queue.antt =====
-- The loop that empties the tunnel's queue (oathgate-bridge/src/net/wan/wireguard.rs, `run`).
use oathgate.Common.{
  ℕ, zero, suc, ◌<◌, ◌≡◌, refl, ap, arith, Bool, true, false, List, [], if◌then◌else◌, Option,
  Outcome, ok, err, panic,
}
use oathgate.Bridge.Wan.{NetworkError}
use oathgate.Bridge.Wan.Wireguard.{
  Tunn, TunnResult, tun_error, done, write_to_network, write_to_tunnel_v4, write_to_tunnel_v6,
  WgDevice, Step, continue, lift, put, receive_v4, handle_tun_result, tunnel, decapsulate,
}
use oathgate.Bridge.Wan.Wireguard.Translation.{handle_tun_result-Keeps}

-- A tunnel has a number of packets queued, and being asked for them with no bytes takes one away
-- each time that it has something to send.
pub record IsDraining (tunn : Tunn) : Type 1 where
  pub queued : tunn.State → ℕ
  pub decapsulate_lem :
      (peer : ℕ) (s s' : tunn.State) (pkt : List ℕ)
      → tunn.decapsulate peer [] s ≡ (s', write_to_network pkt)
      → queued s' < queued s

module _ (tunn : Tunn) (send : List ℕ → Option ℕ) (v : IsDraining tunn) where
  -- Only a packet for the network says that something was sent.
  sent_something :
      (action : TunnResult) (d : WgDevice tunn send)
      → (handle_tun_result tunn send action d).1 ≡ ok true
      → (pkt : List ℕ) × (action ≡ write_to_network pkt)
  unfolding handle_tun_result put
  sent_something (tun_error e) d h = absurd (ground (arith, h))
  sent_something done d h = absurd (ground (arith, h))
  sent_something (write_to_network pkt) d h = (pkt, refl)
  sent_something (write_to_tunnel_v4 bytes) d h = absurd (never (receive_v4 tunn send bytes d) h)
    where
      never :
          (r : WgDevice tunn send × Outcome NetworkError (Unit {0}))
          → (continue tunn send r (λ _. lift tunn send (ok false))).1 ≡ ok true
          → ⊥
      never (w, ok _) e = ground (arith, e)
      never (w, err x) e = ground (arith, e)
      never (w, panic) e = ground (arith, e)
  sent_something (write_to_tunnel_v6 bytes) d h = absurd (ground (arith, h))

  -- Rests of the loop that agree where the loop goes on give the same.
  continue-agree :
      (again more : Step tunn send (Unit {0})) (r : WgDevice tunn send × Outcome NetworkError Bool)
      → (r.1 ≡ ok true → again r.0 ≡ more r.0)
      → continue tunn send r (λ b. if b then again else lift tunn send (ok tt))
        ≡ continue tunn send r (λ b. if b then more else lift tunn send (ok tt))
  continue-agree again more (w, ok true) h = h refl
  continue-agree again more (w, ok false) h = refl
  continue-agree again more (w, err e) h = refl
  continue-agree again more (w, panic) h = refl

  fewer_queued :
      (peer : ℕ) (d : WgDevice tunn send)
      → (tunnel tunn send (tunn.decapsulate peer []) d).1 ≡ ok true
      → v.queued (tunnel tunn send (tunn.decapsulate peer []) d).0.tun < v.queued d.tun
  unfolding tunnel
  fewer_queued peer d h =
      let s = (tunn.decapsulate peer [] d.tun).0 in
      let action = (tunn.decapsulate peer [] d.tun).1 in
      let d1 : WgDevice tunn send = record d { tun = s } in
      let (pkt, e) = sent_something action d1 h in
      omega (
        arith,
        v.decapsulate_lem peer d.tun s pkt (λ i. (s, e i)),
        ap v.queued (handle_tun_result-Keeps tunn send action d1).0,
      )

  decapsulate_agree :
      (f g peer : ℕ) (d : WgDevice tunn send)
      → v.queued d.tun < f
      → v.queued d.tun < g
      → decapsulate tunn send f peer [] d ≡ decapsulate tunn send g peer [] d
  unfolding decapsulate
  decapsulate_agree zero g peer d hf hg = absurd (omega arith)
  decapsulate_agree (suc f) zero peer d hf hg = absurd (omega arith)
  decapsulate_agree (suc f) (suc g) peer d hf hg =
      let r = tunnel tunn send (tunn.decapsulate peer []) d in
      continue-agree (decapsulate tunn send f peer []) (decapsulate tunn send g peer []) r (λ h.
        decapsulate_agree f g peer r.0 (omega (arith, fewer_queued peer d h))
          (omega (arith, fewer_queued peer d h)))

  -- The loop that asks the tunnel for queued packets ends: rounds one more than are queued once the
  -- datagram was taken give what any larger number of rounds gives.
  pub decapsulate_ends :
      (rounds peer : ℕ) (bytes : List ℕ) (d : WgDevice tunn send)
      → v.queued (tunnel tunn send (tunn.decapsulate peer bytes) d).0.tun < rounds
      → decapsulate tunn send (suc rounds) peer bytes d
        ≡ decapsulate tunn send
            (suc (suc (v.queued (tunnel tunn send (tunn.decapsulate peer bytes) d).0.tun)))
            peer
            bytes
            d
  unfolding decapsulate
  decapsulate_ends rounds peer bytes d h =
      let r = tunnel tunn send (tunn.decapsulate peer bytes) d in
      let n = v.queued r.0.tun in
      continue-agree (decapsulate tunn send rounds peer []) (decapsulate tunn send (suc n) peer [])
        r (λ _. decapsulate_agree rounds (suc n) peer r.0 h (omega arith))
