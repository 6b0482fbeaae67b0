-- ===== src/Vhost/Rings/Receive.antt =====
-- What the packets that wait for the guest come to (oathgate-vhost/src/queue.rs,
-- `handle_rx_queued`).
use native.Mathlib.Nat.{le_trans}
use oathgate.Common.{
  ℕ, ◌+◌, ◌-◌, ◌%◌, ◌^◌, ◌≤◌, ◌<◌, ◌≡◌, refl, ap, ◌∙◌, arith, true, List, [], ◌∷◌, length, drop,
  Option, none, some, ok, All,
}
use oathgate.Common.Bytes.{to_le}
use oathgate.Net.EtherType.{as_u16}
use oathgate.Net.Frame.{EthernetPacket, to_bytes}
use oathgate.Net.Frame.RoundTrip.{wire}
use oathgate.Vhost.NetHeader
use oathgate.Vhost.Queue.{VirtioQueue}
use oathgate.Vhost.Device.{Syscall}
use oathgate.Vhost.Rings.{
  Switch, Rings, Notice, wrote, used, called, notification, Port, notice, mapped, set_rings,
  add_used, call, write_call, write, header_of, receive, pop_descriptor_chain, receive_pending,
  handle_rx_queued,
}

-- The chains that the driver has made available are taken in their order; a valid chain has a writer,
-- which takes as many bytes as the chain has room for. A queue of a size that is ready, which is one
-- whose used ring lies in the memory, takes back a chain whose index is below the size; it stays ready,
-- and which chains are available does not change.
pub record IsDelivering (vq : VirtioQueue) (rings : Rings vq) : Type 1 where
  pub waiting : vq.Memory → vq.Queue → List rings.Chain
  pub next : vq.Memory → vq.Queue → vq.Queue
  pub room : rings.Writer → ℕ
  pub start : vq.Memory → rings.Chain → rings.Writer
  pub written : ℕ → rings.Writer → rings.Writer
  pub marked : ℕ → ℕ → vq.Queue → vq.Queue
  pub IsValid : vq.Memory → rings.Chain → Type 0
  pub IsReady : vq.Memory → ℕ → vq.Queue → Type 0
  pub pop_none :
      (mem : vq.Memory) (q : vq.Queue)
      → waiting mem q ≡ []
      → rings.pop_descriptor_chain mem q ≡ (q, none)
  pub pop_some :
      (mem : vq.Memory) (q : vq.Queue) (c : rings.Chain) (cs : List rings.Chain)
      → waiting mem q ≡ c ∷ cs
      → rings.pop_descriptor_chain mem q ≡ (next mem q, some c)
  pub waiting-next :
      (mem : vq.Memory) (q : vq.Queue) (c : rings.Chain) (cs : List rings.Chain)
      → waiting mem q ≡ c ∷ cs
      → waiting mem (next mem q) ≡ cs
  pub next-IsReady :
      (mem : vq.Memory) (k : ℕ) (q : vq.Queue) → IsReady mem k q → IsReady mem k (next mem q)
  pub writer_lem :
      (mem : vq.Memory) (c : rings.Chain) → IsValid mem c → rings.writer mem c ≡ some (start mem c)
  pub write_all_lem :
      (bytes : List ℕ) (w : rings.Writer)
      → length bytes ≤ room w
      → rings.write_all bytes w ≡ some (written (length bytes) w)
  pub room-written : (n : ℕ) (w : rings.Writer) → room (written n w) ≡ room w - n
  pub add_used_lem :
      (mem : vq.Memory) (k head len : ℕ) (q : vq.Queue)
      → IsReady mem k q
      → head < k
      → rings.add_used mem head len q ≡ some (marked head len q)
  pub marked-IsReady :
      (mem : vq.Memory) (k head len : ℕ) (q : vq.Queue)
      → IsReady mem k q
      → head < k
      → IsReady mem k (marked head len q)
  pub waiting-marked :
      (mem : vq.Memory) (k head len : ℕ) (q : vq.Queue)
      → IsReady mem k q
      → head < k
      → waiting mem (marked head len q) ≡ waiting mem q

-- What the virtio header of a received packet is: no flags, one buffer.
abbrev pub plain : List ℕ
plain = 0 ∷ 0 ∷ 0 ∷ 0 ∷ 0 ∷ 0 ∷ 0 ∷ 0 ∷ 0 ∷ 0 ∷ 1 ∷ 0 ∷ []

abbrev pub size : EthernetPacket → ℕ
size pkt = 26 + length pkt.payload

module _ (vq : VirtioQueue) (rings : Rings vq) (sw : Switch) (os : Syscall → Option ℕ)
    (v : IsDelivering vq rings) where
  header_of_lem : (pkt : EthernetPacket) → header_of vq rings sw os pkt ≡ ok (wire pkt.frame)
  unfolding header_of to_bytes as_u16
  header_of_lem pkt = refl

  -- What the driver sees of a packet put into a chain.
  unfoldable pub received : rings.Chain → EthernetPacket → List Notice → List Notice
  received c pkt ns =
      let head = rings.head_index c in
      used head (size pkt % 2 ^ 32)
      ∷ wrote head pkt.payload
      ∷ wrote head (wire pkt.frame)
      ∷ wrote head plain
      ∷ ns

  -- The port after a packet was put into a chain.
  abbrev pub fed : rings.Chain → EthernetPacket → Port vq rings sw os → Port vq rings sw os
  fed c pkt p =
      let q = v.marked (rings.head_index c) (size pkt % 2 ^ 32) p.queue.queue in
      record p { queue = record (p.queue) { queue = q }; notices = received c pkt p.notices }

  -- A chain that can be given back to a queue of size `k`, with room for a packet of size `n`.
  pub record HasRoom (mem : vq.Memory) (k n : ℕ) (c : rings.Chain) : Type 0 where
    pub valid : v.IsValid mem c
    pub head_below : rings.head_index c < k
    pub fits : n ≤ v.room (v.start mem c)

  receive_lem :
      (mem : vq.Memory) (k : ℕ) (c : rings.Chain) (pkt : EthernetPacket) (p : Port vq rings sw os)
      → HasRoom mem k (size pkt) c
      → v.IsReady mem k p.queue.queue
      → receive vq rings sw os mem c pkt p ≡ (fed c pkt p, ok tt)
  unfolding receive write add_used notice set_rings received NetHeader.as_bytes NetHeader.new to_le
  receive_lem mem k c pkt p has ready =
      let w0 = v.start mem c in
      let w1 = v.written 12 w0 in
      let w2 = v.written 14 w1 in
      ground (
        arith,
        has.fits,
        v.writer_lem mem c has.valid,
        header_of_lem pkt,
        v.write_all_lem plain w0,
        v.room-written 12 w0,
        v.write_all_lem (wire pkt.frame) w1,
        v.room-written 14 w1,
        v.write_all_lem pkt.payload w2,
        v.add_used_lem mem k (rings.head_index c) (size pkt % 2 ^ 32) p.queue.queue ready
            has.head_below,
      )

  -- The first packets go to the first chains, until there are no more of the one or of the other.
  unfoldable pub deliveries : List rings.Chain → List EthernetPacket → List Notice → List Notice
  unfolding received
  deliveries [] pkts ns = ns
  deliveries (c ∷ cs) [] ns = ns
  deliveries (c ∷ cs) (pkt ∷ pkts) ns = deliveries cs pkts (received c pkt ns)

  -- The port when the next chain and the next packet were taken.
  abbrev pub taken : vq.Memory → List EthernetPacket → Port vq rings sw os → Port vq rings sw os
  taken mem pkts p = record p {
    queue = record (p.queue) { queue = v.next mem p.queue.queue };
    pending = pkts;
  }

  -- The port after the loop.
  unfoldable pub finish :
      vq.Memory → List rings.Chain → List EthernetPacket → Port vq rings sw os → Port vq rings sw os
  finish mem [] pkts p = p
  finish mem (c ∷ cs) [] p = p
  finish mem (c ∷ cs) (pkt ∷ pkts) p = finish mem cs pkts (fed c pkt (taken mem pkts p))

  abbrev pub Fits : ℕ → EthernetPacket → Type 0
  Fits n pkt = size pkt ≤ n

  receive_pending-nil :
      (mem : vq.Memory) (p : Port vq rings sw os)
      → receive_pending vq rings sw os mem [] p ≡ (p, ok tt)
  unfolding receive_pending
  receive_pending-nil mem p = refl

  receive_pending-none :
      (mem : vq.Memory) (pkt : EthernetPacket) (pkts : List EthernetPacket)
      (p : Port vq rings sw os)
      → v.waiting mem p.queue.queue ≡ []
      → receive_pending vq rings sw os mem (pkt ∷ pkts) p ≡ (p, ok tt)
  unfolding receive_pending pop_descriptor_chain set_rings
  receive_pending-none mem pkt pkts p e = ground (arith, v.pop_none mem p.queue.queue e)

  receive_pending-some :
      (mem : vq.Memory) (k : ℕ) (pkt : EthernetPacket) (pkts : List EthernetPacket)
      (c : rings.Chain) (cs : List rings.Chain) (p : Port vq rings sw os)
      → v.waiting mem p.queue.queue ≡ c ∷ cs
      → HasRoom mem k (size pkt) c
      → v.IsReady mem k p.queue.queue
      → receive_pending vq rings sw os mem (pkt ∷ pkts) p
        ≡ receive_pending vq rings sw os mem pkts (fed c pkt (taken mem pkts p))
  unfolding receive_pending pop_descriptor_chain set_rings
  receive_pending-some mem k pkt pkts c cs p e has ready = ground (
    arith,
    v.pop_some mem p.queue.queue c cs e,
    receive_lem mem k c pkt (taken mem pkts p) has (v.next-IsReady mem k p.queue.queue ready),
  )

  -- After a packet was put into the first chain the queue is ready, with the other chains.
  fed-waiting :
      (mem : vq.Memory) (k : ℕ) (pkt : EthernetPacket) (pkts : List EthernetPacket)
      (c : rings.Chain) (cs : List rings.Chain) (p : Port vq rings sw os)
      → v.waiting mem p.queue.queue ≡ c ∷ cs
      → rings.head_index c < k
      → v.IsReady mem k p.queue.queue
      → let q = (fed c pkt (taken mem pkts p)).queue.queue in
        (v.waiting mem q ≡ cs) × v.IsReady mem k q
  fed-waiting mem k pkt pkts c cs p e below ready =
      let q = p.queue.queue in
      let len = size pkt % 2 ^ 32 in
      let ready' = v.next-IsReady mem k q ready in
      (
        v.waiting-marked mem k (rings.head_index c) len (v.next mem q) ready' below
            ∙ v.waiting-next mem q c cs e,
        v.marked-IsReady mem k (rings.head_index c) len (v.next mem q) ready' below,
      )

  receive_pending_lem :
      (mem : vq.Memory) (k n : ℕ) (pkts : List EthernetPacket) (cs : List rings.Chain)
      (p : Port vq rings sw os)
      → v.waiting mem p.queue.queue ≡ cs
      → v.IsReady mem k p.queue.queue
      → All (HasRoom mem k n) cs
      → All (Fits n) pkts
      → receive_pending vq rings sw os mem pkts p ≡ (finish mem cs pkts p, ok tt)
  unfolding finish
  receive_pending_lem mem k n [] [] p e ready room fit = receive_pending-nil mem p
  receive_pending_lem mem k n [] (c ∷ cs) p e ready room fit = receive_pending-nil mem p
  receive_pending_lem mem k n (pkt ∷ pkts) [] p e ready room fit =
      receive_pending-none mem pkt pkts p e
  receive_pending_lem mem k n (pkt ∷ pkts) (c ∷ cs) p e ready (room, rooms) (fit, fits) =
      let rest = fed-waiting mem k pkt pkts c cs p e room.head_below ready in
      receive_pending-some mem k pkt pkts c cs p e
        (record { valid = room.valid; head_below = room.head_below; fits = le_trans fit room.fits })
        ready
      ∙ receive_pending_lem mem k n pkts cs (fed c pkt (taken mem pkts p)) rest.0 rest.1 rooms fits

  finish-pending :
      (mem : vq.Memory) (cs : List rings.Chain) (pkts : List EthernetPacket)
      (p : Port vq rings sw os)
      → p.pending ≡ pkts
      → (finish mem cs pkts p).pending ≡ drop (length cs) pkts
  unfolding finish
  finish-pending mem [] pkts p e = e
  finish-pending mem (c ∷ cs) [] p e = e
  finish-pending mem (c ∷ cs) (pkt ∷ pkts) p e =
      finish-pending mem cs pkts (fed c pkt (taken mem pkts p)) refl

  finish-waiting :
      (mem : vq.Memory) (k n : ℕ) (cs : List rings.Chain) (pkts : List EthernetPacket)
      (p : Port vq rings sw os)
      → v.waiting mem p.queue.queue ≡ cs
      → v.IsReady mem k p.queue.queue
      → All (HasRoom mem k n) cs
      → v.waiting mem (finish mem cs pkts p).queue.queue ≡ drop (length pkts) cs
  unfolding finish
  finish-waiting mem k n [] [] p e ready rooms = e
  finish-waiting mem k n [] (pkt ∷ pkts) p e ready rooms = e
  finish-waiting mem k n (c ∷ cs) [] p e ready rooms = e
  finish-waiting mem k n (c ∷ cs) (pkt ∷ pkts) p e ready (room, rooms) =
      let rest = fed-waiting mem k pkt pkts c cs p e room.head_below ready in
      finish-waiting mem k n cs pkts (fed c pkt (taken mem pkts p)) rest.0 rest.1 rooms

  finish-notices :
      (mem : vq.Memory) (cs : List rings.Chain) (pkts : List EthernetPacket)
      (p : Port vq rings sw os)
      → (finish mem cs pkts p).notices ≡ deliveries cs pkts p.notices
  unfolding finish deliveries
  finish-notices mem [] pkts p = refl
  finish-notices mem (c ∷ cs) [] p = refl
  finish-notices mem (c ∷ cs) (pkt ∷ pkts) p =
      finish-notices mem cs pkts (fed c pkt (taken mem pkts p))

  -- What the loop leaves alone.
  finish-unchanged :
      (mem : vq.Memory) (cs : List rings.Chain) (pkts : List EthernetPacket)
      (p : Port vq rings sw os)
      → let p' = finish mem cs pkts p in
        (p'.queue.enabled ≡ p.queue.enabled)
        × (p'.queue.call_fd ≡ p.queue.call_fd)
        × (p'.switch ≡ p.switch)
  unfolding finish
  finish-unchanged mem [] pkts p = (refl, refl, refl)
  finish-unchanged mem (c ∷ cs) [] p = (refl, refl, refl)
  finish-unchanged mem (c ∷ cs) (pkt ∷ pkts) p =
      finish-unchanged mem cs pkts (fed c pkt (taken mem pkts p))

  -- The packets that wait are put into the chains that the driver made available, the first packet
  -- into the first chain and so on, each as a virtio header, the frame's header and the payload;
  -- then the driver is notified once. What stays are the packets for which there was no chain and
  -- the chains for which there was no packet; the switch is left alone. This where at least one
  -- packet waits, the memory is mapped and the queue ready in it, every chain is valid with an index
  -- below the queue's size and with room for every packet, the queue is enabled with a descriptor to
  -- call, and the write to it succeeds.
  pub handle_rx_queued_delivers :
      (mem : vq.Memory) (k n fd : ℕ) (pkt : EthernetPacket) (pkts : List EthernetPacket)
      (p : Port vq rings sw os)
      → p.pending ≡ pkt ∷ pkts
      → p.queue.mem ≡ some mem
      → v.IsReady mem k p.queue.queue
      → All (HasRoom mem k n) (v.waiting mem p.queue.queue)
      → All (Fits n) (pkt ∷ pkts)
      → p.queue.enabled ≡ true
      → p.queue.call_fd ≡ some fd
      → os (Syscall.write fd notification) ≡ none
      → (p' : Port vq rings sw os) × (handle_rx_queued vq rings sw os p ≡ (p', ok tt))
        × (p'.pending ≡ drop (length (v.waiting mem p.queue.queue)) (pkt ∷ pkts))
        × (v.waiting mem p'.queue.queue ≡ drop (length (pkt ∷ pkts)) (v.waiting mem p.queue.queue))
        × (p'.notices
            ≡ called fd notification
              ∷ deliveries (v.waiting mem p.queue.queue) (pkt ∷ pkts) p.notices)
        × (p'.switch ≡ p.switch)
  unfolding handle_rx_queued mapped call write_call notice
  handle_rx_queued_delivers mem k n fd pkt pkts p waits has ready room fits enabled calls wrote_ok =
      let all = pkt ∷ pkts in
      let cs = v.waiting mem p.queue.queue in
      let p' = finish mem cs all p in
      let same = finish-unchanged mem cs all p in
      let loop = receive_pending_lem mem k n all cs p refl ready room fits in
      (
        record p' { notices = called fd notification ∷ p'.notices },
        ground (arith, waits, has, loop, same, enabled, calls, wrote_ok),
        finish-pending mem cs all p waits,
        finish-waiting mem k n cs all p refl ready room,
        ap (◌∷◌ (called fd notification)) (finish-notices mem cs all p),
        same.2,
      )
