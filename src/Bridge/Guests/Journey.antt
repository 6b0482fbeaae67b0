-- ===== src/Bridge/Guests/Journey.antt =====
-- A frame on its way from one guest to another: oathgate-vhost/src/queue.rs (`kick_tx` and
-- `handle_rx_queued`), oathgate-vhost/src/device.rs (`enqueue`) and oathgate-bridge/src/net/switch.rs.
use oathgate.Common.{
  ℕ, subst, ◌+◌, ◌%◌, ◌^◌, ◌≤◌, ◌≡◌, ◌≢◌, sym, ap, ◌∙◌, arith, true, false, List, [], ◌∷◌, ◌++◌,
  length, drop, get_elem?, Option, none, some, ok, All,
}
use oathgate.Net.Frame.{EthernetFrame, EthernetPacket}
use oathgate.Net.Frame.RoundTrip.{wire}
use oathgate.Net.Mac.{is_broadcast}
use oathgate.Bridge.Guests.{bridge, transmit-unicast}
use oathgate.Bridge.Switch.{Delivery, get_port}
use oathgate.Vhost.Queue.{VirtioQueue}
use oathgate.Vhost.Device.{Syscall}
use oathgate.Vhost.NetHeader.{VirtioNetHeader, extract}
use oathgate.Vhost.Rings.{
  Rings, wrote, used, called, notification, Port, transmit, handle_rx_queued,
}
use oathgate.Vhost.Rings.Transmit.{IsReading}
use oathgate.Vhost.Rings.Receive.{
  IsDelivering, HasRoom, plain, received, deliveries, handle_rx_queued_delivers,
}
use oathgate.Vhost.Worker.{enqueue}

module _ (vq : VirtioQueue) (rings : Rings vq) (os : Syscall → Option ℕ) (v : IsReading vq rings)
    (w : IsDelivering vq rings) where
  -- A chain of the sender that can be read and given back, and that holds a virtio header and then a
  -- frame, to a host that the switch has learnt at the port of a device, neither the sender nor
  -- everyone.
  pub record Sends (mem : vq.Memory) (chain : rings.Chain) (f : EthernetFrame) (body : List ℕ)
      (dev : ℕ) (p : Port vq rings bridge os) : Type 0 where
    pub reader : rings.Reader
    pub header : VirtioNetHeader
    pub at_port : ℕ
    pub given_back : vq.Queue
    pub reads : rings.reader mem chain ≡ some reader
    pub can_read : v.IsReadable reader
    pub holds : extract (v.bytes reader) ≡ ok (header, wire f ++ body)
    pub gives_back :
        rings.add_used mem (rings.head_index chain) (length (wire f ++ body) % 2 ^ 32) p.queue.queue
        ≡ some given_back
    pub to_one : is_broadcast f.dst ≡ false
    pub to_other : f.src ≢ f.dst
    pub learnt : get_port ℕ p.switch.switch f.dst ≡ some at_port
    pub connected : get_elem? p.switch.switch.ports at_port ≡ some dev

  -- A receiver for whom nothing waits, with a queue that is ready and has one chain, which is valid,
  -- has an index below the queue's size and room for so many bytes, and with a descriptor to call.
  pub record Listens (mem : vq.Memory) (chain : rings.Chain) (fd n : ℕ)
      (q : Port vq rings bridge os) : Type 0 where
    pub none_waits : q.pending ≡ []
    pub has_memory : q.queue.mem ≡ some mem
    pub one_chain : w.waiting mem q.queue.queue ≡ chain ∷ []
    pub queue_size : ℕ
    pub is_ready : w.IsReady mem queue_size q.queue.queue
    pub room : HasRoom vq rings bridge os w mem queue_size n chain
    pub is_enabled : q.queue.enabled ≡ true
    pub has_fd : q.queue.call_fd ≡ some fd
    pub can_call : os (Syscall.write fd notification) ≡ none

  -- A frame that one guest sends to another reaches it byte for byte: the switch enqueues it once,
  -- for the receiver's device, and when that device wakes it writes a plain virtio header, the
  -- frame's header and its payload to the receiver's chain, gives the chain back with their length
  -- and notifies the receiver. Nothing waits afterwards. The receiver is the guest of the device that
  -- the switch names. This where the sender's chain and the receiver are as `Sends` and `Listens` say,
  -- with room for the frame.
  pub guest_to_guest :
      (mem mem' : vq.Memory) (port dev fd n : ℕ) (chain chain' : rings.Chain) (f : EthernetFrame)
      (body : List ℕ) (guests : ℕ → Option (Port vq rings bridge os))
      (p q : Port vq rings bridge os)
      → guests dev ≡ some q
      → Sends mem chain f body dev p
      → Listens mem' chain' fd n q
      → length (wire f ++ body) + 12 ≤ n
      → (d : Delivery ℕ) × (p' : Port vq rings bridge os) × (q' : Port vq rings bridge os)
        × (transmit vq rings bridge os mem port chain p ≡ (p', ok tt))
        × (p'.switch.enqueued ≡ p.switch.enqueued ++ d ∷ [])
        × (guests d.device ≡ some q)
        × (handle_rx_queued vq rings bridge os
              (record q { pending = enqueue vq rings bridge os d.frame d.payload q.pending })
            ≡ (q', ok tt))
        × (q'.pending ≡ [])
        × (q'.notices
            ≡ called fd notification
              ∷ used (rings.head_index chain') ((26 + length body) % 2 ^ 32)
              ∷ wrote (rings.head_index chain') body
              ∷ wrote (rings.head_index chain') (wire f)
              ∷ wrote (rings.head_index chain') plain
              ∷ q.notices)
  unfolding enqueue deliveries received
  guest_to_guest mem mem' port dev fd n chain chain' f body guests p q there s l fits =
      let pkt : EthernetPacket = record { frame = f; payload = body } in
      let (p', sends, queued, _) =
        transmit-unicast vq rings os v mem port s.at_port dev chain p s.reader s.header f body
          s.given_back s.reads s.can_read s.holds s.gives_back s.to_one s.to_other s.learnt
          s.connected in
      let q1 : Port vq rings bridge os = record q {
        pending = enqueue vq rings bridge os f body q.pending;
      } in
      let waits : q1.pending ≡ pkt ∷ [] = ap (λ xs. xs ++ pkt ∷ []) l.none_waits in
      let roomy : All (HasRoom vq rings bridge os w mem' l.queue_size n)
          (w.waiting mem' q.queue.queue) =
        subst (All (HasRoom vq rings bridge os w mem' l.queue_size n)) (sym l.one_chain)
          (l.room, tt) in
      let (q', runs, left, _, told, _) =
        handle_rx_queued_delivers vq rings bridge os w mem' l.queue_size n fd pkt [] q1 waits
          l.has_memory l.is_ready roomy (omega arith, tt) l.is_enabled l.has_fd l.can_call in
      (
        record { device = dev; frame = f; payload = body },
        p',
        q',
        sends,
        queued,
        there,
        runs,
        left ∙ ap (λ cs. drop (length cs) (pkt ∷ [])) l.one_chain,
        told
            ∙ ap
                (λ cs.
                  called fd notification ∷ deliveries vq rings bridge os w cs (pkt ∷ []) q.notices)
                l.one_chain,
      )
