-- ===== src/Bridge/Guests.antt =====
-- The bridge's switch as the devices of the guests use it: oathgate-bridge/src/net/switch.rs behind
-- the trait `Switch` of oathgate-net/src/lib.rs, under oathgate-vhost/src/queue.rs. A device is a
-- number; what the switch enqueues is kept in order.
pub mod Journey
mod Tests
use oathgate.Common.{
  ℕ, ◌+◌, ◌%◌, ◌^◌, ◌≤◌, ◌<◌, ◌≡◌, ◌≢◌, refl, sym, ap, ◌∙◌, arith, if_neg, Bool, true, false, List,
  [], ◌∷◌, ◌++◌, length, get_elem?, ltb, if◌then◌else◌, Option, none, some, Outcome, ok, err, panic,
}
use oathgate.Net.Error.{ProtocolError, not_enough_data}
use oathgate.Net.Frame.{EthernetFrame}
use oathgate.Net.Frame.RoundTrip.{wire, extract-wire}
use oathgate.Net.Mac.{MacAddress-discrete, is_broadcast}
use oathgate.Bridge.Switch.{VirtioSwitch, Delivery, get_port, unicast}
use oathgate.Bridge.Switch
use oathgate.Bridge.Switch.Forwarding.{deliver, process-unicast, unicast_known}
use oathgate.Vhost.Queue.{VirtioQueue, VirtQueue}
use oathgate.Vhost.Device.{Syscall}
use oathgate.Vhost.NetHeader.{VirtioNetHeader, extract}
use oathgate.Vhost.Rings.{Rings, Notice, used, Port, transmit, Switch as AnySwitch}
use oathgate.Vhost.Rings.Transmit.{IsReading, transmit_accepted, transmit-refused}

pub record Fabric : Type 0 where
  pub switch : VirtioSwitch ℕ
  pub enqueued : List (Delivery ℕ)

-- The new device gets its port's number for a name.
unfoldable pub connect : Fabric → Fabric × ℕ
unfolding Switch.connect
connect s =
    let connected = Switch.connect ℕ s.switch (length s.switch.ports) in
    (record s { switch = connected.0 }, connected.1)

unfoldable pub enqueue_all :
    List (Delivery ℕ)
    → VirtioSwitch ℕ × Outcome ProtocolError (List (Delivery ℕ))
    → Fabric × Outcome ProtocolError (Unit {0})
enqueue_all before (s, ok ds) = (record { switch = s; enqueued = before ++ ds }, ok tt)
enqueue_all before (s, err e) = (record { switch = s; enqueued = before }, err e)
enqueue_all before (s, panic) = (record { switch = s; enqueued = before }, panic)

unfoldable pub process : ℕ → List ℕ → Fabric → Fabric × Outcome ProtocolError (Unit {0})
unfolding Switch.process enqueue_all
process port pkt s = enqueue_all s.enqueued (Switch.process ℕ s.switch port pkt)

abbrev pub bridge : AnySwitch
bridge = record { State = Fabric; connect = connect; process = process }

process-delivers :
    (port : ℕ) (pkt : List ℕ) (s : Fabric) (ds : List (Delivery ℕ))
    → (Switch.process ℕ s.switch port pkt).1 ≡ ok ds
    → process port pkt s ≡ (
      record { switch = (Switch.process ℕ s.switch port pkt).0; enqueued = s.enqueued ++ ds },
      ok tt,
    )
unfolding process enqueue_all
process-delivers port pkt s ds e = ground (arith, e)

process-short :
    (port : ℕ) (pkt : List ℕ) (s : Fabric)
    → length pkt < 14
    → process port pkt s ≡ (s, err (not_enough_data (length pkt) 14))
unfolding process enqueue_all Switch.process
process-short port pkt s h = ground arith

module _ (vq : VirtioQueue) (rings : Rings vq) (os : Syscall → Option ℕ)
    (v : IsReading vq rings) where
  -- A frame that one guest sends to a host that the switch has learnt is enqueued, unchanged and
  -- once, for the device at that host's port, and the sender's chain is given back with the frame's
  -- length. This for a chain that can be read and given back and holds a virtio header and then the
  -- frame, whose destination is neither its source nor the broadcast address.
  pub transmit-unicast :
      (mem : vq.Memory) (port b dev : ℕ) (chain : rings.Chain) (p : Port vq rings bridge os)
      (r : rings.Reader) (hdr : VirtioNetHeader) (f : EthernetFrame) (body : List ℕ) (q : vq.Queue)
      → rings.reader mem chain ≡ some r
      → v.IsReadable r
      → extract (v.bytes r) ≡ ok (hdr, wire f ++ body)
      → rings.add_used mem (rings.head_index chain) (length (wire f ++ body) % 2 ^ 32) p.queue.queue
        ≡ some q
      → is_broadcast f.dst ≡ false
      → f.src ≢ f.dst
      → get_port ℕ p.switch.switch f.dst ≡ some b
      → get_elem? p.switch.switch.ports b ≡ some dev
      → (p' : Port vq rings bridge os) × (transmit vq rings bridge os mem port chain p
          ≡ (p', ok tt))
        × (p'.switch.enqueued ≡ p.switch.enqueued ++ deliver ℕ f body dev ∷ [])
        × (p'.notices
            ≡ used (rings.head_index chain) (length (wire f ++ body) % 2 ^ 32) ∷ p.notices)
  transmit-unicast mem port b dev chain p r hdr f body q found can behind returned cast ne learnt
        there =
      let pkt = wire f ++ body in
      let forwarded =
        process-unicast ℕ p.switch.switch port pkt body f (omega arith) (extract-wire f body) cast
        ∙ ap (λ o. ok (unicast ℕ p.switch.switch.ports o f body))
            (if_neg (MacAddress-discrete f.src f.dst) ne (some port)
                (get_port ℕ p.switch.switch f.dst)
              ∙ learnt)
        ∙ ap ok (unicast_known ℕ p.switch.switch.ports b dev f body there) in
      (
        _,
        transmit_accepted vq rings bridge os v mem port chain p r hdr pkt _ q found can behind
            (process-delivers port pkt p.switch (deliver ℕ f body dev ∷ []) forwarded) returned,
        refl,
        refl,
      )

  -- A readable chain of a guest that holds a virtio header and fewer than the 14 bytes of a frame's header
  -- behind it panics the thread of the guest's device, which was not given the chain back.
  pub transmit-short :
      (mem : vq.Memory) (port : ℕ) (chain : rings.Chain) (p : Port vq rings bridge os)
      (r : rings.Reader) (hdr : VirtioNetHeader) (frame : List ℕ)
      → rings.reader mem chain ≡ some r
      → v.IsReadable r
      → extract (v.bytes r) ≡ ok (hdr, frame)
      → length frame < 14
      → transmit vq rings bridge os mem port chain p ≡ (p, panic)
  transmit-short mem port chain p r hdr frame found can behind short =
      transmit-refused vq rings bridge os v mem port chain p r hdr frame p.switch _ found can behind
        (process-short port frame p.switch short)
