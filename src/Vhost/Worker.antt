-- ===== src/Vhost/Worker.antt =====
-- oathgate-vhost/src/device.rs: the device's thread. It waits for events (crate mio): messages on the
-- control stream, packets that the switch put into the device's queue, and kicks of the virtqueues.
-- What the system calls `recvmsg` and `read` give is part of the state and of the events.
pub mod Stream
pub mod Requests
mod Tests
use oathgate.Common.{
  ℕ, zero, suc, ◌+◌, ◌-◌, ◌*◌, ◌%◌, ◌^◌, Bool, true, false, List, [], ◌∷◌, ◌++◌, length, take,
  replicate, get_elem?, set, ltb, ◌==◌, if◌then◌else◌, Option, none, some, Outcome, ok, err, panic,
  map_err, ok_or, ℕ_discrete,
}
use oathgate.Common.HashMap
use oathgate.Net.Frame.{EthernetFrame, EthernetPacket}
use oathgate.Vhost.Error.{Error, errno, payload, virtio, queue_not_found, header_missing}
use oathgate.Vhost.Queue.{VirtioQueue, VirtQueue, new_with}
use oathgate.Vhost.Types.{ControlMessage, VHostHeader, parse_header, set_payload}
use oathgate.Vhost.Device.{
  Act, ◌>>=◌, ◌>>◌, lift, get, modify, Syscall, VirtioDevice, KickFd, rx, tx,
}
use oathgate.Vhost.Device.Messages.Dispatch.{parse_msg}
use oathgate.Vhost.Rings.{Switch, Rings, Notice, Port, handle_rx_queued, kick_rx, kick_tx}

-- What a `recvmsg` gives: an error number, or how many buffers were filled, the bytes received and
-- the control messages.
pub data Answer : Type 0 where
  failed : ℕ → Answer
  received : ℕ → List ℕ → Outcome Error (List ControlMessage) → Answer

-- An event's token: the control stream, the waker, or another with what `read` gives for its
-- descriptor.
pub data Event : Type 0 where
  stream wake : Event
  token : ℕ → Outcome Error (List ℕ) → Event

abbrev pub would_block : ℕ
would_block = 11

abbrev pub queue_max_size : ℕ
queue_max_size = 1024

unfoldable pub is_would_block : Error → Bool
is_would_block (errno n) = n == would_block
is_would_block e = false

-- A buffer of `n` zeros over which the bytes were written.
abbrev pub fill : ℕ → List ℕ → List ℕ
fill n bytes = take n (bytes ++ replicate n 0)

-- The header that an answer holds.
unfoldable pub header : Answer → Outcome Error VHostHeader
unfolding parse_header
header (failed e) = err (errno e)
header (received iovs bytes cmsgs) =
    if iovs == 1
    then elim cmsgs [
      | ok ancillary ↦ map_err payload (parse_header (fill 12 bytes) ancillary)
      | err e ↦ err e
      | panic ↦ panic
    ]
    else err header_missing

unfoldable pub bytes_of : Answer → List ℕ
bytes_of (failed e) = []
bytes_of (received n bytes cmsgs) = bytes

module _ (vq : VirtioQueue) (rings : Rings vq) (sw : Switch) (os : Syscall → Option ℕ) where
  -- The device, what its queues share, and the answers that the control stream has in store.
  pub record Worker : Type 0 where
    pub device : VirtioDevice vq
    pub pending : List EthernetPacket
    pub switch : sw.State
    pub notices : List Notice
    pub inbox : List Answer

  -- `SwitchPort::enqueue`: the packet waits, and the device is to wake.
  unfoldable pub enqueue : EthernetFrame → List ℕ → List EthernetPacket → List EthernetPacket
  enqueue frame pkt pending = pending ++ record { frame = frame; payload = pkt } ∷ []

  -- So many new queues.
  unfoldable pub new_queues : ℕ → Outcome Error (List (VirtQueue vq))
  unfolding new_with
  new_queues zero = ok []
  new_queues (suc n) = elim (vq.new_queue queue_max_size) [
    | none ↦ err virtio
    | some q ↦ elim (new_queues n) [
      | ok qs ↦ ok (new_with vq q ∷ qs)
      | err e ↦ err e
      | panic ↦ panic
    ]
  ]

  -- The number of queues is a product of two `u8`, which wraps, as in a build without overflow checks.
  unfoldable pub new : ℕ → sw.State → List Answer → Outcome Error Worker
  unfolding new_queues
  new device_queues s inbox = elim (new_queues (device_queues * 2 % 2 ^ 8)) [
    | ok queues ↦
        let connected = sw.connect s in
        ok (record {
          device = record {
            channel = none;
            queues = queues;
            mappings = [];
            status = 0;
            num_queues = device_queues;
            kick_fds = HashMap.empty;
            router_port = connected.1;
            calls = [];
          };
          pending = [];
          switch = connected.0;
          notices = [];
          inbox = inbox;
        })
    | err e ↦ err e
    | panic ↦ panic
  ]

  -- An action of the device.
  unfoldable pub on_device : {A : Type 0} → Act (VirtioDevice vq) A → Act Worker A
  on_device f w = let (d, r) = f w.device in (record w { device = d }, r)

  -- A queue with what it shares.
  abbrev pub port_of : VirtQueue vq → Worker → Port vq rings sw os
  port_of q w = record { queue = q; pending = w.pending; switch = w.switch; notices = w.notices }

  abbrev pub put_port :
      {A : Type 0} → ℕ → Worker → Port vq rings sw os × Outcome Error A → Worker × Outcome Error A
  put_port idx w (p, r) = (
    record w {
      device = record (w.device) { queues = set w.device.queues idx p.queue };
      pending = p.pending;
      switch = p.switch;
      notices = p.notices;
    },
    r,
  )

  unfoldable pub on_port :
      {A : Type 0}
      → ℕ
      → Act (Port vq rings sw os) A
      → Worker
      → Option (VirtQueue vq)
      → Worker × Outcome Error A
  on_port idx f w none = (w, err (queue_not_found idx))
  on_port idx f w (some q) = put_port idx w (f (port_of q w))

  -- `self.get_virtqueue_mut(idx)?` and a method of the queue.
  unfoldable pub on_queue : {A : Type 0} → ℕ → Act (Port vq rings sw os) A → Act Worker A
  unfolding on_port
  on_queue idx f w = on_port idx f w (get_elem? w.device.queues idx)

  -- The next answer of the stream; with none in store a read would block.
  unfoldable pub recvmsg : Act Worker Answer
  recvmsg w = elim w.inbox [
    | [] ↦ (w, err (errno would_block))
    | failed e ∷ rest ↦ (record w { inbox = rest }, err (errno e))
    | received n bytes cmsgs ∷ rest ↦ (record w { inbox = rest }, ok (received n bytes cmsgs))
  ]

  unfoldable pub read_payload : VHostHeader → Act Worker VHostHeader
  unfolding recvmsg set_payload bytes_of
  read_payload hdr w =
      if ltb 0 hdr.sz
      then (recvmsg >>= λ a. lift (ok (set_payload hdr (fill hdr.sz (bytes_of a))))) w
      else (w, ok hdr)

  unfoldable pub handle_header : VHostHeader → Act Worker (Unit {0})
  unfolding read_payload on_device parse_msg
  handle_header hdr = do hdr ← read_payload hdr; on_device (parse_msg vq os hdr)

  unfoldable pub read_stream : Act Worker (Unit {0})
  unfolding recvmsg header handle_header
  read_stream = do answer ← recvmsg; hdr ← lift (header answer); handle_header hdr

  -- What follows a read: the next, the end of the loop, or an error.
  unfoldable pub read_next :
      (Worker → Worker × Outcome Error (Unit {0}))
      → Worker × Outcome Error (Unit {0})
      → Worker × Outcome Error (Unit {0})
  unfolding is_would_block
  read_next again (w, ok _) = again w
  read_next again (w, err e) = if is_would_block e then (w, ok tt) else (w, err e)
  read_next again (w, panic) = (w, panic)

  -- The loop over the messages that have arrived, by the number of rounds.
  unfoldable pub read_messages : ℕ → Act Worker (Unit {0})
  unfolding read_next read_stream
  read_messages zero w = (w, panic)
  read_messages (suc rounds) w = read_next (read_messages rounds) (read_stream w)

  -- A kick by the kind of its queue.
  unfoldable pub kick : Option KickFd → Outcome Error (List ℕ) → Act Worker (Unit {0})
  unfolding on_queue kick_rx kick_tx
  kick none got = lift (ok tt)
  kick (some (rx fd idx)) got = do pkt ← lift got; on_queue idx (kick_rx vq rings sw os pkt)
  kick (some (tx fd idx)) got = do
    pkt ← lift got
    port ← get (λ w. w.device.router_port)
    on_queue idx (kick_tx vq rings sw os pkt port)

  unfoldable pub handle_event : Event → Act Worker (Unit {0})
  unfolding read_messages on_queue handle_rx_queued kick
  handle_event stream w = read_messages (suc (length w.inbox)) w
  handle_event wake w = on_queue 0 (handle_rx_queued vq rings sw os) w
  handle_event (token t got) w = kick (HashMap.get ℕ_discrete w.device.kick_fds t) got w

  -- The thread over a sequence of events: an error ends it.
  unfoldable pub run : List Event → Act Worker (Unit {0})
  unfolding handle_event
  run [] = lift (ok tt)
  run (event ∷ events) = do handle_event event; run events
