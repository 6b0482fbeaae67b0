-- ===== src/Vhost/Rings.antt =====
-- oathgate-vhost/src/queue.rs: what a queue does with its rings and with the switch. The rings in the
-- guest's memory (crates virtio_queue and vm_memory) are a parameter, `Rings`, and so is the switch,
-- whose trait is in oathgate-net/src/lib.rs. What is written to the guest is kept as a list, the last
-- entry first.
pub mod Transmit
pub mod Receive
pub mod Lists
use oathgate.Common.{
  ℕ, zero, suc, ◌+◌, ◌/◌, ◌%◌, ◌^◌, Bool, true, false, List, [], ◌∷◌, ◌++◌, length, ltb, ◌==◌, not,
  guard, if◌then◌else◌, Option, none, some, Outcome, ok, err, panic, map_err, ok_or,
}
use oathgate.Common.Bytes.{le_at}
use oathgate.Net.Error.{ProtocolError}
use oathgate.Net.Frame.{EthernetPacket, to_bytes}
use oathgate.Vhost.Error.{
  Error, errno, payload, memory, no_mapped_memory, virtio, io, queue_disabled,
}
use oathgate.Vhost.NetHeader.{extract, as_bytes, new}
use oathgate.Vhost.Queue.{VirtioQueue, VirtQueue}
use oathgate.Vhost.Device.{Act, ◌>>=◌, ◌>>◌, lift, get, modify, Syscall}

-- The trait `Switch`: a device is connected, which gives its port, and its frames are handed over
-- with the port.
pub record Switch : Type 1 where
  pub State : Type 0
  pub connect : State → State × ℕ
  pub process : ℕ → List ℕ → State → State × Outcome ProtocolError (Unit {0})

-- Descriptor chains, and the reader and the writer over one. An operation that fails gives `none`.
pub record Rings (vq : VirtioQueue) : Type 1 where
  pub Chain : Type 0
  pub Reader : Type 0
  pub Writer : Type 0
  pub iter : vq.Memory → vq.Queue → Option (vq.Queue × List Chain)
  pub pop_descriptor_chain : vq.Memory → vq.Queue → vq.Queue × Option Chain
  pub head_index : Chain → ℕ
  pub reader : vq.Memory → Chain → Option Reader
  pub available_bytes : Reader → ℕ
  -- at most so many bytes
  pub read : ℕ → Reader → Option (Reader × List ℕ)
  pub writer : vq.Memory → Chain → Option Writer
  pub write_all : List ℕ → Writer → Option Writer
  pub add_used : vq.Memory → ℕ → ℕ → vq.Queue → Option vq.Queue

-- What the driver sees: bytes written to a chain, a chain given back with a length, and a
-- notification.
pub data Notice : Type 0 where
  wrote : ℕ → List ℕ → Notice
  used : ℕ → ℕ → Notice
  called : ℕ → List ℕ → Notice

abbrev pub notification : List ℕ
notification = 1 ∷ 0 ∷ 0 ∷ 0 ∷ 0 ∷ 0 ∷ 0 ∷ 0 ∷ []

abbrev pub buffer_sz : ℕ
buffer_sz = 4096

module _ (vq : VirtioQueue) (rings : Rings vq) (sw : Switch) (os : Syscall → Option ℕ) where
  open rings use {Chain, Reader, Writer}

  -- A queue with what it shares: the packets that wait for the guest, and the switch.
  pub record Port : Type 0 where
    pub queue : VirtQueue vq
    pub pending : List EthernetPacket
    pub switch : sw.State
    pub notices : List Notice

  unfoldable pub notice : Notice → Act Port (Unit {0})
  notice n = modify (λ p. record p { notices = n ∷ p.notices })

  -- `self.mem.as_ref().map(|m| m.memory())`
  unfoldable pub mapped : Act Port vq.Memory
  mapped p = (p, ok_or p.queue.mem (memory no_mapped_memory))

  unfoldable pub set_rings : vq.Queue → Act Port (Unit {0})
  set_rings q = modify (λ p. record p { queue = record (p.queue) { queue = q } })

  -- The length is a `u32`.
  unfoldable pub add_used : vq.Memory → ℕ → ℕ → Act Port (Unit {0})
  unfolding notice set_rings
  add_used mem head len = do
    q ← get (λ p. p.queue.queue)
    q' ← lift (ok_or (rings.add_used mem head (len % 2 ^ 32) q) virtio)
    set_rings q'
    notice (used head (len % 2 ^ 32))

  unfoldable pub write_call : Option ℕ → List ℕ → Act Port (Unit {0})
  unfolding notice
  write_call none pkt = lift (ok tt)
  write_call (some fd) pkt = do
    lift (elim (os (Syscall.write fd pkt)) [ none ↦ ok tt | some e ↦ err (errno e) ])
    notice (called fd pkt)

  unfoldable pub call : List ℕ → Act Port (Unit {0})
  unfolding write_call
  call pkt p = if p.queue.enabled then write_call p.queue.call_fd pkt p else (p, err queue_disabled)

  unfoldable pub append_to : List ℕ → Outcome Error (List ℕ) → Outcome Error (List ℕ)
  append_to got (ok more) = ok (got ++ more)
  append_to got (err e) = err e
  append_to got panic = panic

  -- A round of the loop over `read`; `again` is the rest of the loop.
  unfoldable pub read_round :
      (Reader → Outcome Error (List ℕ)) → Option (Reader × List ℕ) → Outcome Error (List ℕ)
  unfolding append_to
  read_round again none = err io
  read_round again (some (r, got)) =
      if ltb (length got) buffer_sz then ok got else append_to got (again r)

  -- The loop over `read`, by the rounds that the reader's bytes need.
  unfoldable pub read_chain : ℕ → Reader → Outcome Error (List ℕ)
  unfolding read_round
  read_chain zero r = panic
  read_chain (suc rounds) r = read_round (read_chain rounds) (rings.read buffer_sz r)

  unfoldable pub rounds_of : Reader → ℕ
  rounds_of r = suc (rings.available_bytes r / buffer_sz)

  -- `self.switch.process(switch_port, pkt).unwrap()`
  unfoldable pub switched : sw.State × Outcome ProtocolError (Unit {0}) → Act Port (Unit {0})
  switched (s, ok _) p = (record p { switch = s }, ok tt)
  switched (s, err e) p = (record p { switch = s }, panic)
  switched (s, panic) p = (record p { switch = s }, panic)

  unfoldable pub process : ℕ → List ℕ → Act Port (Unit {0})
  unfolding switched
  process port pkt p = switched (sw.process port pkt p.switch) p

  -- One chain: its bytes are read, and the frame behind the header goes to the switch.
  unfoldable pub transmit : vq.Memory → ℕ → Chain → Act Port (Unit {0})
  unfolding process add_used read_chain rounds_of extract
  transmit mem port chain = do
    reader ← lift (ok_or (rings.reader mem chain) virtio)
    bytes ← lift (read_chain (rounds_of reader) reader)
    frame ← lift (map_err payload (extract bytes))
    process port frame.1
    add_used mem (rings.head_index chain) (length frame.1)

  unfoldable pub transmit_all : vq.Memory → ℕ → List Chain → Act Port (Unit {0})
  unfolding transmit
  transmit_all mem port [] = lift (ok tt)
  transmit_all mem port (chain ∷ chains) = do transmit mem port chain; transmit_all mem port chains

  -- The number that the driver wrote is read, and nothing is done if it is zero.
  unfoldable pub kicked : List ℕ → Act Port (Unit {0})
  unfolding le_at
  kicked pkt = do enabled ← lift (le_at 8 pkt 0); lift (guard (not (enabled == 0)) queue_disabled)

  -- `self.queue.iter(mem)?.collect()`
  unfoldable pub chains_of : vq.Memory → Act Port (List Chain)
  unfolding set_rings
  chains_of mem = do
    q ← get (λ p. p.queue.queue)
    found ← lift (ok_or (rings.iter mem q) virtio)
    set_rings found.0
    lift (ok found.1)

  unfoldable pub kick_tx : List ℕ → ℕ → Act Port (Unit {0})
  unfolding kicked mapped chains_of transmit_all call
  kick_tx pkt port = do
    kicked pkt
    mem ← mapped
    chains ← chains_of mem
    transmit_all mem port chains
    call notification

  -- `writer.write_all(bytes)?`
  unfoldable pub write : ℕ → List ℕ → Writer → Act Port Writer
  unfolding notice
  write head bytes w = do
    w' ← lift (ok_or (rings.write_all bytes w) io)
    notice (wrote head bytes)
    lift (ok w')

  -- The bytes of a frame's header, which cannot fail.
  unfoldable pub header_of : EthernetPacket → Outcome Error (List ℕ)
  unfolding to_bytes
  header_of pkt = elim (to_bytes pkt.frame) [ ok bytes ↦ ok bytes | err e ↦ panic | panic ↦ panic ]

  -- One packet into a chain: the virtio header, the frame's header and the payload.
  unfoldable pub receive : vq.Memory → Chain → EthernetPacket → Act Port (Unit {0})
  unfolding write header_of add_used as_bytes new
  receive mem chain pkt = do
    w ← lift (ok_or (rings.writer mem chain) virtio)
    let head = rings.head_index chain
    let vhdr = as_bytes new
    frame ← lift (header_of pkt)
    w ← write head vhdr w
    w ← write head frame w
    w ← write head pkt.payload w
    add_used mem head (length vhdr + length frame + length pkt.payload)

  unfoldable pub pop_descriptor_chain : vq.Memory → Act Port (Option Chain)
  unfolding set_rings
  pop_descriptor_chain mem = do
    q ← get (λ p. p.queue.queue)
    let popped = rings.pop_descriptor_chain mem q
    set_rings popped.0
    lift (ok popped.1)

  -- The loop over the packets that wait, until there are none or the chains are exhausted.
  unfoldable pub receive_pending : vq.Memory → List EthernetPacket → Act Port (Unit {0})
  unfolding pop_descriptor_chain receive
  receive_pending mem [] = lift (ok tt)
  receive_pending mem (pkt ∷ pkts) = do
    let rest = receive_pending mem pkts
    popped ← pop_descriptor_chain mem
    (elim popped [
      | none ↦ lift (ok tt)
      | some chain ↦ modify (λ p. record p { pending = pkts }) >> receive mem chain pkt >> rest
    ])

  unfoldable pub handle_rx_queued : Act Port (Unit {0})
  unfolding mapped receive_pending call
  handle_rx_queued p = elim p.pending [
    | [] ↦ (p, ok tt)
    | pkt ∷ pkts ↦ (mapped >>= λ mem. receive_pending mem (pkt ∷ pkts) >> call notification) p
  ]

  unfoldable pub kick_rx : List ℕ → Act Port (Unit {0})
  unfolding kicked handle_rx_queued
  kick_rx pkt = do kicked pkt; handle_rx_queued
