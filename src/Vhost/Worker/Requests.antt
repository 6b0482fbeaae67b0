-- ===== src/Vhost/Worker/Requests.antt =====
-- Requests on the control stream and the queues of a running device (oathgate-vhost/src/device.rs,
-- `run` and `read_stream`).
use oathgate.Common.{
  ℕ, ◌*◌, ◌%◌, ◌^◌, zero, suc, ◌<◌, ◌≡◌, refl, ◌∙◌, arith, List, [], ◌∷◌, length, get_elem?, Option,
  none, some, Outcome, ok, err, panic,
}
use oathgate.Vhost.Error.{Error, virtio}
use oathgate.Vhost.Queue.{VirtioQueue, VirtQueue, new_with}
use oathgate.Vhost.Types.{ControlMessage, VHostHeader, parse_header, set_payload}
use oathgate.Vhost.Device.{Act, ◌>>=◌, continue, lift, Syscall, KickFd, rx, tx}
use oathgate.Vhost.Device.Messages.Dispatch.{parse_msg}
use oathgate.Vhost.Device.Queues.{length-set, parse_msg-Keeps}
use oathgate.Vhost.Rings.{Switch, Rings, Port, handle_rx_queued, kick_rx, kick_tx}
use oathgate.Vhost.Worker.{
  new, new_queues, queue_max_size, Answer, received, Event, stream, wake, token, fill, Worker,
  on_device, on_port, on_queue, recvmsg, header, bytes_of, read_payload, handle_header, read_stream,
  read_next, read_messages, is_would_block, kick, handle_event, run,
}

module _ (vq : VirtioQueue) (rings : Rings vq) (sw : Switch) (os : Syscall → Option ℕ) where
  abbrev State : Type 0
  State = Worker vq rings sw os

  -- A request is its header and then its payload: the two are taken from the stream together, a
  -- payload shorter than announced is filled up with zeros, and the device handles the request with
  -- that payload. This for a header that announces a payload, received with its control messages
  -- in one buffer.
  pub read_stream_request :
      (w : State) (bytes body : List ℕ) (n : ℕ) (cmsgs : List ControlMessage)
      (more : Outcome Error (List ControlMessage)) (rest : List Answer) (hdr : VHostHeader)
      → w.inbox ≡ received 1 bytes (ok cmsgs) ∷ received n body more ∷ rest
      → parse_header (fill 12 bytes) cmsgs ≡ ok hdr
      → 0 < hdr.sz
      → read_stream vq rings sw os w
        ≡ on_device vq rings sw os
            (parse_msg vq os (set_payload hdr (fill hdr.sz body)))
            (record w { inbox = rest })
  unfolding read_stream recvmsg header handle_header read_payload bytes_of
  read_stream_request w bytes body n cmsgs more rest hdr e parsed announced =
      ground (arith, e, parsed)

  -- A request whose payload has not arrived when its header is read is lost: the header is taken
  -- from the stream, the loop ends without an error, and the device is left as it was.
  pub read_messages_late :
      (rounds : ℕ) (w : State) (bytes : List ℕ) (cmsgs : List ControlMessage) (hdr : VHostHeader)
      → w.inbox ≡ received 1 bytes (ok cmsgs) ∷ []
      → parse_header (fill 12 bytes) cmsgs ≡ ok hdr
      → 0 < hdr.sz
      → read_messages vq rings sw os (suc rounds) w ≡ (record w { inbox = [] }, ok tt)
  unfolding read_messages read_next read_stream recvmsg header handle_header read_payload
      is_would_block
  read_messages_late rounds w bytes cmsgs hdr e parsed announced = ground (arith, e, parsed)

  -- An action that leaves as many queues as there were.
  abbrev Keeps : {A : Type 0} → Act State A → Type 0
  Keeps m = (w : State) → length (m w).0.device.queues ≡ length w.device.queues

  continue-Keeps :
      {A B : Type 0} (r : State × Outcome Error A) (f : A → Act State B)
      → ((a : A) → Keeps (f a))
      → length (continue r f).0.device.queues ≡ length r.0.device.queues
  continue-Keeps (w, ok a) f h = h a w
  continue-Keeps (w, err e) f h = refl
  continue-Keeps (w, panic) f h = refl

  recvmsg-Keeps : Keeps (recvmsg vq rings sw os)
  unfolding recvmsg
  recvmsg-Keeps w = ground arith

  read_payload-Keeps : (hdr : VHostHeader) → Keeps (read_payload vq rings sw os hdr)
  unfolding read_payload
  read_payload-Keeps hdr w = ground (
    arith,
    recvmsg-Keeps w,
    continue-Keeps (recvmsg vq rings sw os w)
        (λ a. lift (ok (set_payload hdr (fill hdr.sz (bytes_of a))))) (λ a u. refl),
  )

  on_device-Keeps : (hdr : VHostHeader) → Keeps (on_device vq rings sw os (parse_msg vq os hdr))
  unfolding on_device
  on_device-Keeps hdr w = parse_msg-Keeps vq os hdr w.device

  handle_header-Keeps : (hdr : VHostHeader) → Keeps (handle_header vq rings sw os hdr)
  unfolding handle_header
  handle_header-Keeps hdr w =
      continue-Keeps (read_payload vq rings sw os hdr w)
        (λ hdr'. on_device vq rings sw os (parse_msg vq os hdr')) on_device-Keeps
      ∙ read_payload-Keeps hdr w

  headed-Keeps : (r : Outcome Error VHostHeader) → Keeps (lift r >>= handle_header vq rings sw os)
  headed-Keeps (ok hdr) w = handle_header-Keeps hdr w
  headed-Keeps (err e) w = refl
  headed-Keeps panic w = refl

  read_stream-Keeps : Keeps (read_stream vq rings sw os)
  unfolding read_stream
  read_stream-Keeps w =
      continue-Keeps (recvmsg vq rings sw os w)
        (λ answer. lift (header answer) >>= handle_header vq rings sw os)
        (λ answer. headed-Keeps (header answer))
      ∙ recvmsg-Keeps w

  read_next-Keeps :
      (again : Act State (Unit {0})) (r : State × Outcome Error (Unit {0}))
      → Keeps again
      → length (read_next vq rings sw os again r).0.device.queues ≡ length r.0.device.queues
  unfolding read_next
  read_next-Keeps again (w, ok _) h = h w
  read_next-Keeps again (w, err e) h = ground arith
  read_next-Keeps again (w, panic) h = refl

  read_messages-Keeps : (rounds : ℕ) → Keeps (read_messages vq rings sw os rounds)
  unfolding read_messages
  read_messages-Keeps zero w = refl
  read_messages-Keeps (suc rounds) w =
      read_next-Keeps (read_messages vq rings sw os rounds) (read_stream vq rings sw os w)
        (read_messages-Keeps rounds)
      ∙ read_stream-Keeps w

  on_port-Keeps :
      {A : Type 0} (idx : ℕ) (f : Act (Port vq rings sw os) A) (w : State)
      (q : Option (VirtQueue vq))
      → length (on_port vq rings sw os idx f w q).0.device.queues ≡ length w.device.queues
  unfolding on_port
  on_port-Keeps idx f w none = refl
  on_port-Keeps idx f w (some q) = length-set w.device.queues idx _

  on_queue-Keeps :
      {A : Type 0} (idx : ℕ) (f : Act (Port vq rings sw os) A)
      → Keeps (on_queue vq rings sw os idx f)
  unfolding on_queue
  on_queue-Keeps idx f w = on_port-Keeps idx f w (get_elem? w.device.queues idx)

  kick-Keeps :
      (fd : Option KickFd) (got : Outcome Error (List ℕ)) → Keeps (kick vq rings sw os fd got)
  unfolding kick
  kick-Keeps none got w = refl
  kick-Keeps (some (rx fd idx)) (ok pkt) w = on_queue-Keeps idx (kick_rx vq rings sw os pkt) w
  kick-Keeps (some (tx fd idx)) (ok pkt) w =
      on_queue-Keeps idx (kick_tx vq rings sw os pkt w.device.router_port) w
  kick-Keeps (some (rx fd idx)) (err e) w = refl
  kick-Keeps (some (tx fd idx)) (err e) w = refl
  kick-Keeps (some (rx fd idx)) panic w = refl
  kick-Keeps (some (tx fd idx)) panic w = refl

  handle_event-Keeps : (event : Event) → Keeps (handle_event vq rings sw os event)
  unfolding handle_event
  handle_event-Keeps stream w = read_messages-Keeps (suc (length w.inbox)) w
  handle_event-Keeps wake w = on_queue-Keeps 0 (handle_rx_queued vq rings sw os) w
  handle_event-Keeps (token t got) w = kick-Keeps _ got w

  -- A running device has as many queues as it was made with, whatever events and messages come and
  -- also when one of them ends the thread.
  pub run-Keeps :
      (events : List Event) (w : State)
      → length (run vq rings sw os events w).0.device.queues ≡ length w.device.queues
  unfolding run
  run-Keeps [] w = refl
  run-Keeps (event ∷ events) w =
      continue-Keeps (handle_event vq rings sw os event w) (λ _. run vq rings sw os events)
        (λ _. run-Keeps events)
      ∙ handle_event-Keeps event w

  one_more :
      (n : ℕ) (qs : List (VirtQueue vq)) (o : Option vq.Queue)
      (rest : Outcome Error (List (VirtQueue vq)))
      → ((qs' : List (VirtQueue vq)) → rest ≡ ok qs' → length qs' ≡ n)
      → (elim o [
        | none ↦ err virtio
        | some q ↦ elim rest [ ok qs' ↦ ok (new_with vq q ∷ qs') | err x ↦ err x | panic ↦ panic ]
      ])
        ≡ ok qs
      → length qs ≡ suc n
  one_more n qs none rest ih h = absurd (ground (arith, h))
  one_more n qs (some q) (ok qs') ih h = ground (arith, h, ih qs' refl)
  one_more n qs (some q) (err x) ih h = absurd (ground (arith, h))
  one_more n qs (some q) panic ih h = absurd (ground (arith, h))

  new_queues-length :
      (n : ℕ) (qs : List (VirtQueue vq)) → new_queues vq rings sw os n ≡ ok qs → length qs ≡ n
  unfolding new_queues
  new_queues-length zero qs e = ground (arith, e)
  new_queues-length (suc n) qs e =
      one_more n qs (vq.new_queue queue_max_size) (new_queues vq rings sw os n)
        (λ qs' p. new_queues-length n qs' p) e

  new-length :
      (device_queues : ℕ) (s : sw.State) (inbox : List Answer) (w : State)
      → new vq rings sw os device_queues s inbox ≡ ok w
      → length w.device.queues ≡ device_queues * 2 % 2 ^ 8
  unfolding new
  new-length device_queues s inbox w e =
      ground (arith, e, new_queues-length (device_queues * 2 % 2 ^ 8) w.device.queues)

  -- A device made for so many pairs of queues has two queues for each, modulo 2 ^ 8, whatever events
  -- and messages come and also when one of them ends the thread.
  pub run-new :
      (device_queues : ℕ) (s : sw.State) (inbox : List Answer) (events : List Event) (w : State)
      → new vq rings sw os device_queues s inbox ≡ ok w
      → length (run vq rings sw os events w).0.device.queues ≡ device_queues * 2 % 2 ^ 8
  run-new device_queues s inbox events w e =
      run-Keeps events w ∙ new-length device_queues s inbox w e
