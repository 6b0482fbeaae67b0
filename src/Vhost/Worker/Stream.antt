-- ===== src/Vhost/Worker/Stream.antt =====
-- The loop over the messages of the control stream (oathgate-vhost/src/device.rs, `run` and
-- `read_stream`).
use oathgate.Common.{
  ℕ, dec_lt, zero, suc, ◌-◌, ◌≤◌, ◌<◌, ◌≡◌, ◌≢◌, Bool, true, false, if◌then◌else◌, refl, sym, ap,
  ◌∙◌, arith, [], length, Option, Outcome, ok, err, panic,
}
use native.Mathlib.Nat.{le_trans}
use oathgate.Vhost.Error.{
  Error, errno, payload, memory, mmap_region, mmap, virtio, io, invalid_message, queue_not_found,
  queue_disabled, header_missing,
}
use oathgate.Vhost.Queue.{VirtioQueue}
use oathgate.Vhost.Types.{VHostHeader, set_payload}
use oathgate.Vhost.Device.{Act, ◌>>=◌, continue, lift, Syscall, VirtioDevice}
use oathgate.Vhost.Device.Messages.Dispatch.{parse_msg}
use oathgate.Vhost.Rings.{Switch, Rings}
use oathgate.Vhost.Worker.{
  would_block, fill, Worker, on_device, recvmsg, header, bytes_of, read_payload, handle_header,
  read_stream, read_next, read_messages, is_would_block,
}

module _ (vq : VirtioQueue) (rings : Rings vq) (sw : Switch) (os : Syscall → Option ℕ) where
  abbrev State : Type 0
  State = Worker vq rings sw os

  -- An action that leaves at most so many answers as there were.
  abbrev Consumes : {A : Type 0} → Act State A → Type 0
  Consumes m = (w : State) → length (m w).0.inbox ≤ length w.inbox

  continue-Consumes :
      {A B : Type 0} (r : State × Outcome Error A) (f : A → Act State B)
      → ((a : A) → Consumes (f a))
      → length (continue r f).0.inbox ≤ length r.0.inbox
  continue-Consumes (w, ok a) f h = h a w
  continue-Consumes (w, err e) f h = omega arith
  continue-Consumes (w, panic) f h = omega arith

  on_device-Consumes :
      {A : Type 0} (f : Act (VirtioDevice vq) A) → Consumes (on_device vq rings sw os f)
  unfolding on_device
  on_device-Consumes f w = omega arith

  -- A read takes an answer if there is one.
  recvmsg-inbox : (w : State) → length (recvmsg vq rings sw os w).0.inbox ≡ length w.inbox - 1
  unfolding recvmsg
  recvmsg-inbox w = ground arith

  read_payload-Consumes : (hdr : VHostHeader) → Consumes (read_payload vq rings sw os hdr)
  unfolding read_payload
  read_payload-Consumes hdr w = ground (
    arith,
    recvmsg-inbox w,
    continue-Consumes (recvmsg vq rings sw os w)
        (λ a. lift (ok (set_payload hdr (fill hdr.sz (bytes_of a))))) (λ a u. omega arith),
  )

  handle_header-Consumes : (hdr : VHostHeader) → Consumes (handle_header vq rings sw os hdr)
  unfolding handle_header
  handle_header-Consumes hdr w =
      le_trans
        (continue-Consumes (read_payload vq rings sw os hdr w)
          (λ hdr'. on_device vq rings sw os (parse_msg vq os hdr'))
          (λ hdr'. on_device-Consumes (parse_msg vq os hdr')))
        (read_payload-Consumes hdr w)

  headed-Consumes :
      (r : Outcome Error VHostHeader) → Consumes (lift r >>= handle_header vq rings sw os)
  headed-Consumes (ok hdr) w = handle_header-Consumes hdr w
  headed-Consumes (err e) w = omega arith
  headed-Consumes panic w = omega arith

  read_stream-inbox :
      (w : State) → length (read_stream vq rings sw os w).0.inbox ≤ length w.inbox - 1
  unfolding read_stream
  read_stream-inbox w =
      le_trans
        (continue-Consumes (recvmsg vq rings sw os w)
          (λ answer. lift (header answer) >>= handle_header vq rings sw os)
          (λ answer. headed-Consumes (header answer)))
        (omega (arith, recvmsg-inbox w))

  -- With no answer in store a read would block.
  read_stream-empty :
      (w : State) → w.inbox ≡ [] → read_stream vq rings sw os w ≡ (w, err (errno would_block))
  unfolding read_stream recvmsg
  read_stream-empty w e = ground arith

  -- What the loop of the source comes to, without rounds: after a message that was handled it goes on;
  -- it ends well where a read would block, and otherwise with the error or the panic of the read.
  pub data Reads : State → State × Outcome Error (Unit {0}) → Type 0 where
    goes_on :
        (w w' : State) (r : State × Outcome Error (Unit {0}))
        → read_stream vq rings sw os w ≡ (w', ok tt)
        → Reads w' r
        → Reads w r
    blocks :
        (w w' : State)
        → read_stream vq rings sw os w ≡ (w', err (errno would_block))
        → Reads w (w', ok tt)
    fails :
        (w w' : State) (e : Error)
        → e ≢ errno would_block
        → read_stream vq rings sw os w ≡ (w', err e)
        → Reads w (w', err e)
    panics : (w w' : State) → read_stream vq rings sw os w ≡ (w', panic) → Reads w (w', panic)

  is_would_block_lem : (e : Error) → is_would_block e ≡ true → e ≡ errno would_block
  unfolding is_would_block
  is_would_block_lem (errno n) h = ground (arith, h)
  is_would_block_lem (payload x) h = absurd (ground (arith, h))
  is_would_block_lem (memory x) h = absurd (ground (arith, h))
  is_would_block_lem mmap_region h = absurd (ground (arith, h))
  is_would_block_lem mmap h = absurd (ground (arith, h))
  is_would_block_lem virtio h = absurd (ground (arith, h))
  is_would_block_lem io h = absurd (ground (arith, h))
  is_would_block_lem invalid_message h = absurd (ground (arith, h))
  is_would_block_lem (queue_not_found n) h = absurd (ground (arith, h))
  is_would_block_lem queue_disabled h = absurd (ground (arith, h))
  is_would_block_lem header_missing h = absurd (ground (arith, h))

  is_would_block_self : is_would_block (errno would_block) ≡ true
  unfolding is_would_block
  is_would_block_self = refl

  failed-Reads :
      (w w' : State) (e : Error) (b : Bool)
      → read_stream vq rings sw os w ≡ (w', err e)
      → is_would_block e ≡ b
      → Reads w (if b then (w', ok tt) else (w', err e))
  failed-Reads w w' e true step h =
      blocks w w' (step ∙ ap (λ x. (w', err x)) (is_would_block_lem e h))
  failed-Reads w w' e false step h =
      fails w w' e
        (λ same. absurd (ground (arith, sym h ∙ ap is_would_block same ∙ is_would_block_self))) step

  read_next-Reads :
      (again : State → State × Outcome Error (Unit {0})) (w : State)
      (r : State × Outcome Error (Unit {0}))
      → read_stream vq rings sw os w ≡ r
      → (r.1 ≡ ok tt → Reads r.0 (again r.0))
      → Reads w (read_next vq rings sw os again r)
  unfolding read_next
  read_next-Reads again w (w', ok _) step rest = goes_on w w' (again w') step (rest refl)
  read_next-Reads again w (w', err e) step rest = failed-Reads w w' e (is_would_block e) step refl
  read_next-Reads again w (w', panic) step rest = panics w w' step

  -- A message that was handled took an answer.
  handled :
      (w w' : State) → read_stream vq rings sw os w ≡ (w', ok tt) → length w'.inbox < length w.inbox
  handled w w' step = elim (dec_lt 0 (length w.inbox)) [
    | yes some_left ↦ omega (
      arith,
      read_stream-inbox w,
      ap (λ (r : State × Outcome Error (Unit {0})). length r.0.inbox) step,
    )
    | no none_left ↦
        let stops =
          ap (λ (r : State × Outcome Error (Unit {0})). r.1)
            (sym step ∙ read_stream-empty w (ground arith)) in
        absurd (ground (arith, stops))
  ]

  -- The loop over the messages ends as the loop of the source does, whatever the messages and the
  -- answers of the system are: it goes on after a message that was handled, and ends where a read
  -- would block or fails. A round for each answer of the stream and one more are enough.
  pub read_messages-Reads :
      (rounds : ℕ) (w : State)
      → length w.inbox < rounds
      → Reads w (read_messages vq rings sw os rounds w)
  unfolding read_messages
  read_messages-Reads zero w h = absurd (omega arith)
  read_messages-Reads (suc rounds) w h =
      let r = read_stream vq rings sw os w in
      read_next-Reads (read_messages vq rings sw os rounds) w r refl (λ done.
        read_messages-Reads rounds r.0 (omega (arith, handled w r.0 (ap (λ o. (r.0, o)) done))))
