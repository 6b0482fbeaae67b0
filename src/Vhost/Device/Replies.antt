-- ===== src/Vhost/Device/Replies.antt =====
-- What the device answers and what it changes (oathgate-vhost/src/device.rs).
use oathgate.Common.{
  ℕ, ◌≡◌, refl, arith, true, false, List, [], ◌∷◌, ◌++◌, length, get_elem?, set, Option, none, some,
  ok,
}
use oathgate.Common.Bytes.{to_le, le_at, from_le-to_le, IsU32, IsU64}
use oathgate.Vhost.Types.{
  ControlMessage, VHostHeader, parse_header, payload, read_u64, read_state, VRingState,
  descriptor_bytes,
}
use oathgate.Vhost.Queue.{VirtioQueue, VirtQueue, set_enabled, set_not_ready, clear_fds}
use oathgate.Vhost.Device.Monad.{
  VirtioDevice, Syscall, message, send_response, syscall, on_found, on_virtqueue, update_virtqueue,
}
use oathgate.Vhost.Device.Messages.{
  set_status, get_status, set_vring_enable, get_vring_base, stop_queue, deregister_kick,
}

module _ (vq : VirtioQueue) (os : Syscall → Option ℕ) where
  -- The header of a message is read back: its number and its flags, of 32 bits, and the length of
  -- what follows.
  pub parse_header-message :
      (id flags : ℕ) (body : List ℕ) (fds : List ControlMessage)
      → IsU32 id
      → IsU32 flags
      → IsU32 (length body)
      → parse_header (message vq os id flags body) fds
        ≡ ok (record { ty = id; flags = flags; sz = length body; ancillary = fds; payload = none })
  unfolding parse_header le_at to_le
  parse_header-message id flags body fds hi hf hb =
      ground
        (arith, from_le-to_le 4 id hi, from_le-to_le 4 flags hf, from_le-to_le 4 (length body) hb)

  read_u64-to_le : (n : ℕ) → IsU64 n → read_u64 (to_le 8 n) ≡ ok n
  unfolding read_u64 le_at to_le
  read_u64-to_le n h = ground (arith, from_le-to_le 8 n h)

  -- A status of 64 bits that the front end sets is accepted, and it is the one that the device
  -- then sends when it is asked.
  pub get_status-set_status :
      (d : VirtioDevice vq) (set_hdr get_hdr : VHostHeader) (status : ℕ)
      → IsU64 status
      → set_hdr.payload ≡ some (to_le 8 status)
      → (d' : VirtioDevice vq) × (set_status vq os set_hdr d ≡ (d', ok tt))
        × ((get_status vq os get_hdr d').0.calls
            ≡ Syscall.sendmsg (message vq os get_hdr.ty 5 (to_le 8 status)) ∷ d.calls)
  unfolding set_status get_status payload send_response syscall
  get_status-set_status d set_hdr get_hdr status h p =
      (record d { status = status }, ground (arith, read_u64-to_le status h), refl)

  -- Stopping a queue that is there and has a kick descriptor, which the system lets go: the queue
  -- keeps no descriptor, its ring is not ready, the kick descriptor is deregistered, and the
  -- answer carries the queue's number and a zero in place of its next index.
  pub get_vring_base_stops :
      (d : VirtioDevice vq) (hdr : VHostHeader) (state : VRingState) (q : VirtQueue vq) (kick : ℕ)
      → payload read_state hdr ≡ ok state
      → get_elem? d.queues state.index ≡ some q
      → q.kick_fd ≡ some kick
      → os (Syscall.deregister kick) ≡ none
      → ((get_vring_base vq os hdr d).0.queues
          ≡ set d.queues state.index (record q {
            queue = vq.set_ready false q.queue;
            kick_fd = none;
            call_fd = none;
            err_fd = none;
          }))
        × ((get_vring_base vq os hdr d).0.calls
            ≡ Syscall.sendmsg (message vq os hdr.ty 5 (to_le 4 state.index ++ 0 ∷ 0 ∷ 0 ∷ 0 ∷ []))
              ∷ Syscall.deregister kick
              ∷ d.calls)
  unfolding get_vring_base on_virtqueue on_found stop_queue clear_fds set_not_ready deregister_kick
      send_response syscall descriptor_bytes
  get_vring_base_stops d hdr state q kick hp hq hk ho = (ground arith, ground arith)

  -- A queue that is there is enabled whatever number the message carries, also if it asks for the
  -- queue to be disabled.
  pub set_vring_enable_enables :
      (d : VirtioDevice vq) (hdr : VHostHeader) (state : VRingState) (q : VirtQueue vq)
      → payload read_state hdr ≡ ok state
      → get_elem? d.queues state.index ≡ some q
      → set_vring_enable vq os hdr d
        ≡ (record d { queues = set d.queues state.index (record q { enabled = true }) }, ok tt)
  unfolding set_vring_enable update_virtqueue on_virtqueue on_found set_enabled
  set_vring_enable_enables d hdr state q hp hq = ground arith
