-- ===== src/Vhost/Device/Messages.antt =====
-- oathgate-vhost/src/device.rs, `parse_msg`: one handler for each request of the front end.
pub mod Dispatch
use Prim.Native.Nat.{bit_or}
use oathgate.Common.{
  ℕ, ◌+◌, ◌%◌, ◌^◌, Bool, true, false, List, [], ◌∷◌, ◌++◌, map, length, ltb, ◌==◌, if◌then◌else◌,
  Option, none, some, ℕ_discrete, Outcome, ok, err, panic, map_err, ok_or,
}
use oathgate.Common.Bytes.{to_le}
use oathgate.Common.HashMap
use oathgate.Vhost.Error.{
  Error, payload as payload_error, memory, no_mapped_memory, mmap_region, mmap, invalid_message,
}
use oathgate.Vhost.Mapping.{compute_guest_address}
use oathgate.Vhost.Mapping
use oathgate.Vhost.Queue.{
  VirtioQueue, VirtQueue, set_enabled, set_queue_size, set_not_ready, set_queue_addresses,
  set_error_fd, set_call_fd, set_kick_fd, set_memory, set_next_avail, get_next_avail, clear_fds,
}
use oathgate.Vhost.Types.{
  VHostHeader, MemoryRegionDescription, ack_required, extract_fd, extract_fds, payload, read_u64,
  read_state, read_descriptor, read_addr, read_regions, descriptor_bytes,
}
use oathgate.Vhost.Device.Monad.{
  KickFd, VirtioDevice, Syscall, Act, ◌>>=◌, ◌>>◌, lift, get, modify, on_virtqueue,
  update_virtqueue, syscall, send_msg, send_response,
}

-- `VirtioFeatures::RING_VERSION_1 | VirtioFeatures::PROTOCOL_FEATURES`, then the two features of the
-- network device.
abbrev pub virtio_features : ℕ
virtio_features = bit_or (bit_or (bit_or (2 ^ 32) (2 ^ 30)) 0x0020) 0x1_0000

abbrev pub protocol_features : ℕ
protocol_features = bit_or (bit_or (bit_or (bit_or 0x20 0x200) 0x2000) 0x8_0000) 0x1_0000

module _ (vq : VirtioQueue) (os : Syscall → Option ℕ) where
  abbrev pub Handler : Type 0
  Handler = VHostHeader → Act (VirtioDevice vq) (Unit {0})

  unfoldable pub get_features : Handler
  unfolding send_response
  get_features hdr = send_response vq os hdr.ty (to_le 8 virtio_features)

  unfoldable pub set_features : Handler
  set_features hdr = do features ← lift (map_err payload_error (payload read_u64 hdr)); lift (ok tt)

  unfoldable pub get_protocol_features : Handler
  unfolding send_response
  get_protocol_features hdr = send_response vq os hdr.ty (to_le 8 protocol_features)

  unfoldable pub set_protocol_features : Handler
  set_protocol_features hdr = do
    features ← lift (map_err payload_error (payload read_u64 hdr))
    lift (ok tt)

  unfoldable pub get_queue_num : Handler
  unfolding send_response
  get_queue_num hdr = do n ← get (λ d. d.num_queues); send_response vq os hdr.ty (to_le 8 n)

  unfoldable pub set_backend_req_fd : Handler
  unfolding send_response
  set_backend_req_fd hdr = do
    fd ← lift (map_err payload_error (extract_fd hdr).1)
    modify (λ d. record d { channel = some fd })
    (if ack_required hdr then send_response vq os hdr.ty (to_le 8 0) else lift (ok tt))

  unfoldable pub get_max_mem_slots : Handler
  unfolding send_response
  get_max_mem_slots hdr = send_response vq os hdr.ty (to_le 8 2)

  unfoldable pub set_vring_enable : Handler
  unfolding update_virtqueue
  set_vring_enable hdr = do
    state ← lift (map_err payload_error (payload read_state hdr))
    update_virtqueue vq state.index (set_enabled vq)

  unfoldable pub set_owner : Handler
  unfolding send_msg
  set_owner hdr = send_msg vq os 2 []

  unfoldable pub set_vring_call : Handler
  unfolding update_virtqueue
  set_vring_call hdr = do
    vring_idx ← lift (map_err payload_error (payload read_u64 hdr))
    fd ← lift (map_err payload_error (extract_fd hdr).1)
    update_virtqueue vq vring_idx (set_call_fd vq fd)

  unfoldable pub set_vring_err : Handler
  unfolding update_virtqueue
  set_vring_err hdr = do
    vring_idx ← lift (map_err payload_error (payload read_u64 hdr))
    fd ← lift (map_err payload_error (extract_fd hdr).1)
    update_virtqueue vq vring_idx (set_error_fd vq fd)

  unfoldable pub set_status : Handler
  set_status hdr = do
    status ← lift (map_err payload_error (payload read_u64 hdr))
    modify (λ d. record d { status = status })

  unfoldable pub get_status : Handler
  unfolding send_response
  get_status hdr = do status ← get (λ d. d.status); send_response vq os hdr.ty (to_le 8 status)

  unfoldable pub set_vring_num : Handler
  unfolding update_virtqueue
  set_vring_num hdr = do
    state ← lift (map_err payload_error (payload read_state hdr))
    update_virtqueue vq state.index (set_queue_size vq (state.num % 2 ^ 16))

  -- `self.compute_guest_address(vmm)?`
  unfoldable pub guest_address : ℕ → Act (VirtioDevice vq) ℕ
  guest_address vmm = do
    mappings ← get (λ d. d.mappings)
    lift (map_err memory (compute_guest_address mappings vmm))

  -- `if self.mappings.is_empty()`
  unfoldable pub require_mappings : Act (VirtioDevice vq) (Unit {0})
  require_mappings d = elim d.mappings [
    | [] ↦ (d, err (memory no_mapped_memory))
    | _ ∷ _ ↦ (d, ok tt)
  ]

  unfoldable pub set_vring_addr : Handler
  unfolding guest_address require_mappings update_virtqueue
  set_vring_addr hdr = do
    require_mappings
    addr ← lift (map_err payload_error (payload read_addr hdr))
    desc ← guest_address addr.desc_user_addr
    avail ← guest_address addr.avail_user_addr
    used ← guest_address addr.used_user_addr
    update_virtqueue vq addr.index (set_queue_addresses vq desc avail used)

  unfoldable pub set_vring_base : Handler
  unfolding update_virtqueue
  set_vring_base hdr = do
    base ← lift (map_err payload_error (payload read_descriptor hdr))
    update_virtqueue vq base.index (set_next_avail vq (base.avail % 2 ^ 16))

  -- The queue is stopped: its kick descriptor and its next index.
  unfoldable pub stop_queue : VirtQueue vq → VirtQueue vq × (Option ℕ × ℕ)
  stop_queue q =
      let (q', kick) = clear_fds vq (set_not_ready vq q) in (q', (kick, get_next_avail vq q'))

  unfoldable pub deregister_kick : Option ℕ → Act (VirtioDevice vq) (Unit {0})
  unfolding syscall
  deregister_kick none = lift (ok tt)
  deregister_kick (some fd) = syscall vq os (Syscall.deregister fd)

  unfoldable pub get_vring_base : Handler
  unfolding on_virtqueue stop_queue deregister_kick send_response
  get_vring_base hdr = do
    state ← lift (map_err payload_error (payload read_state hdr))
    stopped ← on_virtqueue vq state.index stop_queue
    deregister_kick stopped.0
    send_response vq os hdr.ty
        (descriptor_bytes (record { index = state.index; avail = stopped.1 }))

  -- `match vring_idx & 1 == 0`
  unfoldable pub kick_of : ℕ → ℕ → KickFd
  kick_of fd vring_idx =
      if vring_idx % 2 == 0 then KickFd.rx fd vring_idx else KickFd.tx fd vring_idx

  unfoldable pub set_vring_kick : Handler
  unfolding update_virtqueue syscall kick_of
  set_vring_kick hdr = do
    vring_idx ← lift (map_err payload_error (payload read_u64 hdr))
    fd ← lift (map_err payload_error (extract_fd hdr).1)
    update_virtqueue vq vring_idx (set_kick_fd vq fd)
    syscall vq os (Syscall.register fd)
    modify (λ d. record d {
      kick_fds = HashMap.insert ℕ_discrete d.kick_fds fd (kick_of fd vring_idx);
    })

  -- `NonZeroUsize::try_from(n).unwrap()`
  unfoldable pub non_zero : ℕ → Outcome Error (Unit {0})
  non_zero n = if n == 0 then panic else ok tt

  -- One region: it is mapped, and its addresses are entered.
  unfoldable pub map_region : MemoryRegionDescription → ℕ → Act (VirtioDevice vq) vq.Region
  unfolding syscall non_zero
  map_region region fd = do
    lift (non_zero region.user_address)
    lift (non_zero region.size)
    syscall vq os (Syscall.mmap region fd)
    let ptr = vq.mapped_at region.user_address region.size fd region.mmap_offset
    mmr ← lift (ok_or (vq.build_raw ptr region.size) mmap_region)
    gm ← lift (ok_or (vq.new_region mmr region.guest_address) mmap)
    let mapping = Mapping.new region.user_address region.guest_address region.size
    modify (λ d. record d { mappings = d.mappings ++ mapping ∷ [] })
    lift (ok gm)

  -- The loop over the regions and their descriptors.
  unfoldable pub map_regions :
      List MemoryRegionDescription → List ℕ → Act (VirtioDevice vq) (List vq.Region)
  unfolding map_region
  map_regions (region ∷ regions) (fd ∷ fds) = do
    gm ← map_region region fd
    gms ← map_regions regions fds
    lift (ok (gm ∷ gms))
  map_regions _ _ = lift (ok [])

  unfoldable pub set_mem_table : Handler
  unfolding map_regions send_response
  set_mem_table hdr = do
    region_descs ← lift (map_err payload_error (payload read_regions hdr))
    files ← lift (map_err payload_error (extract_fds hdr).1)
    lift (if length region_descs == length files then ok tt else err invalid_message)
    regions ← map_regions region_descs files
    gmm ← lift (ok_or (vq.from_regions regions) mmap)
    modify (λ d. record d { queues = map (set_memory vq gmm) d.queues })
    (if ack_required hdr then send_response vq os hdr.ty [] else lift (ok tt))

  unfoldable pub add_mem_reg : Handler
  add_mem_reg hdr = do mem ← lift (map_err payload_error (payload read_addr hdr)); lift (ok tt)
