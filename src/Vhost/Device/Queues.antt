-- ===== src/Vhost/Device/Queues.antt =====
-- The queues of a device: no request adds or removes one (oathgate-vhost/src/device.rs, `parse_msg`).
use oathgate.Common.{
  ℕ, zero, suc, ◌≡◌, refl, ap, ◌∙◌, arith, Bool, true, false, List, [], ◌∷◌, map, length, get_elem?,
  set, Option, none, some, Outcome, ok, err, panic, if◌then◌else◌, ◌==◌,
}
use oathgate.Vhost.Error.{Error}
use oathgate.Vhost.Types.{VHostHeader, MemoryRegionDescription}
use oathgate.Vhost.Queue.{VirtioQueue, VirtQueue}
use oathgate.Vhost.Device.Monad.{
  VirtioDevice, Syscall, Act, ◌>>=◌, continue, send_response, send_msg, syscall, on_found,
  on_virtqueue, update_virtqueue,
}
use oathgate.Vhost.Device.Messages.{
  Handler, get_features, set_features, get_protocol_features, set_protocol_features, get_queue_num,
  set_backend_req_fd, get_max_mem_slots, set_vring_enable, set_owner, set_vring_call, set_vring_err,
  set_status, get_status, set_vring_num, guest_address, require_mappings, set_vring_addr,
  set_vring_base, deregister_kick, get_vring_base, set_vring_kick, map_region, map_regions,
  set_mem_table, add_mem_reg,
}
use oathgate.Vhost.Device.Messages.Dispatch.{ignore, handler_of, parse_msg}

pub length-set : {A : Type 0} (xs : List A) (i : ℕ) (v : A) → length (set xs i v) ≡ length xs
length-set [] i v = refl
length-set (x ∷ xs) zero v = refl
length-set (x ∷ xs) (suc i) v = ap suc (length-set xs i v)

length-map : {A B : Type 0} (f : A → B) (xs : List A) → length (map f xs) ≡ length xs
length-map f [] = refl
length-map f (x ∷ xs) = ap suc (length-map f xs)

module _ (vq : VirtioQueue) (os : Syscall → Option ℕ) where
  -- An action that leaves as many queues as there were, also when it fails.
  abbrev pub Keeps : {A : Type 0} → Act (VirtioDevice vq) A → Type 0
  Keeps m = (d : VirtioDevice vq) → length (m d).0.queues ≡ length d.queues

  continue-Keeps :
      {A B : Type 0} (r : VirtioDevice vq × Outcome Error A) (f : A → Act (VirtioDevice vq) B)
      → ((a : A) → Keeps (f a))
      → length (continue r f).0.queues ≡ length r.0.queues
  continue-Keeps (d, ok a) f h = h a d
  continue-Keeps (d, err e) f h = refl
  continue-Keeps (d, panic) f h = refl

  bind-Keeps :
      {A B : Type 0} (m : Act (VirtioDevice vq) A) (f : A → Act (VirtioDevice vq) B)
      → Keeps m
      → ((a : A) → Keeps (f a))
      → Keeps (m >>= f)
  bind-Keeps m f hm hf d = continue-Keeps (m d) f hf ∙ hm d

  syscall-Keeps : (c : Syscall) → Keeps (syscall vq os c)
  unfolding syscall
  syscall-Keeps c d = refl

  send_response-Keeps : (id : ℕ) (body : List ℕ) → Keeps (send_response vq os id body)
  unfolding send_response syscall
  send_response-Keeps id body d = refl

  send_msg-Keeps : (id : ℕ) (body : List ℕ) → Keeps (send_msg vq os id body)
  unfolding send_msg syscall
  send_msg-Keeps id body d = ground arith

  on_found-Keeps :
      {A : Type 0} (idx : ℕ) (f : VirtQueue vq → VirtQueue vq × A) (d : VirtioDevice vq)
      (q : Option (VirtQueue vq))
      → length (on_found vq idx f d q).0.queues ≡ length d.queues
  unfolding on_found
  on_found-Keeps idx f d none = refl
  on_found-Keeps idx f d (some q) = length-set d.queues idx (f q).0

  on_virtqueue-Keeps :
      {A : Type 0} (idx : ℕ) (f : VirtQueue vq → VirtQueue vq × A) → Keeps (on_virtqueue vq idx f)
  unfolding on_virtqueue
  on_virtqueue-Keeps idx f d = on_found-Keeps idx f d (get_elem? d.queues idx)

  update_virtqueue-Keeps :
      (idx : ℕ) (f : VirtQueue vq → VirtQueue vq) → Keeps (update_virtqueue vq idx f)
  unfolding update_virtqueue
  update_virtqueue-Keeps idx f = on_virtqueue-Keeps idx (λ q. (f q, tt))

  map_region-Keeps : (r : MemoryRegionDescription) (fd : ℕ) → Keeps (map_region vq os r fd)
  unfolding map_region syscall
  map_region-Keeps r fd d = ground arith

  map_regions-Keeps :
      (rs : List MemoryRegionDescription) (fds : List ℕ) → Keeps (map_regions vq os rs fds)
  unfolding map_regions
  map_regions-Keeps (r ∷ rs) (fd ∷ fds) d =
      bind-Keeps (map_region vq os r fd) _ (map_region-Keeps r fd)
        (λ gm. bind-Keeps (map_regions vq os rs fds) _ (map_regions-Keeps rs fds) (λ gms d. refl)) d
  map_regions-Keeps [] fds d = refl
  map_regions-Keeps (r ∷ rs) [] d = refl

  set_vring_addr-Keeps : (hdr : VHostHeader) → Keeps (set_vring_addr vq os hdr)
  unfolding set_vring_addr guest_address require_mappings
  set_vring_addr-Keeps hdr d = grind (arith, update_virtqueue-Keeps)

  get_vring_base-Keeps : (hdr : VHostHeader) → Keeps (get_vring_base vq os hdr)
  unfolding get_vring_base deregister_kick
  get_vring_base-Keeps hdr d = grind (arith, on_virtqueue-Keeps, syscall-Keeps, send_response-Keeps)

  set_mem_table-Keeps : (hdr : VHostHeader) → Keeps (set_mem_table vq os hdr)
  unfolding set_mem_table
  set_mem_table-Keeps hdr d = grind (arith, map_regions-Keeps, send_response-Keeps, length-map)

  queue_request-Keeps :
      (hdr : VHostHeader)
      → Keeps (set_vring_enable vq os hdr)
        × Keeps (set_vring_call vq os hdr)
        × Keeps (set_vring_err vq os hdr)
        × Keeps (set_vring_num vq os hdr)
        × Keeps (set_vring_base vq os hdr)
        × Keeps (set_vring_kick vq os hdr)
  unfolding set_vring_enable set_vring_call set_vring_err set_vring_num set_vring_base
      set_vring_kick
  queue_request-Keeps hdr = (
    λ d. grind (arith, update_virtqueue-Keeps),
    λ d. grind (arith, update_virtqueue-Keeps),
    λ d. grind (arith, update_virtqueue-Keeps),
    λ d. grind (arith, update_virtqueue-Keeps),
    λ d. grind (arith, update_virtqueue-Keeps),
    λ d. grind (arith, update_virtqueue-Keeps, syscall-Keeps),
  )

  device_request-Keeps :
      (hdr : VHostHeader)
      → Keeps (get_features vq os hdr)
        × Keeps (set_features vq os hdr)
        × Keeps (get_protocol_features vq os hdr)
        × Keeps (set_protocol_features vq os hdr)
        × Keeps (get_queue_num vq os hdr)
        × Keeps (set_backend_req_fd vq os hdr)
        × Keeps (get_max_mem_slots vq os hdr)
        × Keeps (set_owner vq os hdr)
        × Keeps (set_status vq os hdr)
        × Keeps (get_status vq os hdr)
        × Keeps (add_mem_reg vq os hdr)
  unfolding get_features set_features get_protocol_features set_protocol_features get_queue_num
      set_backend_req_fd get_max_mem_slots set_owner set_status get_status add_mem_reg
  device_request-Keeps hdr = (
    λ d. grind (arith, send_response-Keeps),
    λ d. grind arith,
    λ d. grind (arith, send_response-Keeps),
    λ d. grind arith,
    λ d. grind (arith, send_response-Keeps),
    λ d. grind (arith, send_response-Keeps),
    λ d. grind (arith, send_response-Keeps),
    λ d. send_msg-Keeps 2 [] d,
    λ d. grind arith,
    λ d. grind (arith, send_response-Keeps),
    λ d. grind arith,
  )

  -- A handler that keeps the number of queues, whatever the header.
  record KeepsQueues (h : Handler vq os) : Type 0 where
    kept : (hdr : VHostHeader) → Keeps (h hdr)

  if-KeepsQueues :
      (b : Bool) (f g : Handler vq os)
      → ((hdr : VHostHeader) → Keeps (f hdr))
      → KeepsQueues g
      → KeepsQueues (if b then f else g)
  if-KeepsQueues true f g hf hg = record { kept = hf }
  if-KeepsQueues false f g hf hg = hg

  handler_of-KeepsQueues : (ty : ℕ) → KeepsQueues (handler_of vq os ty)
  unfolding handler_of ignore
  handler_of-KeepsQueues ty =
      if-KeepsQueues (ty == 1) (get_features vq os) _ (λ hdr. (device_request-Keeps hdr).0)
        (if-KeepsQueues (ty == 2) (set_features vq os) _ (λ hdr. (device_request-Keeps hdr).1)
          (if-KeepsQueues (ty == 3) (set_owner vq os) _ (λ hdr. (device_request-Keeps hdr).7)
            (if-KeepsQueues (ty == 5) (set_mem_table vq os) _ set_mem_table-Keeps (
              if-KeepsQueues (ty == 8) (set_vring_num vq os) _ (λ hdr. (queue_request-Keeps hdr).3)
                (if-KeepsQueues (ty == 9) (set_vring_addr vq os) _ set_vring_addr-Keeps (
                  if-KeepsQueues (ty == 10) (set_vring_base vq os) _
                    (λ hdr. (queue_request-Keeps hdr).4)
                    (if-KeepsQueues (ty == 11) (get_vring_base vq os) _ get_vring_base-Keeps (
                      if-KeepsQueues (ty == 12) (set_vring_kick vq os) _
                        (λ hdr. (queue_request-Keeps hdr).5)
                        (if-KeepsQueues (ty == 13) (set_vring_call vq os) _
                          (λ hdr. (queue_request-Keeps hdr).1)
                          (if-KeepsQueues (ty == 14) (set_vring_err vq os) _
                            (λ hdr. (queue_request-Keeps hdr).2)
                            (if-KeepsQueues (ty == 15) (get_protocol_features vq os) _
                              (λ hdr. (device_request-Keeps hdr).2)
                              (if-KeepsQueues (ty == 16) (set_protocol_features vq os) _
                                (λ hdr. (device_request-Keeps hdr).3)
                                (if-KeepsQueues (ty == 17) (get_queue_num vq os) _
                                  (λ hdr. (device_request-Keeps hdr).4)
                                  (if-KeepsQueues (ty == 18) (set_vring_enable vq os) _
                                    (λ hdr. (queue_request-Keeps hdr).0)
                                    (if-KeepsQueues (ty == 21) (set_backend_req_fd vq os) _
                                      (λ hdr. (device_request-Keeps hdr).5)
                                      (if-KeepsQueues (ty == 36) (get_max_mem_slots vq os) _
                                        (λ hdr. (device_request-Keeps hdr).6)
                                        (if-KeepsQueues (ty == 37) (add_mem_reg vq os) _
                                          (λ hdr. (device_request-Keeps hdr).10)
                                          (if-KeepsQueues (ty == 39) (set_status vq os) _
                                            (λ hdr. (device_request-Keeps hdr).8)
                                            (if-KeepsQueues (ty == 40) (get_status vq os) _
                                              (λ hdr. (device_request-Keeps hdr).9)
                                              (record { kept = λ hdr d. refl }))))))))))))))))))))

  -- Every request, whatever its number and its payload and whatever the system answers, leaves the
  -- device with as many queues as it had, whether it succeeds, fails or panics.
  pub parse_msg-Keeps :
      (hdr : VHostHeader) (d : VirtioDevice vq)
      → length (parse_msg vq os hdr d).0.queues ≡ length d.queues
  unfolding parse_msg
  parse_msg-Keeps hdr = KeepsQueues.kept (handler_of-KeepsQueues hdr.ty) hdr
