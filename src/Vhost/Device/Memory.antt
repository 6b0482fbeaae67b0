-- ===== src/Vhost/Device/Memory.antt =====
-- The memory of the guest, as the device learns it (oathgate-vhost/src/device.rs, `SET_MEM_TABLE` and
-- `SET_VRING_ADDR`).
use oathgate.Common.{
  ℕ, ◌≡◌, ◌≢◌, refl, sym, arith, List, [], ◌∷◌, ◌++◌, map, length, get_elem?, set, Option, none,
  some, ok, err,
}
use mathlib.Core.List.{append_assoc, append-nil}
use oathgate.Vhost.Error.{memory, no_mapped_memory}
use oathgate.Vhost.Mapping.{GuestMapping, compute_guest_address}
use oathgate.Vhost.Mapping
use oathgate.Vhost.Types.{
  VHostHeader, VRingAddr, MemoryRegionDescription, payload, read_addr, read_regions, extract_fds,
}
use oathgate.Vhost.Queue.{VirtioQueue, VirtQueue, set_memory, set_queue_addresses}
use oathgate.Vhost.Device.Monad.{
  VirtioDevice, Syscall, update_virtqueue, on_virtqueue, on_found, send_response, syscall,
}
use oathgate.Vhost.Device.Messages.{
  guest_address, require_mappings, set_vring_addr, non_zero, map_region, map_regions, set_mem_table,
}

-- The mapping that a region is entered as.
abbrev pub mapping_of : MemoryRegionDescription → GuestMapping
mapping_of r = Mapping.new r.user_address r.guest_address r.size

module _ (vq : VirtioQueue) (os : Syscall → Option ℕ) where
  -- Ring addresses are refused, and the device stays as it is, until memory has been mapped.
  pub set_vring_addr_unmapped :
      (d : VirtioDevice vq) (hdr : VHostHeader)
      → d.mappings ≡ []
      → set_vring_addr vq os hdr d ≡ (d, err (memory no_mapped_memory))
  unfolding set_vring_addr require_mappings
  set_vring_addr_unmapped d hdr h = ground arith

  -- For a queue that is there and three ring addresses that the device's mappings translate, the
  -- queue is given the translated addresses, each as the ring that it is for.
  pub set_vring_addr_translates :
      (d : VirtioDevice vq) (hdr : VHostHeader) (addr : VRingAddr) (q : VirtQueue vq)
      (desc avail used : ℕ)
      → d.mappings ≢ []
      → payload read_addr hdr ≡ ok addr
      → compute_guest_address d.mappings addr.desc_user_addr ≡ ok desc
      → compute_guest_address d.mappings addr.avail_user_addr ≡ ok avail
      → compute_guest_address d.mappings addr.used_user_addr ≡ ok used
      → get_elem? d.queues addr.index ≡ some q
      → set_vring_addr vq os hdr d ≡ (
        record d { queues = set d.queues addr.index (set_queue_addresses vq desc avail used q) },
        ok tt,
      )
  unfolding set_vring_addr require_mappings guest_address update_virtqueue on_virtqueue on_found
  set_vring_addr_translates d hdr addr q desc avail used hm hp hd ha hu hq = ground arith

  -- A region that the system maps and the memory library takes.
  pub data IsMapped : List MemoryRegionDescription → List ℕ → List vq.Region → Type 0 where
    mapped_none : IsMapped [] [] []
    mapped_one :
        (r : MemoryRegionDescription) (fd : ℕ) (mmr : vq.MmapRegion) (gm : vq.Region)
        (rs : List MemoryRegionDescription) (fds : List ℕ) (gms : List vq.Region)
        → r.user_address ≢ 0
        → r.size ≢ 0
        → os (Syscall.mmap r fd) ≡ none
        → vq.build_raw (vq.mapped_at r.user_address r.size fd r.mmap_offset) r.size ≡ some mmr
        → vq.new_region mmr r.guest_address ≡ some gm
        → IsMapped rs fds gms
        → IsMapped (r ∷ rs) (fd ∷ fds) (gm ∷ gms)

  map_region_mapped :
      (d : VirtioDevice vq) (r : MemoryRegionDescription) (fd : ℕ) (mmr : vq.MmapRegion)
      (gm : vq.Region)
      → r.user_address ≢ 0
      → r.size ≢ 0
      → os (Syscall.mmap r fd) ≡ none
      → vq.build_raw (vq.mapped_at r.user_address r.size fd r.mmap_offset) r.size ≡ some mmr
      → vq.new_region mmr r.guest_address ≡ some gm
      → map_region vq os r fd d ≡ (
        record d {
          calls = Syscall.mmap r fd ∷ d.calls;
          mappings = d.mappings ++ mapping_of r ∷ [];
        },
        ok gm,
      )
  unfolding map_region non_zero syscall
  map_region_mapped d r fd mmr gm hu hs ho hb hn = ground arith

  -- The regions' mappings follow those that the device had, in the regions' order, and the queues
  -- stay as they are.
  map_regions_mapped :
      (d : VirtioDevice vq) (rs : List MemoryRegionDescription) (fds : List ℕ)
      (gms : List vq.Region)
      → IsMapped rs fds gms
      → ((map_regions vq os rs fds d).1 ≡ ok gms)
        × ((map_regions vq os rs fds d).0.mappings ≡ d.mappings ++ map mapping_of rs)
        × ((map_regions vq os rs fds d).0.queues ≡ d.queues)
  unfolding map_regions
  map_regions_mapped d [] [] [] mapped_none = (refl, sym (append-nil d.mappings), refl)
  map_regions_mapped d _ _ _ (mapped_one r fd mmr gm rs fds gms hu hs ho hb hn rest) =
      let d' : VirtioDevice vq = record d {
        calls = Syscall.mmap r fd ∷ d.calls;
        mappings = d.mappings ++ mapping_of r ∷ [];
      } in
      let (r1, r2, r3) = map_regions_mapped d' rs fds gms rest in
      let e = append_assoc d.mappings (mapping_of r ∷ []) (map mapping_of rs) in
      rw (map_region_mapped d r fd mmr gm hu hs ho hb hn) (ground arith, ground arith, ground arith)

  -- A queue that has the memory, and is otherwise as it was.
  abbrev pub with_memory : vq.Memory → VirtQueue vq → VirtQueue vq
  with_memory mem q = record q { mem = some mem }

  -- For a memory table with as many descriptors as regions, all of which are mapped and make up a
  -- memory: every queue has the memory and is otherwise as it was, and the regions' mappings are entered behind those that
  -- the device already had.
  pub set_mem_table_maps :
      (d : VirtioDevice vq) (hdr : VHostHeader) (rs : List MemoryRegionDescription) (fds : List ℕ)
      (gms : List vq.Region) (mem : vq.Memory)
      → payload read_regions hdr ≡ ok rs
      → (extract_fds hdr).1 ≡ ok fds
      → length rs ≡ length fds
      → IsMapped rs fds gms
      → vq.from_regions gms ≡ some mem
      → ((set_mem_table vq os hdr d).0.mappings ≡ d.mappings ++ map mapping_of rs)
        × ((set_mem_table vq os hdr d).0.queues ≡ map (with_memory mem) d.queues)
  unfolding set_mem_table send_response syscall set_memory
  set_mem_table_maps d hdr rs fds gms mem hp hf hl hm hg =
      let (e1, e2, e3) = map_regions_mapped d rs fds gms hm in (ground arith, ground arith)
