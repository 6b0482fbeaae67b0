-- ===== src/Vhost/Queue.antt =====
-- oathgate-vhost/src/queue.rs: a virtqueue. The crates virtio_queue and vm_memory, which walk the
-- rings in the guest's memory, are a parameter, `VirtioQueue`, with the address at which the system
-- puts what is mapped.
use oathgate.Common.{ℕ, ◌/◌, ◌%◌, ◌^◌, Bool, true, false, Option, none, some, List}

pub record VirtioQueue : Type 1 where
  pub Queue : Type 0
  pub Memory : Type 0
  pub MmapRegion : Type 0
  pub Region : Type 0
  pub new_queue : ℕ → Option Queue
  pub set_size : ℕ → Queue → Queue
  pub set_ready : Bool → Queue → Queue
  pub set_desc_table_address : ℕ → ℕ → Queue → Queue
  pub set_avail_ring_address : ℕ → ℕ → Queue → Queue
  pub set_used_ring_address : ℕ → ℕ → Queue → Queue
  pub set_next_avail : ℕ → Queue → Queue
  pub next_avail : Queue → ℕ
  -- what `mmap` returns where it succeeds, for the address asked for, which is only a hint, the size,
  -- the descriptor and the offset
  pub mapped_at : ℕ → ℕ → ℕ → ℕ → ℕ
  -- a mapping: the address that `mmap` returned, and the size
  pub build_raw : ℕ → ℕ → Option MmapRegion
  -- a region of the guest: the mapping and the guest's address
  pub new_region : MmapRegion → ℕ → Option Region
  pub from_regions : List Region → Option Memory

-- The high and the low half of an address: `(a >> 32) & 0xFFFF_FFFF` and `a & 0xFFFF_FFFF`.
abbrev pub high_half : ℕ → ℕ
high_half a = a / 2 ^ 32 % 2 ^ 32

abbrev pub low_half : ℕ → ℕ
low_half a = a % 2 ^ 32

module _ (vq : VirtioQueue) where
  open vq use {Queue, Memory}

  pub record VirtQueue : Type 0 where
    pub enabled : Bool
    pub queue : Queue
    pub mem : Option Memory
    pub desc_table : ℕ
    pub avail_ring : ℕ
    pub used_ring : ℕ
    pub err_fd : Option ℕ
    pub call_fd : Option ℕ
    pub kick_fd : Option ℕ

  unfoldable pub new_with : Queue → VirtQueue
  new_with queue = record {
    enabled = false;
    queue = queue;
    mem = none;
    desc_table = 0;
    avail_ring = 0;
    used_ring = 0;
    err_fd = none;
    call_fd = none;
    kick_fd = none;
  }

  unfoldable pub set_enabled : VirtQueue → VirtQueue
  set_enabled q = record q { enabled = true }

  unfoldable pub set_disabled : VirtQueue → VirtQueue
  set_disabled q = record q { enabled = false }

  unfoldable pub set_queue_size : ℕ → VirtQueue → VirtQueue
  set_queue_size size q = record q { queue = vq.set_size size q.queue }

  unfoldable pub set_not_ready : VirtQueue → VirtQueue
  set_not_ready q = record q { queue = vq.set_ready false q.queue }

  unfoldable pub set_queue_addresses : ℕ → ℕ → ℕ → VirtQueue → VirtQueue
  set_queue_addresses desc avail used q = record q {
    desc_table = desc;
    avail_ring = avail;
    used_ring = used;
    queue = vq.set_used_ring_address (low_half used) (high_half used) (
        vq.set_avail_ring_address (low_half avail) (high_half avail)
          (vq.set_desc_table_address (low_half desc) (high_half desc) q.queue));
  }

  unfoldable pub set_error_fd : ℕ → VirtQueue → VirtQueue
  set_error_fd fd q = record q { err_fd = some fd }

  unfoldable pub set_call_fd : ℕ → VirtQueue → VirtQueue
  set_call_fd fd q = record q { call_fd = some fd }

  unfoldable pub set_kick_fd : ℕ → VirtQueue → VirtQueue
  set_kick_fd fd q = record q { kick_fd = some fd; queue = vq.set_ready true q.queue }

  unfoldable pub set_memory : Memory → VirtQueue → VirtQueue
  set_memory mem q = record q { mem = some mem }

  unfoldable pub set_next_avail : ℕ → VirtQueue → VirtQueue
  set_next_avail idx q = record q { queue = vq.set_next_avail idx q.queue }

  unfoldable pub get_next_avail : VirtQueue → ℕ
  get_next_avail q = vq.next_avail q.queue

  -- The queue without its descriptors, and the kick descriptor that it had.
  unfoldable pub clear_fds : VirtQueue → VirtQueue × Option ℕ
  clear_fds q = (record q { kick_fd = none; call_fd = none; err_fd = none }, q.kick_fd)
