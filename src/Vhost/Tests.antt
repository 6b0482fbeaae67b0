-- ===== src/Vhost/Tests.antt =====
-- The theorems about the vhost-user device at concrete messages.
use oathgate.Common.{
  ℕ, ◌+◌, ◌≡◌, ◌<◌, ◌⊎◌, inr, refl, arith, List, [], ◌∷◌, ◌++◌, map, length, All, false, Option,
  none, some, ok,
}
use oathgate.Common.Bytes.{to_le}
use oathgate.Common.HashMap
use oathgate.Vhost.Mapping.{GuestMapping, compute_guest_address}
use oathgate.Vhost.Mapping
use oathgate.Vhost.Mapping.Translation.{compute_guest_address_inside}
use oathgate.Vhost.NetHeader.{VirtioNetHeader, known_bits}
use oathgate.Vhost.NetHeader.RoundTrip.{IsNetHeader}
use oathgate.Vhost.Queue.{VirtioQueue, VirtQueue}
use oathgate.Vhost.Types.{
  ControlMessage, VHostHeader, VRingState, VRingAddr, MemoryRegionDescription, payload, read_state,
  read_addr, read_regions, extract_fds,
}
use oathgate.Vhost.Types.Payloads.{IsRegion, table_bytes, read_regions-bytes, read_addr-bytes}
use oathgate.Vhost.Device.{VirtioDevice, Syscall}
use oathgate.Vhost.Device.Memory.{
  mapping_of, IsMapped, mapped_none, mapped_one, with_memory, set_mem_table_maps,
}
use oathgate.Vhost.Device.Messages.{set_mem_table}

-- Queues that are numbers, and a memory that is the list of its regions' sizes.
abbrev queues : VirtioQueue
queues = record {
  Queue = ℕ;
  Memory = List ℕ;
  Region = ℕ;
  new_queue = some;
  set_size = λ size q. size;
  set_ready = λ ready q. q;
  set_desc_table_address = λ low high q. q;
  set_avail_ring_address = λ low high q. q;
  set_used_ring_address = λ low high q. q;
  set_next_avail = λ idx q. idx;
  next_avail = λ q. q;
  MmapRegion = ℕ;
  mapped_at = λ hint size fd offset. 65536;
  build_raw = λ ptr size. some size;
  new_region = λ size guest. some size;
  from_regions = some;
}

-- A system that grants every call.
abbrev granting : Syscall → Option ℕ
granting c = none

abbrev queue : VirtQueue queues
queue = record {
  enabled = false;
  queue = 256;
  mem = none;
  desc_table = 0;
  avail_ring = 0;
  used_ring = 0;
  err_fd = none;
  call_fd = some 8;
  kick_fd = some 9;
}

abbrev device : VirtioDevice queues
device = record {
  channel = none;
  queues = queue ∷ queue ∷ [];
  mappings = Mapping.new 4096 0 4096 ∷ [];
  status = 0;
  num_queues = 2;
  kick_fds = HashMap.empty;
  router_port = 0;
  calls = [];
}

abbrev request : ℕ → List ControlMessage → List ℕ → VHostHeader
request ty fds body = record {
  ty = ty;
  flags = 1;
  sz = length body;
  ancillary = fds;
  payload = some body;
}

abbrev state : VRingState
state = record { index = 1; num = 0 }

state-payload :
    (ty : ℕ) → payload read_state (request ty [] (1 ∷ 0 ∷ 0 ∷ 0 ∷ 0 ∷ 0 ∷ 0 ∷ 0 ∷ [])) ≡ ok state
unfolding payload read_state
state-payload ty = refl

abbrev region : MemoryRegionDescription
region = record { guest_address = 65536; size = 4096; user_address = 8192; mmap_offset = 0 }

region-IsRegion : IsRegion region
region-IsRegion = record {
  guest_address-IsU64 = omega arith;
  size-IsU64 = omega arith;
  user_address-IsU64 = omega arith;
  mmap_offset-IsU64 = omega arith;
}

abbrev table : VHostHeader
table = request 5 (ControlMessage.scm_rights (7 ∷ []) ∷ []) (table_bytes (region ∷ []))

table-payload : payload read_regions table ≡ ok (region ∷ [])
unfolding payload
table-payload = read_regions-bytes region [] (region-IsRegion, tt) (omega arith)

table-extract_fds : (extract_fds table).1 ≡ ok (7 ∷ [])
unfolding extract_fds
table-extract_fds = refl

region-IsMapped : IsMapped queues granting (region ∷ []) (7 ∷ []) (4096 ∷ [])
region-IsMapped =
    mapped_one region 7 4096 4096 [] [] [] (omega arith) (omega arith) refl refl refl mapped_none

set_mem_table_maps_example :
    ((set_mem_table queues granting table device).0.mappings
      ≡ Mapping.new 4096 0 4096 ∷ mapping_of region ∷ [])
    × ((set_mem_table queues granting table device).0.queues
        ≡ map (with_memory queues granting (4096 ∷ [])) device.queues)
set_mem_table_maps_example =
    set_mem_table_maps queues granting device table (region ∷ []) (7 ∷ []) (4096 ∷ []) (4096 ∷ [])
      table-payload table-extract_fds refl region-IsMapped refl

abbrev ring : VRingAddr
ring = record {
  index = 1;
  flags = 0;
  desc_user_addr = 4096;
  used_user_addr = 4200;
  avail_user_addr = 4300;
  log_guest_addr = 0;
}

abbrev ring_request : VHostHeader
ring_request =
    request 9 []
      (to_le 4 1 ++ to_le 4 0 ++ to_le 8 4096 ++ to_le 8 4200 ++ to_le 8 4300 ++ to_le 8 0 ++ [])

ring-payload : payload read_addr ring_request ≡ ok ring
unfolding payload
ring-payload =
    read_addr-bytes 1 0 4096 4200 4300 0 [] (omega arith) (omega arith) (omega arith) (omega arith)
      (omega arith) (omega arith)

translated :
    (offset : ℕ)
    → offset < 4096
    → compute_guest_address device.mappings (4096 + offset) ≡ ok (0 + offset)
translated offset h =
    compute_guest_address_inside [] [] 4096 0 4096 offset (omega arith) (omega arith) h tt

before_outside :
    All (λ (m : GuestMapping). (8292 < m.host_start) ⊎ (m.host_end < 8292)) device.mappings
unfolding Mapping.new
before_outside = (inr (omega arith), tt)

compute_guest_address_inside_example :
    compute_guest_address (device.mappings ++ Mapping.new 8193 65536 4096 ∷ []) 8292 ≡ ok 65635
compute_guest_address_inside_example =
    compute_guest_address_inside device.mappings [] 8193 65536 4096 99 (omega arith) (omega arith)
      (omega arith) before_outside

abbrev net_header : VirtioNetHeader
net_header = record {
  flags = 1;
  gso_type = 0x81;
  hdr_len = 54;
  gso_size = 1460;
  csum_start = 34;
  csum_offset = 16;
  num_buffers = 1;
}

net_header-IsNetHeader : IsNetHeader net_header
unfolding known_bits
net_header-IsNetHeader = record {
  flags_known = refl;
  gso_known = refl;
  hdr_len-IsU16 = omega arith;
  gso_size-IsU16 = omega arith;
  csum_start-IsU16 = omega arith;
  csum_offset-IsU16 = omega arith;
  num_buffers-IsU16 = omega arith;
}
