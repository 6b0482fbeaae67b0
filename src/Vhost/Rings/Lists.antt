-- ===== src/Vhost/Rings/Lists.antt =====
-- Rings that are lists of chains, for which the laws of oathgate-vhost/src/queue.rs's rings hold. A
-- chain without room has no writer, and the index of a chain that is given back is below the size.
use oathgate.Common.{
  ℕ, ◌-◌, ◌≤◌, ◌<◌, ◌≡◌, refl, ap, arith, List, [], ◌∷◌, length, take, drop, ◌++◌, ok, leb, ltb,
  if◌then◌else◌, Option, none, some,
}
use oathgate.Common.Bytes.{le_at}
use oathgate.Vhost.NetHeader.{VirtioNetHeader, extract, read_header, known_bits}
use oathgate.Vhost.Queue.{VirtioQueue}
use oathgate.Vhost.Rings.{Rings}
use oathgate.Vhost.Rings.Transmit.{IsReading}
use oathgate.Vhost.Rings.Receive.{IsDelivering}

-- A chain: its index, the bytes it holds, and the room it has.
pub record Held : Type 0 where
  pub head : ℕ
  pub bytes : List ℕ
  pub room : ℕ

abbrev pub lists : VirtioQueue
lists = record {
  Queue = List Held;
  Memory = Unit {0};
  Region = Unit {0};
  new_queue = λ size. some [];
  set_size = λ size q. q;
  set_ready = λ ready q. q;
  set_desc_table_address = λ low high q. q;
  set_avail_ring_address = λ low high q. q;
  set_used_ring_address = λ low high q. q;
  set_next_avail = λ idx q. q;
  next_avail = λ q. 0;
  MmapRegion = Unit {0};
  mapped_at = λ hint size fd offset. hint;
  build_raw = λ ptr size. some tt;
  new_region = λ mmr guest. some tt;
  from_regions = λ regions. some tt;
}

abbrev pub pop : List Held → List Held × Option Held
pop [] = ([], none)
pop (c ∷ cs) = (cs, some c)

abbrev pub tail : List Held → List Held
tail [] = []
tail (c ∷ cs) = cs

abbrev pub size : ℕ
size = 256

abbrev pub write_within : List ℕ → ℕ → Option ℕ
write_within bytes n = if leb (length bytes) n then some (n - length bytes) else none

abbrev pub list_rings : Rings lists
list_rings = record {
  Chain = Held;
  Reader = List ℕ;
  Writer = ℕ;
  iter = λ mem q. some ([], q);
  pop_descriptor_chain = λ mem q. pop q;
  head_index = λ c. c.head;
  reader = λ mem c. some c.bytes;
  available_bytes = length;
  read = λ n r. some (drop n r, take n r);
  writer = λ mem c. if ltb 0 c.room then some c.room else none;
  write_all = write_within;
  add_used = λ mem head len q. if ltb head size then some q else none;
}

abbrev pub list_rings-IsReading : IsReading lists list_rings
list_rings-IsReading = record {
  bytes = λ r. r;
  after = drop;
  IsReadable = λ r. Unit {0};
  read_lem = λ n r can. refl;
  after-IsReadable = λ n r can. tt;
  bytes-after = λ n r. refl;
  available_lem = λ r. refl;
}

pub pop_empty : (q : List Held) → q ≡ [] → pop q ≡ (q, none)
pop_empty q e = ground arith

pub pop_first : (q : List Held) (c : Held) (cs : List Held) → q ≡ c ∷ cs → pop q ≡ (tail q, some c)
pop_first q c cs e = ground arith

pub write_within_fits :
    (bytes : List ℕ) (w : ℕ) → length bytes ≤ w → write_within bytes w ≡ some (w - length bytes)
write_within_fits bytes w h = ground arith

pub writer_room : (n : ℕ) → 0 < n → (if ltb 0 n then some n else none) ≡ some n
writer_room n h = ground arith

pub returned :
    (head : ℕ) (q : List Held) → head < size → (if ltb head size then some q else none) ≡ some q
returned head q h = ground arith

abbrev pub list_rings-IsDelivering : IsDelivering lists list_rings
list_rings-IsDelivering = record {
  waiting = λ mem q. q;
  next = λ mem q. tail q;
  room = λ w. w;
  start = λ mem c. c.room;
  written = λ n w. w - n;
  marked = λ head len q. q;
  IsValid = λ mem c. 0 < c.room;
  IsReady = λ mem k q. k ≡ size;
  pop_none = λ mem q e. pop_empty q e;
  pop_some = λ mem q c cs e. pop_first q c cs e;
  waiting-next = λ mem q c cs e. ap tail e;
  next-IsReady = λ mem k q ready. ready;
  writer_lem = λ mem c h. writer_room c.room h;
  write_all_lem = write_within_fits;
  room-written = λ n w. refl;
  add_used_lem = λ mem k head len q ready below. returned head q (omega (arith, ready, below));
  marked-IsReady = λ mem k head len q ready below. ready;
  waiting-marked = λ mem k head len q ready below. refl;
}

abbrev pub zeros : List ℕ
zeros = 0 ∷ 0 ∷ 0 ∷ 0 ∷ 0 ∷ 0 ∷ 0 ∷ 0 ∷ 0 ∷ 0 ∷ 0 ∷ 0 ∷ []

abbrev pub no_header : VirtioNetHeader
no_header = record {
  flags = 0;
  gso_type = 0;
  hdr_len = 0;
  gso_size = 0;
  csum_start = 0;
  csum_offset = 0;
  num_buffers = 0;
}

-- Twelve zeros are an empty header.
pub extract-zeros : (frame : List ℕ) → extract (zeros ++ frame) ≡ ok (no_header, frame)
unfolding extract read_header known_bits le_at
extract-zeros frame = ground arith
