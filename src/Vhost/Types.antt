-- ===== src/Vhost/Types.antt =====
-- oathgate-vhost/src/types.rs: the header of a vhost-user message and its payloads.
pub mod Payloads
use oathgate.Common.{
  ℕ, zero, suc, ◌+◌, ◌*◌, Bool, List, [], ◌∷◌, ◌++◌, length, ltb, ◌==◌, if◌then◌else◌, Option, none,
  some, Outcome, ok, err, panic, ◌>>=◌, ok_or,
}
use Prim.Native.Nat.{bit_and}
use oathgate.Common.Bytes.{slice, le_at, to_le}
use oathgate.Vhost.Error.{
  PayloadError, missing, not_enough_data, missing_control_data, no_file_descriptors_found,
  control_data_mismatch,
}

-- `ControlMessageOwned`: file descriptors, or any other message.
pub data ControlMessage : Type 0 where
  scm_rights : List ℕ → ControlMessage
  other_message : ControlMessage

pub record VHostHeader : Type 0 where
  pub ty : ℕ
  pub flags : ℕ
  pub sz : ℕ
  pub ancillary : List ControlMessage
  pub payload : Option (List ℕ)

pub record VRingState : Type 0 where
  pub index : ℕ
  pub num : ℕ

pub record VRingAddr : Type 0 where
  pub index : ℕ
  pub flags : ℕ
  pub desc_user_addr : ℕ
  pub used_user_addr : ℕ
  pub avail_user_addr : ℕ
  pub log_guest_addr : ℕ

pub record VRingDescriptor : Type 0 where
  pub index : ℕ
  pub avail : ℕ

pub record MemoryRegionDescription : Type 0 where
  pub guest_address : ℕ
  pub size : ℕ
  pub user_address : ℕ
  pub mmap_offset : ℕ

unfoldable pub parse_header : List ℕ → List ControlMessage → Outcome PayloadError VHostHeader
unfolding le_at
parse_header pkt ancillary = do
  ty ← le_at 4 pkt 0
  flags ← le_at 4 pkt 4
  sz ← le_at 4 pkt 8
  ok (record { ty = ty; flags = flags; sz = sz; ancillary = ancillary; payload = none })

unfoldable pub ack_required : VHostHeader → Bool
ack_required h = bit_and h.flags 8 == 8

-- `ancillary.pop_front()`: what is left, and the message.
unfoldable pub pop_control : VHostHeader → VHostHeader × Outcome PayloadError ControlMessage
pop_control h = elim h.ancillary [
  | [] ↦ (h, err missing_control_data)
  | msg ∷ rest ↦ (record h { ancillary = rest }, ok msg)
]

unfoldable pub first_fd : ControlMessage → Outcome PayloadError ℕ
first_fd (scm_rights []) = err no_file_descriptors_found
first_fd (scm_rights (fd ∷ fds)) = ok fd
first_fd other_message = err control_data_mismatch

unfoldable pub all_fds : ControlMessage → Outcome PayloadError (List ℕ)
all_fds (scm_rights fds) = ok fds
all_fds other_message = err control_data_mismatch

unfoldable pub extract_fd : VHostHeader → VHostHeader × Outcome PayloadError ℕ
unfolding pop_control first_fd
extract_fd h = let (h', msg) = pop_control h in (h', msg >>= first_fd)

unfoldable pub extract_fds : VHostHeader → VHostHeader × Outcome PayloadError (List ℕ)
unfolding pop_control all_fds
extract_fds h = let (h', msg) = pop_control h in (h', msg >>= all_fds)

unfoldable pub set_payload : VHostHeader → List ℕ → VHostHeader
set_payload h bytes = record h { payload = some bytes }

-- `payload::<T>()`, by the conversion of `T`.
unfoldable pub payload :
    {T : Type 0} → (List ℕ → Outcome PayloadError T) → VHostHeader → Outcome PayloadError T
payload try_from_payload h = do bytes ← ok_or h.payload missing; try_from_payload bytes

-- An early return unless there are `n` bytes.
abbrev pub at_least : {T : Type 0} → ℕ → List ℕ → Outcome PayloadError T → Outcome PayloadError T
at_least n pkt rest = if ltb (length pkt) n then err (not_enough_data (length pkt) n) else rest

unfoldable pub read_u64 : List ℕ → Outcome PayloadError ℕ
unfolding le_at
read_u64 pkt = at_least 8 pkt (le_at 8 pkt 0)

unfoldable pub read_state : List ℕ → Outcome PayloadError VRingState
unfolding le_at
read_state pkt =
    at_least 8 pkt
      (do index ← le_at 4 pkt 0; num ← le_at 4 pkt 4; ok (record { index = index; num = num }))

unfoldable pub read_descriptor : List ℕ → Outcome PayloadError VRingDescriptor
unfolding le_at
read_descriptor pkt =
    at_least 8 pkt (do
      index ← le_at 4 pkt 0
      avail ← le_at 4 pkt 4
      ok (record { index = index; avail = avail }))

unfoldable pub read_addr : List ℕ → Outcome PayloadError VRingAddr
unfolding le_at
read_addr pkt = at_least 40 pkt (do
  index ← le_at 4 pkt 0
  flags ← le_at 4 pkt 4
  desc_user_addr ← le_at 8 pkt 8
  used_user_addr ← le_at 8 pkt 16
  avail_user_addr ← le_at 8 pkt 24
  log_guest_addr ← le_at 8 pkt 32
  ok (record {
    index = index;
    flags = flags;
    desc_user_addr = desc_user_addr;
    used_user_addr = used_user_addr;
    avail_user_addr = avail_user_addr;
    log_guest_addr = log_guest_addr;
  }))

unfoldable pub read_region : List ℕ → Outcome PayloadError MemoryRegionDescription
unfolding le_at
read_region pkt = at_least 32 pkt (do
  guest_address ← le_at 8 pkt 0
  size ← le_at 8 pkt 8
  user_address ← le_at 8 pkt 16
  mmap_offset ← le_at 8 pkt 24
  ok (record {
    guest_address = guest_address;
    size = size;
    user_address = user_address;
    mmap_offset = mmap_offset;
  }))

-- `for i in i..num_regions`, by the rounds left.
unfoldable pub read_regions_from :
    ℕ → ℕ → List ℕ → Outcome PayloadError (List MemoryRegionDescription)
unfolding read_region
read_regions_from zero i pkt = ok []
read_regions_from (suc rounds) i pkt =
    let rest = read_regions_from rounds (i + 1) pkt in
    (do
      bytes ← slice pkt (i * 32 + 8) (i * 32 + 8 + 32)
      region ← read_region bytes
      regions ← rest
      ok (region ∷ regions))

unfoldable pub read_regions : List ℕ → Outcome PayloadError (List MemoryRegionDescription)
unfolding read_regions_from le_at
read_regions pkt = at_least 40 pkt (do
  num_regions ← le_at 4 pkt 0
  (if ltb (length pkt) (num_regions * 32 + 8)
      then err (not_enough_data (length pkt) 40)
      else read_regions_from num_regions 0 pkt))

-- `VRingDescriptor::as_vec`
unfoldable pub descriptor_bytes : VRingDescriptor → List ℕ
unfolding to_le
descriptor_bytes d = to_le 4 d.index ++ 0 ∷ 0 ∷ 0 ∷ 0 ∷ []
