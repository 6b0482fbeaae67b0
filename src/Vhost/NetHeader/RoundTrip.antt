-- ===== src/Vhost/NetHeader/RoundTrip.antt =====
-- Writing a virtio header and reading it back.
use oathgate.Common.{ℕ, ◌≡◌, arith, List, ◌++◌, ok}
use oathgate.Common.Bytes.{IsU16, from_le-to_le}
use oathgate.Vhost.NetHeader.{
  VirtioNetHeader, known_bits, header_flag_bits, gso_bits, extract, as_bytes, read_header,
}

-- Flags that have names, and fields of 16 bits.
pub record IsNetHeader (h : VirtioNetHeader) : Type 0 where
  pub flags_known : known_bits header_flag_bits h.flags ≡ h.flags
  pub gso_known : known_bits gso_bits h.gso_type ≡ h.gso_type
  pub hdr_len-IsU16 : IsU16 h.hdr_len
  pub gso_size-IsU16 : IsU16 h.gso_size
  pub csum_start-IsU16 : IsU16 h.csum_start
  pub csum_offset-IsU16 : IsU16 h.csum_offset
  pub num_buffers-IsU16 : IsU16 h.num_buffers

-- A header whose flags have names and whose fields have 16 bits is read back from the bytes
-- written, and the packet behind it is left as it is.
pub extract-as_bytes :
    (h : VirtioNetHeader) (pkt : List ℕ) → IsNetHeader h → extract (as_bytes h ++ pkt) ≡ ok (h, pkt)
unfolding extract read_header as_bytes
extract-as_bytes h pkt v = ground (
  arith,
  v.flags_known,
  v.gso_known,
  from_le-to_le 2 h.hdr_len v.hdr_len-IsU16,
  from_le-to_le 2 h.gso_size v.gso_size-IsU16,
  from_le-to_le 2 h.csum_start v.csum_start-IsU16,
  from_le-to_le 2 h.csum_offset v.csum_offset-IsU16,
  from_le-to_le 2 h.num_buffers v.num_buffers-IsU16,
)
