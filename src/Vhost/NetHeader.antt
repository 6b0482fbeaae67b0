-- ===== src/Vhost/NetHeader.antt =====
-- oathgate-vhost/src/types.rs: the header that virtio puts in front of a frame. `from_bits` gives
-- nothing if a bit is set that no flag names.
pub mod RoundTrip
use oathgate.Common.{
  ℕ, ◌-◌, ◌^◌, List, [], ◌∷◌, ◌++◌, length, take, drop, ltb, ◌==◌, if◌then◌else◌, Option, none,
  some, Outcome, ok, err, panic, ◌>>=◌,
}
use Prim.Native.Nat.{bit_or}
use oathgate.Common.Bytes.{index, le_at, to_le}
use oathgate.Vhost.Error.{PayloadError, not_enough_data}

pub record VirtioNetHeader : Type 0 where
  pub flags : ℕ
  pub gso_type : ℕ
  pub hdr_len : ℕ
  pub gso_size : ℕ
  pub csum_start : ℕ
  pub csum_offset : ℕ
  pub num_buffers : ℕ

abbrev pub virtio_net_hdr_sz : ℕ
virtio_net_hdr_sz = 12

-- The bits of all flags of `VirtioNetHeaderFlags`, and of `VirtioNetGso`.
abbrev pub header_flag_bits : ℕ
header_flag_bits = 0x07

abbrev pub gso_bits : ℕ
gso_bits = 0x87

-- `from_bits(bits).unwrap_or_else(empty)`, by the mask of the known bits.
unfoldable pub known_bits : ℕ → ℕ → ℕ
known_bits mask bits = if bit_or bits mask == mask then bits else 0

unfoldable pub new : VirtioNetHeader
new = record {
  flags = 0;
  gso_type = 0;
  hdr_len = 0;
  gso_size = 0;
  csum_start = 0;
  csum_offset = 0;
  num_buffers = 1;
}

unfoldable pub read_header : List ℕ → Outcome PayloadError VirtioNetHeader
unfolding le_at known_bits
read_header hdr = do
  flags ← index hdr 0
  gso_type ← index hdr 1
  hdr_len ← le_at 2 hdr 2
  gso_size ← le_at 2 hdr 4
  csum_start ← le_at 2 hdr 6
  csum_offset ← le_at 2 hdr 8
  num_buffers ← le_at 2 hdr 10
  ok (record {
    flags = known_bits header_flag_bits flags;
    gso_type = known_bits gso_bits gso_type;
    hdr_len = hdr_len;
    gso_size = gso_size;
    csum_start = csum_start;
    csum_offset = csum_offset;
    num_buffers = num_buffers;
  })

-- The header, and the packet that follows it.
unfoldable pub extract : List ℕ → Outcome PayloadError (VirtioNetHeader × List ℕ)
unfolding read_header
extract pkt =
    if ltb (length pkt) virtio_net_hdr_sz
    then err (not_enough_data (length pkt) virtio_net_hdr_sz)
    else (do hdr ← read_header (take virtio_net_hdr_sz pkt); ok (hdr, drop virtio_net_hdr_sz pkt))

unfoldable pub as_bytes : VirtioNetHeader → List ℕ
unfolding to_le
as_bytes h =
    h.flags ∷ h.gso_type ∷ to_le 2 h.hdr_len
    ++ to_le 2 h.gso_size
    ++ to_le 2 h.csum_start
    ++ to_le 2 h.csum_offset
    ++ to_le 2 h.num_buffers
