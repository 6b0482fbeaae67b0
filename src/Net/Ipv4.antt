-- ===== src/Net/Ipv4.antt =====
-- oathgate-net/src/ipv4.rs: the IPv4 header and packet. Numbers are those of the source's fields; an
-- address is its number below 2 ^ 32. The identification that the source draws at random is an
-- argument, `id`.
pub mod RoundTrip
use Prim.Native.Nat.{bit_and, bit_or}
use oathgate.Common.{
  ℕ, zero, suc, ◌+◌, ◌-◌, ◌*◌, ◌/◌, ◌%◌, ◌^◌, Bool, true, false, List, [], ◌∷◌, ◌++◌, length, take,
  drop, replicate, ltb, leb, ◌==◌, if◌then◌else◌, Outcome, ok, err, panic, ◌>>=◌, ◌>>◌, guard,
}
use oathgate.Common.Bytes.{
  index, slice, slice_from, be16_at, be32_at, be16_bytes, be32_bytes, copy_from_slice,
}
use oathgate.Net.Checksum.{checksum, ph_checksum}
use oathgate.Net.Error.{ProtocolError, not_enough_data}

abbrev pub net_protocol_icmp : ℕ
net_protocol_icmp = 1

abbrev pub net_protocol_tcp : ℕ
net_protocol_tcp = 6

abbrev pub net_protocol_udp : ℕ
net_protocol_udp = 17

pub record Ipv4Header : Type 0 where
  pub version : ℕ
  pub ihl : ℕ
  pub length : ℕ
  pub id : ℕ
  pub flags : ℕ
  pub frag_offset : ℕ
  pub ttl : ℕ
  pub protocol : ℕ
  pub checksum : ℕ
  pub src : ℕ
  pub dst : ℕ

pub record Ipv4Packet : Type 0 where
  pub header : Ipv4Header
  pub bytes : List ℕ

unfoldable pub new : ℕ → ℕ → ℕ → ℕ → ℕ → Ipv4Header
new id src dst protocol length = record {
  version = 4;
  ihl = 5;
  length = (length + 20) % 2 ^ 16;
  id = id;
  flags = 2;
  frag_offset = 0;
  ttl = 64;
  protocol = protocol;
  checksum = 0;
  src = src;
  dst = dst;
}

-- The fields of a header that is long enough, by the source's indices.
unfoldable pub read_fields : ℕ → List ℕ → Outcome ProtocolError Ipv4Header
read_fields ihl hdr = do
  b0 ← index hdr 0
  length ← be16_at hdr 2
  id ← be16_at hdr 4
  b6 ← index hdr 6
  frag ← be16_at hdr 6
  ttl ← index hdr 8
  protocol ← index hdr 9
  checksum ← be16_at hdr 10
  src ← be32_at hdr 12
  dst ← be32_at hdr 16
  ok (record {
    version = b0 / 2 ^ 4;
    ihl = ihl;
    length = length;
    id = id;
    flags = b6 / 2 ^ 5;
    frag_offset = bit_and frag (2 ^ 13 - 1) * 8 % 2 ^ 16;
    ttl = ttl;
    protocol = protocol;
    checksum = checksum;
    src = src;
    dst = dst;
  })

unfoldable pub extract_from_slice : List ℕ → Outcome ProtocolError Ipv4Header
unfolding read_fields
extract_from_slice [] = err (not_enough_data 0 20)
extract_from_slice (b0 ∷ rest) =
    let hdr : List ℕ = b0 ∷ rest in
    let ihl = bit_and b0 (2 ^ 4 - 1) in
    if ltb (length hdr) (ihl * 4)
    then err (not_enough_data (length hdr) (ihl * 4))
    else read_fields ihl hdr

-- The result, and what is left of the vector.
unfoldable pub extract : List ℕ → Outcome ProtocolError Ipv4Header × List ℕ
unfolding extract_from_slice
extract pkt =
    if ltb (length pkt) 20
    then (err (not_enough_data (length pkt) 20), pkt)
    else (extract_from_slice (take 20 pkt), drop 20 pkt)

unfoldable pub header_length : Ipv4Header → ℕ
header_length h = h.ihl * 4

unfoldable pub gen_reply : ℕ → Ipv4Header → List ℕ → Ipv4Header
unfolding new
gen_reply id h payload = new id h.dst h.src h.protocol (length payload % 2 ^ 16)

-- Everything but the checksum, which is cleared: the bytes 0 and 2 to 19 of the buffer.
unfoldable pub write_fields : Ipv4Header → List ℕ → Outcome ProtocolError (List ℕ)
write_fields h rpkt = do
  let flags_frag = bit_or (h.flags * 2 ^ 13 % 2 ^ 16) h.frag_offset
  rpkt ← copy_from_slice rpkt 0 1 (bit_or (h.version * 2 ^ 4 % 256) 5 ∷ [])
  rpkt ← copy_from_slice rpkt 2 4 (be16_bytes h.length)
  rpkt ← copy_from_slice rpkt 4 6 (be16_bytes h.id)
  rpkt ← copy_from_slice rpkt 6 8 (be16_bytes flags_frag)
  rpkt ← copy_from_slice rpkt 8 9 (h.ttl ∷ [])
  rpkt ← copy_from_slice rpkt 9 10 (h.protocol ∷ [])
  rpkt ← copy_from_slice rpkt 10 12 (0 ∷ 0 ∷ [])
  rpkt ← copy_from_slice rpkt 12 16 (be32_bytes h.src)
  copy_from_slice rpkt 16 20 (be32_bytes h.dst)

-- `as_bytes`: the buffer with the header written over its first 20 bytes.
unfoldable pub write_header : Ipv4Header → List ℕ → Outcome ProtocolError (List ℕ)
unfolding write_fields
write_header h rpkt = do
  rpkt ← write_fields h rpkt
  hdr ← slice rpkt 0 20
  copy_from_slice rpkt 10 12 (be16_bytes (checksum hdr))

unfoldable pub into_bytes : Ipv4Header → Outcome ProtocolError (List ℕ)
unfolding write_header
into_bytes h = write_header h (replicate 20 0)

unfoldable pub parse : List ℕ → Outcome ProtocolError Ipv4Packet
unfolding extract_from_slice
parse bytes = do header ← extract_from_slice bytes; ok (record { header = header; bytes = bytes })

unfoldable pub has_fragments : Ipv4Packet → Bool
has_fragments p = bit_and p.header.flags 1 == 1

unfoldable pub payload : Ipv4Packet → Outcome ProtocolError (List ℕ)
unfolding header_length
payload p = slice_from p.bytes (header_length p.header)

-- `Vec::resize(n, 0)`
abbrev resize : List ℕ → ℕ → List ℕ
resize xs n = take n xs ++ replicate (n - length xs) 0

-- `offset` against the length of the payload so far; the data behind it is indexed from the header on.
unfoldable pub place_fragment : Ipv4Packet → ℕ → ℕ → List ℕ → Outcome ProtocolError Ipv4Packet
place_fragment p end offset fragment =
    if offset == end
    then ok (record {
      bytes = p.bytes ++ fragment;
      header = record (p.header) { length = (p.header.length + length fragment % 2 ^ 16) % 2 ^ 16 };
    })
    else if ltb end offset
    then ok (record {
      bytes = resize p.bytes offset ++ fragment;
      header = record (p.header) { length = (offset + length fragment % 2 ^ 16) % 2 ^ 16 };
    })
    else (do
      bytes ← copy_from_slice p.bytes offset (offset + length fragment) fragment
      ok (record p { bytes = bytes }))

unfoldable pub add_fragment_data : Ipv4Packet → ℕ → List ℕ → Outcome ProtocolError Ipv4Packet
unfolding payload place_fragment
add_fragment_data p offset fragment = do
  so_far ← payload p
  place_fragment p (length so_far) offset fragment

unfoldable pub finalize : Ipv4Packet → Outcome ProtocolError Ipv4Packet
unfolding write_header
finalize p = do
  let header = record (p.header) { flags = 0; frag_offset = 0 }
  bytes ← write_header header p.bytes
  ok (record { header = header; bytes = bytes })

-- The transport checksum at `start` of the payload, computed with the field cleared.
unfoldable pub fix_checksum_at : ℕ → Ipv4Packet → Outcome ProtocolError Ipv4Packet
unfolding payload header_length
fix_checksum_at start p = do
  segment ← payload p
  cleared ← copy_from_slice segment start (start + 2) (0 ∷ 0 ∷ [])
  let sum = ph_checksum p.header.src p.header.dst p.header.protocol cleared
  fixed ← copy_from_slice cleared start (start + 2) (be16_bytes sum)
  ok (record p { bytes = take (header_length p.header) p.bytes ++ fixed })

unfoldable pub fix_transport_checksum : Ipv4Packet → Outcome ProtocolError Ipv4Packet
unfolding fix_checksum_at payload
fix_transport_checksum p =
    if p.header.protocol == net_protocol_tcp
    then fix_checksum_at 16 p
    else if p.header.protocol == net_protocol_udp
    then fix_checksum_at 6 p
    else (do _ ← payload p; ok p)

-- The source address is replaced, and both checksums are computed anew.
unfoldable pub masquerade : ℕ → Ipv4Packet → Outcome ProtocolError Ipv4Packet
unfolding write_header fix_transport_checksum
masquerade ip p = do
  let header = record (p.header) { src = ip }
  bytes ← write_header header p.bytes
  fix_transport_checksum (record { header = header; bytes = bytes })

unfoldable pub unmasquerade : ℕ → Ipv4Packet → Outcome ProtocolError Ipv4Packet
unfolding write_header fix_transport_checksum
unmasquerade ip p = do
  let header = record (p.header) { dst = ip }
  bytes ← write_header header p.bytes
  fix_transport_checksum (record { header = header; bytes = bytes })

unfoldable pub reply : ℕ → Ipv4Packet → List ℕ → Ipv4Header
unfolding gen_reply
reply id p body = gen_reply id p.header body
