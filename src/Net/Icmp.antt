-- ===== src/Net/Icmp.antt =====
-- oathgate-net/src/protocols/icmp.rs: control messages. `todo!()` panics.
pub mod RoundTrip
use oathgate.Common.{
  ℕ, ◌+◌, ◌*◌, ◌^◌, List, [], ◌∷◌, ◌++◌, length, replicate, ltb, ◌==◌, if◌then◌else◌, Outcome, ok,
  err, panic, ◌>>=◌,
}
use oathgate.Common.Bytes.{index, slice, slice_from, be16_at, be16_bytes, copy_from_slice}
use oathgate.Net.Checksum.{checksum}
use oathgate.Net.Error.{ProtocolError, not_enough_data}
use oathgate.Net.Ipv4.{Ipv4Header, write_header}

abbrev pub icmp_hdr_sz : ℕ
icmp_hdr_sz = 4

abbrev pub icmp_ty_echo_reply : ℕ
icmp_ty_echo_reply = 0

abbrev pub icmp_ty_destination_unreachable : ℕ
icmp_ty_destination_unreachable = 3

abbrev pub icmp_ty_echo_request : ℕ
icmp_ty_echo_request = 8

pub data DestinationUnreachableCode : Type 0 where
  network_unreachable host_unreachable : DestinationUnreachableCode
  protocol_unreachable port_unreachable : DestinationUnreachableCode
  fragmentation_required source_route_failed : DestinationUnreachableCode
  network_unknown host_unknown source_host_isolated : DestinationUnreachableCode
  network_admin_prohibited host_admin_prohibited : DestinationUnreachableCode
  network_unreachable_tos host_unreachable_tos : DestinationUnreachableCode
  comm_admin_prohibited host_precedence_violation : DestinationUnreachableCode
  precedence_cutoff : DestinationUnreachableCode

unfoldable pub code_as_u8 : DestinationUnreachableCode → ℕ
code_as_u8 network_unreachable = 0
code_as_u8 host_unreachable = 1
code_as_u8 protocol_unreachable = 2
code_as_u8 port_unreachable = 3
code_as_u8 fragmentation_required = 4
code_as_u8 source_route_failed = 5
code_as_u8 network_unknown = 6
code_as_u8 host_unknown = 7
code_as_u8 source_host_isolated = 8
code_as_u8 network_admin_prohibited = 9
code_as_u8 host_admin_prohibited = 10
code_as_u8 network_unreachable_tos = 11
code_as_u8 host_unreachable_tos = 12
code_as_u8 comm_admin_prohibited = 13
code_as_u8 host_precedence_violation = 14
code_as_u8 precedence_cutoff = 15

-- The echo messages carry an identifier, a sequence number and data. An `IcmpPacket` is its type.
pub data IcmpType : Type 0 where
  echo_reply : ℕ → ℕ → List ℕ → IcmpType
  destination_unreachable : DestinationUnreachableCode → List ℕ → IcmpType
  redirect : IcmpType
  echo_request : ℕ → ℕ → List ℕ → IcmpType

unfoldable pub as_u8 : IcmpType → ℕ
unfolding code_as_u8
as_u8 (echo_reply _ _ _) = 0
as_u8 (destination_unreachable code _) = 3 * 2 ^ 8 + code_as_u8 code
as_u8 redirect = 5
as_u8 (echo_request _ _ _) = 8

-- The original header and the first eight bytes of its payload.
unfoldable pub unreachable :
    DestinationUnreachableCode → Ipv4Header → List ℕ → Outcome ProtocolError IcmpType
unfolding write_header
unreachable code hdr payload = do
  buf ← write_header hdr (replicate 28 0)
  front ← slice payload 0 8
  buf ← copy_from_slice buf 20 28 front
  ok (destination_unreachable code buf)

-- The identifier, the sequence number and the data of an echo message.
unfoldable pub parse_echo : (ℕ → ℕ → List ℕ → IcmpType) → List ℕ → Outcome ProtocolError IcmpType
parse_echo type bytes = do
  id ← be16_at bytes 4
  seq ← be16_at bytes 6
  rest ← slice_from bytes 8
  ok (type id seq rest)

-- `match data[0]`
unfoldable pub by_type : ℕ → List ℕ → Outcome ProtocolError IcmpType
unfolding parse_echo
by_type type bytes =
    if type == icmp_ty_echo_reply
    then parse_echo echo_reply bytes
    else if type == icmp_ty_echo_request
    then parse_echo echo_request bytes
    else panic

unfoldable pub parse : List ℕ → Outcome ProtocolError IcmpType
unfolding by_type
parse bytes =
    if ltb (length bytes) icmp_hdr_sz
    then err (not_enough_data (length bytes) icmp_hdr_sz)
    else (do type ← index bytes 0; by_type type bytes)

-- The checksum of the first `end` bytes, written to the bytes 2 and 3.
unfoldable pub write_checksum : List ℕ → ℕ → Outcome ProtocolError (List ℕ × ℕ)
write_checksum buf end = do
  message ← slice buf 0 end
  buf ← copy_from_slice buf 2 4 (be16_bytes (checksum message))
  ok (buf, end)

unfoldable pub write_echo : ℕ → ℕ → ℕ → List ℕ → List ℕ → Outcome ProtocolError (List ℕ × ℕ)
unfolding write_checksum
write_echo type id seq body buf = do
  let end = 8 + length body
  buf ← copy_from_slice buf 0 1 (type ∷ [])
  buf ← copy_from_slice buf 1 2 (0 ∷ [])
  buf ← copy_from_slice buf 2 4 (0 ∷ 0 ∷ [])
  buf ← copy_from_slice buf 4 6 (be16_bytes id)
  buf ← copy_from_slice buf 6 8 (be16_bytes seq)
  buf ← copy_from_slice buf 8 end body
  write_checksum buf end

-- `as_bytes`: the buffer, and the number of bytes written.
unfoldable pub icmp_bytes : IcmpType → List ℕ → Outcome ProtocolError (List ℕ × ℕ)
unfolding code_as_u8 write_echo write_checksum
icmp_bytes (echo_request id seq body) buf = write_echo icmp_ty_echo_request id seq body buf
icmp_bytes (echo_reply id seq body) buf = write_echo icmp_ty_echo_reply id seq body buf
icmp_bytes redirect buf = ok (buf, 0)
icmp_bytes (destination_unreachable code original) buf = do
  buf ← copy_from_slice buf 0 1 (icmp_ty_destination_unreachable ∷ [])
  buf ← copy_from_slice buf 1 2 (code_as_u8 code ∷ [])
  buf ← copy_from_slice buf 2 8 (replicate 6 0)
  buf ← copy_from_slice buf 8 36 original
  write_checksum buf 36
