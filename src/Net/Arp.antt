-- ===== src/Net/Arp.antt =====
-- oathgate-net/src/protocols/arp.rs: address resolution packets. An IPv6 address is its number below
-- 2 ^ 128, like an IPv4 one.
pub mod RoundTrip
use oathgate.Common.{
  ℕ, ◌+◌, ◌*◌, ◌/◌, ◌%◌, ◌^◌, List, [], ◌∷◌, ◌++◌, length, ltb, ◌==◌, if◌then◌else◌, Outcome, ok,
  err, ◌>>=◌, ◌>>◌,
}
use oathgate.Common.Bytes.{index, slice, be16_at, be32_at, be16_bytes, be32_bytes, copy_from_slice}
use oathgate.Net.Error.{ProtocolError, not_enough_data, malformed_packet, Message}
use oathgate.Net.EtherType.{EtherType, as_u16, try_from_bytes}
use oathgate.Net.Mac.{MacAddress, as_bytes}
use oathgate.Net.Mac

-- `std::net::IpAddr`
pub data IpAddr : Type 0 where
  v4 v6 : ℕ → IpAddr

pub record ArpPacket : Type 0 where
  pub hardware_type : ℕ
  pub protocol_type : EtherType
  pub hardware_len : ℕ
  pub protocol_len : ℕ
  pub operation : ℕ
  pub sha : MacAddress
  pub spa : IpAddr
  pub tha : MacAddress
  pub tpa : IpAddr

-- `match (hardware_type, hardware_len)`
unfoldable pub check_hardware : ℕ → ℕ → Outcome ProtocolError (Unit {0})
check_hardware type len =
    if type == 1
    then (if len == 6 then ok tt else err (malformed_packet (Message.bad_hardware_length len)))
    else err (malformed_packet (Message.unknown_hardware_type type))

-- `u128::from_be_bytes` and `to_be_bytes`, as four words of 32 bits.
abbrev pub be128_at : List ℕ → ℕ → Outcome ProtocolError ℕ
be128_at xs i = do
  a ← be32_at xs i
  b ← be32_at xs (i + 4)
  c ← be32_at xs (i + 8)
  d ← be32_at xs (i + 12)
  ok (a * 2 ^ 96 + b * 2 ^ 64 + c * 2 ^ 32 + d)

abbrev pub be128_bytes : ℕ → List ℕ
be128_bytes n =
    be32_bytes (n / 2 ^ 96) ++ be32_bytes (n / 2 ^ 64) ++ be32_bytes (n / 2 ^ 32) ++ be32_bytes n

-- `match (protocol_type, protocol_len)`: the sender's and the target's address.
unfoldable pub read_addresses :
    EtherType → ℕ → List ℕ → ℕ → ℕ → Outcome ProtocolError (IpAddr × IpAddr)
read_addresses EtherType.ipv4 len bytes spa_start tpa_start =
    if len == 4
    then (do spa ← be32_at bytes spa_start; tpa ← be32_at bytes tpa_start; ok (v4 spa, v4 tpa))
    else err (malformed_packet (Message.bad_ipv4_length len))
read_addresses EtherType.ipv6 len bytes spa_start tpa_start =
    if len == 16
    then (do spa ← be128_at bytes spa_start; tpa ← be128_at bytes tpa_start; ok (v6 spa, v6 tpa))
    else err (malformed_packet (Message.bad_ipv6_length len))
read_addresses EtherType.arp len bytes spa_start tpa_start =
    err (malformed_packet Message.bad_arp_ethertype)

unfoldable pub parse : List ℕ → Outcome ProtocolError ArpPacket
unfolding Mac.parse try_from_bytes check_hardware read_addresses
parse bytes = if ltb (length bytes) 28 then err (not_enough_data (length bytes) 28) else (do
  hardware_type ← be16_at bytes 0
  protocol_type ← try_from_bytes (← slice bytes 2 4)
  hardware_len ← index bytes 4
  protocol_len ← index bytes 5
  operation ← be16_at bytes 6
  check_hardware hardware_type hardware_len
  let spa_start = 8 + hardware_len
  let tha_start = spa_start + protocol_len
  let tpa_start = tha_start + hardware_len
  sha ← Mac.parse (← slice bytes 8 spa_start)
  tha ← Mac.parse (← slice bytes tha_start tpa_start)
  (spa, tpa) ← read_addresses protocol_type protocol_len bytes spa_start tpa_start
  ok (record {
    hardware_type = hardware_type;
    protocol_type = protocol_type;
    hardware_len = hardware_len;
    protocol_len = protocol_len;
    operation = operation;
    sha = sha;
    spa = spa;
    tha = tha;
    tpa = tpa;
  }))

unfoldable pub to_reply : MacAddress → ArpPacket → ArpPacket
to_reply mac p = record p { operation = 2; sha = mac; spa = p.tpa; tha = p.sha; tpa = p.spa }

unfoldable pub size_of : IpAddr → IpAddr → ℕ
size_of (v4 _) (v4 _) = 28
size_of (v6 _) (v6 _) = 52
size_of _ _ = 0

unfoldable pub size : ArpPacket → ℕ
unfolding size_of
size p = size_of p.spa p.tpa

-- `match (self.spa, self.tpa)`: the addresses and, between them, the target's hardware address.
unfoldable pub write_addresses :
    IpAddr → IpAddr → MacAddress → List ℕ → Outcome ProtocolError (List ℕ)
write_addresses (v4 spa) (v4 tpa) tha pkt = do
  pkt ← copy_from_slice pkt 14 18 (be32_bytes spa)
  pkt ← copy_from_slice pkt 18 24 (as_bytes tha)
  copy_from_slice pkt 24 28 (be32_bytes tpa)
write_addresses (v6 spa) (v6 tpa) tha pkt = do
  pkt ← copy_from_slice pkt 14 30 (be128_bytes spa)
  pkt ← copy_from_slice pkt 30 36 (as_bytes tha)
  copy_from_slice pkt 36 52 (be128_bytes tpa)
write_addresses _ _ tha pkt = ok pkt

unfoldable pub arp_bytes : ArpPacket → List ℕ → Outcome ProtocolError (List ℕ)
unfolding as_u16 write_addresses
arp_bytes p pkt = do
  pkt ← copy_from_slice pkt 0 2 (be16_bytes p.hardware_type)
  pkt ← copy_from_slice pkt 2 4 (be16_bytes (as_u16 p.protocol_type))
  pkt ← copy_from_slice pkt 4 5 (p.hardware_len ∷ [])
  pkt ← copy_from_slice pkt 5 6 (p.protocol_len ∷ [])
  pkt ← copy_from_slice pkt 6 8 (be16_bytes p.operation)
  pkt ← copy_from_slice pkt 8 14 (as_bytes p.sha)
  write_addresses p.spa p.tpa p.tha pkt
