-- ===== src/Net/Tests.antt =====
-- The theorems about packets at concrete ones.
use oathgate.Net.Network.Text.{from_str-display_network}
use oathgate.Net.Network
use oathgate.Net.Network.Text as NetworkText
use oathgate.Common.{
  ℕ, ◌+◌, ◌%◌, ◌^◌, ◌≡◌, inr, refl, arith, List, [], ◌∷◌, ◌++◌, replicate, All, some, ok,
  if◌then◌else◌, ltb,
}
use oathgate.Common.Bytes.{IsByte}
use oathgate.Net.Mac.Text.{IsMac}
use oathgate.Net.Arp.{ArpPacket, v4}
use oathgate.Net.Arp.RoundTrip.{IsIpv4}
use oathgate.Net.Checksum.{checksum}
use oathgate.Net.Checksum.Sums.{word_sum}
use oathgate.Net.Checksum.Complement.{halves, checksum-complement}
use oathgate.Net.EtherType.{EtherType}
use oathgate.Net.Frame.{EthernetFrame, extract, to_bytes}
use oathgate.Net.Frame.RoundTrip.{extract-to_bytes}
use oathgate.Net.Ipv4.{Ipv4Header, Ipv4Packet, write_header, extract_from_slice}
use oathgate.Net.Ipv4
use oathgate.Net.Ipv4.RoundTrip.{IsHeader, fields_wire, header_sum, read_back, extract-write_header}
use oathgate.Net.Mac.{MacAddress}
use oathgate.Net.Nat.{NatTable, insert, get}
use oathgate.Net.Nat
use oathgate.Net.Nat.Replies.{IsReply, transport, get_reply}

abbrev sample : List ℕ
sample = 0x45 ∷ 0x00 ∷ 0xff ∷ 0xfe ∷ 0x11 ∷ []

sample-IsByte : All IsByte sample
sample-IsByte = ground arith

checksum-complement_example :
    (word_sum sample + checksum sample) % 65535
    ≡ (if ltb (halves (word_sum sample)) (2 ^ 16) then 0 else 1)
checksum-complement_example = checksum-complement sample sample-IsByte (omega arith)

abbrev host : MacAddress
host = record { octet0 = 2; octet1 = 0; octet2 = 0; octet3 = 0; octet4 = 0; octet5 = 1 }

abbrev gateway : MacAddress
gateway = record { octet0 = 2; octet1 = 0; octet2 = 0; octet3 = 0; octet4 = 0; octet5 = 2 }

abbrev frame : EthernetFrame
frame = record { dst = gateway; src = host; ethertype = EtherType.ipv4 }

extract-to_bytes_example :
    (hdr : List ℕ) × (to_bytes frame ≡ ok hdr) × (extract (hdr ++ sample) ≡ (ok frame, sample))
extract-to_bytes_example = extract-to_bytes frame sample

abbrev frame_packet : List ℕ
frame_packet = 2 ∷ 0 ∷ 0 ∷ 0 ∷ 0 ∷ 2 ∷ 2 ∷ 0 ∷ 0 ∷ 0 ∷ 0 ∷ 1 ∷ 8 ∷ 0 ∷ 7 ∷ []

frame_packet-IsByte : All IsByte frame_packet
frame_packet-IsByte = ground arith

frame_packet-extract : extract frame_packet ≡ (ok frame, 7 ∷ [])
unfolding extract
frame_packet-extract = refl

abbrev header : Ipv4Header
header = record {
  version = 4;
  ihl = 5;
  length = 40;
  id = 77;
  flags = 1;
  frag_offset = 185;
  ttl = 64;
  protocol = 17;
  checksum = 0;
  src = 0x0a000001;
  dst = 0x08080808;
}

header-IsHeader : IsHeader header
header-IsHeader = record {
  version-lt = omega arith;
  length-IsU16 = omega arith;
  id-IsU16 = omega arith;
  flags-lt = omega arith;
  frag_offset-lt = omega arith;
  src-IsU32 = omega arith;
  dst-IsU32 = omega arith;
}

extract-write_header_example :
    (out : List ℕ) × (write_header header (replicate 20 0) ≡ ok out)
    × (extract_from_slice out ≡ ok (read_back header (header_sum header 0)))
extract-write_header_example =
    extract-write_header header (replicate 20 0) header-IsHeader (omega arith)

fields-IsByte : All IsByte (fields_wire header 0 0)
fields-IsByte = ground arith

abbrev question : ArpPacket
question = record {
  hardware_type = 1;
  protocol_type = EtherType.ipv4;
  hardware_len = 6;
  protocol_len = 4;
  operation = 1;
  sha = host;
  spa = v4 0x0a000002;
  tha = gateway;
  tpa = v4 0x0a000001;
}

question-IsIpv4 : IsIpv4 question 0x0a000002 0x0a000001
question-IsIpv4 = record {
  hardware = refl;
  hardware_size = refl;
  protocol = refl;
  protocol_size = refl;
  operation-IsU16 = omega arith;
  spa_lem = refl;
  tpa_lem = refl;
  s-IsU32 = omega arith;
  t-IsU32 = omega arith;
}

-- A UDP packet from port 5000 to port 53, and its answer.
abbrev outgoing : Ipv4Packet
outgoing = record { header = header; bytes = replicate 20 0 ++ 0x13 ∷ 0x88 ∷ 0 ∷ 53 ∷ [] }

abbrev incoming : Ipv4Packet
incoming = record {
  header = record header { src = 0x08080808; dst = 0x0a000001 };
  bytes = replicate 20 0 ++ 0 ∷ 53 ∷ 0x13 ∷ 0x88 ∷ [];
}

incoming-IsReply : IsReply outgoing incoming
unfolding Ipv4.payload
incoming-IsReply = transport 0x13 0x88 0 53 (0 ∷ 53 ∷ []) [] (inr refl) refl refl refl refl

get_reply_example :
    (t' : NatTable) × (insert Nat.empty outgoing ≡ ok t') × (get t' incoming ≡ ok (some 0x0a000001))
get_reply_example = get_reply Nat.empty outgoing incoming incoming-IsReply

abbrev address : MacAddress
address = record { octet0 = 2; octet1 = 255; octet2 = 0; octet3 = 26; octet4 = 9; octet5 = 1 }

address-IsMac : IsMac address
address-IsMac = record {
  octet0-IsByte = omega arith;
  octet1-IsByte = omega arith;
  octet2-IsByte = omega arith;
  octet3-IsByte = omega arith;
  octet4-IsByte = omega arith;
  octet5-IsByte = omega arith;
}

-- `10.10.10.213/25`
from_str-display_network_example :
    NetworkText.from_str (NetworkText.display (Network.new 168430293 25))
    ≡ ok (Network.new 168430293 25)
from_str-display_network_example = from_str-display_network 168430293 25 (omega arith) (omega arith)
