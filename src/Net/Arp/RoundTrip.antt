-- ===== src/Net/Arp/RoundTrip.antt =====
-- Writing an ARP packet and reading it back, and lengths that `parse` does not check.
use oathgate.Common.{ℕ, ◌≡◌, refl, arith, List, ◌∷◌, ◌++◌, length, replicate, ok}
use oathgate.Common.Bytes.{IsU16, IsU32, be16_bytes, be32_bytes}
use oathgate.Net.EtherType.{EtherType}
use oathgate.Net.Mac.{as_bytes}
use oathgate.Net.Arp.{ArpPacket, v4, parse, size, arp_bytes}

-- An Ethernet packet about the IPv4 addresses `s` and `t`.
pub record IsIpv4 (p : ArpPacket) (s t : ℕ) : Type 0 where
  pub hardware : p.hardware_type ≡ 1
  pub hardware_size : p.hardware_len ≡ 6
  pub protocol : p.protocol_type ≡ EtherType.ipv4
  pub protocol_size : p.protocol_len ≡ 4
  pub operation-IsU16 : IsU16 p.operation
  pub spa_lem : p.spa ≡ v4 s
  pub tpa_lem : p.tpa ≡ v4 t
  pub s-IsU32 : IsU32 s
  pub t-IsU32 : IsU32 t

abbrev pub wire : ArpPacket → ℕ → ℕ → List ℕ
wire p s t =
    0 ∷ 1 ∷ 8 ∷ 0 ∷ 6 ∷ 4 ∷ be16_bytes p.operation
    ++ as_bytes p.sha
    ++ be32_bytes s
    ++ as_bytes p.tha
    ++ be32_bytes t

pub arp_bytes-wire :
    (p : ArpPacket) (s t : ℕ) → IsIpv4 p s t → arp_bytes p (replicate (size p) 0) ≡ ok (wire p s t)
unfolding arp_bytes size
arp_bytes-wire p s t v =
    rw (v.hardware, v.hardware_size, v.protocol, v.protocol_size, v.spa_lem, v.tpa_lem) refl

pub parse-wire :
    (p : ArpPacket) (s t : ℕ) (rest : List ℕ) → IsIpv4 p s t → parse (wire p s t ++ rest) ≡ ok p
unfolding parse
parse-wire p s t rest v = ground arith

-- A packet about IPv4 addresses on Ethernet is written in 28 bytes without a panic, and `parse`
-- gets it back, whatever follows.
pub parse-arp_bytes :
    (p : ArpPacket) (s t : ℕ) (rest : List ℕ)
    → IsIpv4 p s t
    → (out : List ℕ) × (arp_bytes p (replicate (size p) 0) ≡ ok out)
      × (length out ≡ 28)
      × (parse (out ++ rest) ≡ ok p)
parse-arp_bytes p s t rest v = (wire p s t, arp_bytes-wire p s t v, refl, parse-wire p s t rest v)
