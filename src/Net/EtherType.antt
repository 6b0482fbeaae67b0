-- ===== src/Net/EtherType.antt =====
-- oathgate-net/src/types.rs: the Ethernet types that the bridge knows.
use oathgate.Common.{
  ℕ, ◌≡◌, refl, arith, List, [], ◌∷◌, ◌++◌, ◌==◌, if◌then◌else◌, Outcome, ok, err,
}
use oathgate.Common.Bytes.{be16, be16_bytes}
use oathgate.Net.Error.{ProtocolError, not_enough_data, malformed_packet, Message}

pub data EtherType : Type 0 where
  ipv4 ipv6 arp : EtherType

unfoldable pub as_u16 : EtherType → ℕ
as_u16 ipv4 = 0x0800
as_u16 ipv6 = 0x86dd
as_u16 arp = 0x0806

unfoldable pub try_from_u16 : ℕ → Outcome ProtocolError EtherType
unfolding as_u16
try_from_u16 value =
    if value == as_u16 ipv4
    then ok ipv4
    else if value == as_u16 ipv6
    then ok ipv6
    else if value == as_u16 arp
    then ok arp
    else err (malformed_packet (Message.unknown_ethertype value))

unfoldable pub try_from_bytes : List ℕ → Outcome ProtocolError EtherType
unfolding try_from_u16
try_from_bytes [] = err (not_enough_data 0 2)
try_from_bytes (b ∷ []) = err (not_enough_data 1 2)
try_from_bytes (b0 ∷ b1 ∷ _) = try_from_u16 (be16 b0 b1)

pub try_from_u16-as_u16 : (t : EtherType) → try_from_u16 (as_u16 t) ≡ ok t
unfolding try_from_u16
try_from_u16-as_u16 ipv4 = refl
try_from_u16-as_u16 ipv6 = refl
try_from_u16-as_u16 arp = refl

pub as_u16-try_from_u16 : (n : ℕ) {t : EtherType} → try_from_u16 n ≡ ok t → as_u16 t ≡ n
unfolding try_from_u16
as_u16-try_from_u16 n h = ground arith

-- The two bytes of a type are read back.
pub try_from_bytes-as_u16 :
    (t : EtherType) (rest : List ℕ) → try_from_bytes (be16_bytes (as_u16 t) ++ rest) ≡ ok t
unfolding try_from_bytes
try_from_bytes-as_u16 ipv4 rest = refl
try_from_bytes-as_u16 ipv6 rest = refl
try_from_bytes-as_u16 arp rest = refl

pub as_u16-try_from_bytes :
    (a b : ℕ) (rest : List ℕ) {t : EtherType}
    → try_from_bytes (a ∷ b ∷ rest) ≡ ok t
    → as_u16 t ≡ be16 a b
unfolding try_from_bytes
as_u16-try_from_bytes a b rest h = as_u16-try_from_u16 (be16 a b) h
