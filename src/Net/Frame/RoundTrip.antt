-- ===== src/Net/Frame/RoundTrip.antt =====
-- Writing a frame header and reading it back.
use oathgate.Common.{
  ℕ, ◌≤◌, ◌≡◌, refl, arith, List, [], ◌∷◌, ◌++◌, length, take, drop, All, length-take, ok,
  take-append-drop, ◌∙◌, sym, ap, All-take,
}
use oathgate.Common.Bytes.{IsByte, be16_bytes}
use oathgate.Net.EtherType.{as_u16, try_from_bytes-as_u16, as_u16-try_from_bytes}
use oathgate.Net.Mac.{as_bytes}
use oathgate.Net.Frame.{EthernetFrame, read_header, extract, to_bytes}

-- The layout of the header on the wire: destination, source, type.
abbrev pub wire : EthernetFrame → List ℕ
wire f = as_bytes f.dst ++ as_bytes f.src ++ be16_bytes (as_u16 f.ethertype)

pub to_bytes-wire : (f : EthernetFrame) → to_bytes f ≡ ok (wire f)
unfolding to_bytes
to_bytes-wire f = refl

pub extract-wire :
    (f : EthernetFrame) (payload : List ℕ) → extract (wire f ++ payload) ≡ (ok f, payload)
unfolding extract
extract-wire f payload = ground (arith, try_from_bytes-as_u16 f.ethertype [])

-- Every frame header is written without a panic, and `extract` gets it back from the bytes written,
-- leaving the payload that follows.
pub extract-to_bytes :
    (f : EthernetFrame) (payload : List ℕ)
    → (hdr : List ℕ) × (to_bytes f ≡ ok hdr) × (extract (hdr ++ payload) ≡ (ok f, payload))
extract-to_bytes f payload = (wire f, to_bytes-wire f, extract-wire f payload)

read_header-wire :
    (hdr : List ℕ) {f : EthernetFrame}
    → All IsByte hdr
    → length hdr ≡ 14
    → read_header hdr ≡ ok f
    → hdr ≡ wire f
unfolding read_header
read_header-wire (a ∷ b ∷ c ∷ d ∷ e ∷ g ∷ h ∷ i ∷ j ∷ k ∷ l ∷ m ∷ n ∷ o ∷ []) s p q =
    ground (arith, as_u16-try_from_bytes n o [])
read_header-wire _ s p q = absurd (omega arith)

read_header_taken :
    (pkt : List ℕ) {f : EthernetFrame}
    → All IsByte pkt
    → 14 ≤ length pkt
    → read_header (take 14 pkt) ≡ ok f
    → pkt ≡ wire f ++ drop 14 pkt
read_header_taken pkt b h e =
    sym (take-append-drop 14 pkt)
    ∙ ap (λ (xs : List ℕ). xs ++ drop 14 pkt)
        (read_header-wire (take 14 pkt) (All-take IsByte 14 pkt b)
          (omega (arith, length-take 14 pkt)) e)

-- A packet of bytes that `extract` accepts is the bytes of the header that it gives, followed by
-- what it leaves.
pub extract_inverse :
    (pkt rest : List ℕ) {f : EthernetFrame}
    → All IsByte pkt
    → extract pkt ≡ (ok f, rest)
    → pkt ≡ wire f ++ rest
unfolding extract
extract_inverse pkt rest b h = ground (arith, read_header_taken pkt b)
