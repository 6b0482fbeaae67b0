-- ===== src/Net/Network/Text.antt =====
-- The text of an IPv4 network (oathgate-net/src/types/netaddress.rs): an address, a slash and the
-- length of the prefix. Texts are their bytes.
use oathgate.Common.{
  ℕ, ◌+◌, ◌*◌, ◌/◌, ◌%◌, ◌^◌, ◌≤◌, ◌<◌, ◌≡◌, refl, sym, ap, ◌∙◌, arith, Bool, true, false, ◌&&◌,
  List, [], ◌∷◌, ◌++◌, ◌==◌, if◌then◌else◌, Option, none, some, Outcome, ok, err, ok_or, ◌>>=◌, All,
}
use oathgate.Common
use oathgate.Common.Split.{
  split, IsPart, split-part, split-append, decimal_byte, read_digits, decimal_byte-IsPart,
}
use oathgate.Net.Network.{Ipv4Network, new, subnet_mask_bits}
use oathgate.Net.Network.Prefix.{new_mask}

pub data Error : Type 0 where
  missing_ip parse_ip parse_mask : Error

-- `Display` of `Ipv4Addr`.
unfoldable pub display_addr : ℕ → List ℕ
unfolding decimal_byte
display_addr ip =
    decimal_byte (ip / 16777216)
    ++ 46
      ∷ (decimal_byte (ip / 65536 % 256)
          ++ 46 ∷ (decimal_byte (ip / 256 % 256) ++ 46 ∷ decimal_byte (ip % 256)))

unfoldable pub display : Ipv4Network → List ℕ
unfolding display_addr decimal_byte subnet_mask_bits
display n = display_addr n.ip ++ 47 ∷ decimal_byte (subnet_mask_bits n)

-- A number of an address: one to three digits, of which the first is not a zero if there are more.
unfoldable pub read_octet : List ℕ → Option ℕ
unfolding read_digits
read_octet [] = none
read_octet (c ∷ []) = read_digits 0 (c ∷ [])
read_octet (c ∷ d ∷ []) = if c == 48 then none else read_digits 0 (c ∷ d ∷ [])
read_octet (c ∷ d ∷ e ∷ []) = if c == 48 then none else read_digits 0 (c ∷ d ∷ e ∷ [])
read_octet (c ∷ d ∷ e ∷ f ∷ s) = none

unfoldable join_octets : Option ℕ → Option ℕ → Option ℕ → Option ℕ → Option ℕ
join_octets (some a) (some b) (some c) (some d) = some (a * 16777216 + b * 65536 + c * 256 + d)
join_octets _ _ _ _ = none

unfoldable read_octets : List (List ℕ) → Option ℕ
unfolding read_octet join_octets
read_octets (a ∷ b ∷ c ∷ d ∷ []) =
    join_octets (read_octet a) (read_octet b) (read_octet c) (read_octet d)
read_octets _ = none

-- `FromStr` of `Ipv4Addr`.
unfoldable pub parse_addr : List ℕ → Option ℕ
unfolding split read_octets
parse_addr s = read_octets (split 46 s)

-- `FromStr` of `u8`: digits, behind a plus sign if there is one.
unfoldable pub parse_u8 : List ℕ → Option ℕ
unfolding read_digits
parse_u8 [] = none
parse_u8 (c ∷ []) = if c == 43 then none else read_digits 0 (c ∷ [])
parse_u8 (c ∷ d ∷ s) = if c == 43 then read_digits 0 (d ∷ s) else read_digits 0 (c ∷ d ∷ s)

-- The second part, or 32.
unfoldable mask_part : List (List ℕ) → List ℕ
mask_part [] = 51 ∷ 50 ∷ []
mask_part (m ∷ rest) = m

unfoldable from_parts : List (List ℕ) → Outcome Error Ipv4Network
unfolding parse_addr parse_u8 mask_part new
from_parts [] = err missing_ip
from_parts (ip ∷ rest) = do
  ip ← ok_or (parse_addr ip) parse_ip
  mask ← ok_or (parse_u8 (mask_part rest)) parse_mask
  ok (new ip mask)

unfoldable pub from_str : List ℕ → Outcome Error Ipv4Network
unfolding split from_parts
from_str s = from_parts (split 47 s)

read_octet-decimal_byte : (n : ℕ) → n < 256 → read_octet (decimal_byte n) ≡ some n
unfolding read_octet decimal_byte read_digits
read_octet-decimal_byte n h = ground arith

parse_u8-decimal_byte : (n : ℕ) → n < 256 → parse_u8 (decimal_byte n) ≡ some n
unfolding parse_u8 decimal_byte read_digits
parse_u8-decimal_byte n h = ground arith

octets-sum :
    (ip : ℕ)
    → ip < 2 ^ 32
    → ip / 16777216 * 16777216 + ip / 65536 % 256 * 65536 + ip / 256 % 256 * 256 + ip % 256 ≡ ip
octets-sum ip h = omega arith

split-display_addr :
    (ip : ℕ)
    → split 46 (display_addr ip)
      ≡ decimal_byte (ip / 16777216)
        ∷ decimal_byte (ip / 65536 % 256)
        ∷ decimal_byte (ip / 256 % 256)
        ∷ decimal_byte (ip % 256)
        ∷ []
unfolding display_addr
split-display_addr ip =
    let part = λ (n : ℕ). decimal_byte-IsPart 46 n (omega arith) in
    split-append 46 (decimal_byte (ip / 16777216)) _ (part (ip / 16777216))
    ∙ ap (◌∷◌ (decimal_byte (ip / 16777216))) (
        split-append 46 (decimal_byte (ip / 65536 % 256)) _ (part (ip / 65536 % 256))
        ∙ ap (◌∷◌ (decimal_byte (ip / 65536 % 256))) (
            split-append 46 (decimal_byte (ip / 256 % 256)) _ (part (ip / 256 % 256))
            ∙ ap (◌∷◌ (decimal_byte (ip / 256 % 256)))
                (split-part 46 (decimal_byte (ip % 256)) (part (ip % 256)))))

parse_addr-display_addr : (ip : ℕ) → ip < 2 ^ 32 → parse_addr (display_addr ip) ≡ some ip
unfolding parse_addr read_octets join_octets
parse_addr-display_addr ip h =
    ap read_octets (split-display_addr ip)
    ∙ ground (
      arith,
      read_octet-decimal_byte (ip / 16777216) (omega arith),
      read_octet-decimal_byte (ip / 65536 % 256) (omega arith),
      read_octet-decimal_byte (ip / 256 % 256) (omega arith),
      read_octet-decimal_byte (ip % 256) (omega arith),
      octets-sum ip h,
    )

display_addr-IsPart : (ip : ℕ) → IsPart 47 (display_addr ip)
unfolding display_addr
display_addr-IsPart ip =
    let part = λ (n : ℕ). decimal_byte-IsPart 47 n (omega arith) in
    All-joined (decimal_byte (ip / 16777216)) _ (part (ip / 16777216)) (
      All-joined (decimal_byte (ip / 65536 % 256)) _ (part (ip / 65536 % 256))
        (All-joined (decimal_byte (ip / 256 % 256)) _ (part (ip / 256 % 256)) (part (ip % 256))))
  where
    All-joined : (w s : List ℕ) → IsPart 47 w → IsPart 47 s → IsPart 47 (w ++ 46 ∷ s)
    All-joined w s hw hs = Common.All-append (λ c. (c == 47) ≡ false) w (46 ∷ s) hw (refl, hs)

-- The text of a network with a prefix of at most 32 bits is read back as the network.
pub from_str-display_network :
    (ip m : ℕ) → ip < 2 ^ 32 → m ≤ 32 → from_str (display (new ip m)) ≡ ok (new ip m)
unfolding from_str display from_parts mask_part new
from_str-display_network ip m h hm =
    let bits = (new_mask ip m hm).1 in
    ap (λ k. from_str (display_addr ip ++ 47 ∷ decimal_byte k)) bits
    ∙ ap from_parts (
        split-append 47 (display_addr ip) (decimal_byte m) (display_addr-IsPart ip)
        ∙ ap (◌∷◌ (display_addr ip))
            (split-part 47 (decimal_byte m) (decimal_byte-IsPart 47 m (omega arith))))
    ∙ ground (arith, parse_addr-display_addr ip h, parse_u8-decimal_byte m (omega (arith, hm)))
