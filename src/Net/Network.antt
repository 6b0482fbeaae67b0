-- ===== src/Net/Network.antt =====
-- oathgate-net/src/types/netaddress.rs: IPv4 networks. An address is its number, below 2 ^ 32.
pub mod Prefix
pub mod Text
pub mod Ipv6
use Prim.Native.Nat.{bit_and, bit_or, bit_xor}
use oathgate.Common.{
  ℕ, zero, suc, ◌+◌, ◌-◌, ◌/◌, ◌%◌, ◌^◌, Bool, ◌||◌, Option, none, some, ◌==◌, if◌then◌else◌,
}

pub record Ipv4Network : Type 0 where
  pub ip : ℕ
  pub mask : ℕ

-- `for idx in idx..end { subnet = subnet ^ (1 << idx) }`, by the rounds left. A shift of a `u32`
-- wraps its distance.
unfoldable pub clear_bits : ℕ → ℕ → ℕ → ℕ
clear_bits zero idx subnet = subnet
clear_bits (suc rounds) idx subnet = clear_bits rounds (idx + 1) (bit_xor subnet (2 ^ (idx % 32)))

-- `32 - mask` is a `u8`.
unfoldable pub new : ℕ → ℕ → Ipv4Network
unfolding clear_bits
new ip mask = record { ip = ip; mask = clear_bits ((32 + 256 - mask) % 256) 0 (2 ^ 32 - 1) }

-- `u32::count_ones`, over the digits left.
unfoldable pub count_digits : ℕ → ℕ → ℕ
count_digits zero n = 0
count_digits (suc digits) n = n % 2 + count_digits digits (n / 2)

unfoldable pub subnet_mask_bits : Ipv4Network → ℕ
unfolding count_digits
subnet_mask_bits n = count_digits 32 n.mask

unfoldable pub network : Ipv4Network → ℕ
network n = bit_and n.ip n.mask

unfoldable pub broadcast : Ipv4Network → ℕ
broadcast n = bit_or n.ip (2 ^ 32 - 1 - n.mask)

unfoldable pub contains : Ipv4Network → ℕ → Bool
unfolding network
contains n ip = bit_and ip n.mask == network n

unfoldable pub next : Ipv4Network → Option Ipv4Network
next n =
    let ip = (n.ip + 1) % 2 ^ 32 in
    if ip == network n || ip == broadcast n then none else some (new ip (subnet_mask_bits n))

-- `Ipv4Addr::is_broadcast`
abbrev pub is_broadcast : ℕ → Bool
is_broadcast ip = ip == 2 ^ 32 - 1
