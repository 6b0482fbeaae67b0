-- ===== src/Net/Network/Ipv6.antt =====
-- oathgate-net/src/types/netaddress.rs: IPv6 networks. An address is its number, below 2 ^ 128.
use Prim.Native.Nat.{bit_and, bit_or, bit_xor}
use oathgate.Common.{
  ℕ, zero, suc, ◌+◌, ◌-◌, ◌%◌, ◌^◌, ◌≤◌, ◌<◌, ◌≡◌, refl, arith, Bool, true, ◌&&◌, ◌||◌, Option,
  none, some, ◌==◌, if◌then◌else◌,
}
use oathgate.Net.Network.{count_digits}

pub record Ipv6Network : Type 0 where
  pub ip : ℕ
  pub mask : ℕ

-- A shift of a `u128` wraps its distance.
unfoldable pub clear_bits : ℕ → ℕ → ℕ → ℕ
clear_bits zero idx subnet = subnet
clear_bits (suc rounds) idx subnet = clear_bits rounds (idx + 1) (bit_xor subnet (2 ^ (idx % 128)))

-- `128 - mask` is a `u8`.
unfoldable pub new : ℕ → ℕ → Ipv6Network
unfolding clear_bits
new ip mask = record { ip = ip; mask = clear_bits ((128 + 256 - mask) % 256) 0 (2 ^ 128 - 1) }

unfoldable pub subnet_mask_bits : Ipv6Network → ℕ
unfolding count_digits
subnet_mask_bits n = count_digits 128 n.mask

unfoldable pub network : Ipv6Network → ℕ
network n = bit_and n.ip n.mask

unfoldable pub broadcast : Ipv6Network → ℕ
broadcast n = bit_or n.ip (2 ^ 128 - 1 - n.mask)

unfoldable pub contains : Ipv6Network → ℕ → Bool
unfolding network
contains n ip = bit_and ip n.mask == network n

unfoldable pub next : Ipv6Network → Option Ipv6Network
unfolding network broadcast new subnet_mask_bits
next n =
    let ip = (n.ip + 1) % 2 ^ 128 in
    if ip == network n || ip == broadcast n then none else some (new ip (subnet_mask_bits n))

masks_below : ℕ → Bool
unfolding new subnet_mask_bits
masks_below zero = true
masks_below (suc m) =
    (new 0 m).mask == 2 ^ 128 - 2 ^ (128 - m) && subnet_mask_bits (new 0 m) == m && masks_below m

masks_checked : masks_below 129 ≡ true
unfolding masks_below
masks_checked = refl

masks_sound :
    (n m : ℕ)
    → masks_below n ≡ true
    → m < n
    → ((new 0 m).mask ≡ 2 ^ 128 - 2 ^ (128 - m)) × (subnet_mask_bits (new 0 m) ≡ m)
unfolding masks_below
masks_sound zero m h lt = absurd (omega arith)
masks_sound (suc n) m h lt = ground (arith, masks_sound n m)

-- The mask of a prefix of at most 128 bits has that many ones, all in front.
pub new_mask :
    (ip m : ℕ)
    → m ≤ 128
    → ((new ip m).mask ≡ 2 ^ 128 - 2 ^ (128 - m)) × (subnet_mask_bits (new ip m) ≡ m)
unfolding new subnet_mask_bits
new_mask ip m h = masks_sound 129 m masks_checked (omega arith)
