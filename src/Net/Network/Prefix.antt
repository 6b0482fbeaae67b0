-- ===== src/Net/Network/Prefix.antt =====
-- Networks by their prefix: a mask of `m` bits leaves `k = 32 - m` bits for hosts.
use Prim.Native.Nat.{bit_and, bit_or}
use native.Mathlib.Nat.{
  pow-suc, one-le-pow, div-add-mod', mod-lt, div-lt_iff_lt-mul, pow-le-pow_right, mul-div_cancel,
  mul-le-mul_right, div-eq_of_lt-le,
}
use oathgate.Common.{
  ℕ, zero, suc, ◌+◌, ◌-◌, ◌*◌, ◌/◌, ◌%◌, ◌^◌, ◌≤◌, ◌<◌, ◌≡◌, ◌↔◌, ◌≢◌, refl, ap, sym, ◌∙◌, arith,
  Bool, true, ◌&&◌, none, some, ◌==◌, ==_iff, if◌then◌else◌,
}
use mathlib.Core.Path.{ap₂}
use oathgate.Common.Bits.{bit_and-ones, bit_and-shifted, bit_or-ones}
use oathgate.Common.Bytes.{IsU32}
use oathgate.Net.Network.{
  Ipv4Network, new, count_digits, subnet_mask_bits, network, broadcast, contains, next,
}

pow-add : (m k : ℕ) → 2 ^ m * 2 ^ k ≡ 2 ^ (m + k)
pow-add zero k = let e : 0 + k ≡ k = omega arith in rw e (omega arith)
pow-add (suc m) k =
    let e : suc m + k ≡ suc (m + k) = omega arith in
    rw (e, pow-suc 2 m, pow-suc 2 (m + k), ← pow-add m k) (omega arith)

-- Every mask is checked by evaluation.
masks_below : ℕ → Bool
unfolding new subnet_mask_bits
masks_below zero = true
masks_below (suc m) =
    (new 0 m).mask == 2 ^ 32 - 2 ^ (32 - m) && subnet_mask_bits (new 0 m) == m && masks_below m

masks_checked : masks_below 33 ≡ true
unfolding masks_below
masks_checked = refl

masks_sound :
    (n m : ℕ)
    → masks_below n ≡ true
    → m < n
    → ((new 0 m).mask ≡ 2 ^ 32 - 2 ^ (32 - m)) × (subnet_mask_bits (new 0 m) ≡ m)
unfolding masks_below
masks_sound zero m h lt = absurd (omega arith)
masks_sound (suc n) m h lt = ground (arith, masks_sound n m)

pub new_mask :
    (ip m : ℕ)
    → m ≤ 32
    → ((new ip m).mask ≡ 2 ^ 32 - 2 ^ (32 - m)) × (subnet_mask_bits (new ip m) ≡ m)
unfolding new subnet_mask_bits
new_mask ip m h = masks_sound 33 m masks_checked (omega arith)

-- A well-formed network with `k` bits for hosts.
pub record IsNetwork (n : Ipv4Network) (k : ℕ) : Type 0 where
  pub ip-IsU32 : IsU32 n.ip
  pub short : k ≤ 32
  pub mask_lem : n.mask ≡ 2 ^ 32 - 2 ^ k
  pub bits : subnet_mask_bits n ≡ 32 - k

-- `new` on at most 32 mask bits gives a well-formed network, and the mask's length is read back.
pub new-IsNetwork : (ip m : ℕ) → IsU32 ip → m ≤ 32 → IsNetwork (new ip m) (32 - m)
new-IsNetwork ip m hi hm = record {
  ip-IsU32 = unfold new in hi;
  short = omega arith;
  mask_lem = (new_mask ip m hm).0;
  bits = omega (arith, (new_mask ip m hm).1);
}

zero-mul-add : (p h : ℕ) → 0 * p + h ≡ h
zero-mul-add p h = omega arith

-- The prefix of an address, and its first and last address, with `k` host bits.
abbrev pub prefix : ℕ → ℕ → ℕ
prefix k ip = ip / 2 ^ k

abbrev pub first_of : ℕ → ℕ → ℕ
first_of k ip = prefix k ip * 2 ^ k

module _ (k : ℕ) where
  pow_pos : 0 < 2 ^ k
  pow_pos = one-le-pow k 2 (omega arith)

  split_ip : (ip : ℕ) → (prefix k ip * 2 ^ k + ip % 2 ^ k ≡ ip) × (ip % 2 ^ k < 2 ^ k)
  split_ip ip = (div-add-mod' ip (2 ^ k), mod-lt ip pow_pos)

sub_multiple : (m p : ℕ) {n : ℕ} → 0 < m → m * p ≡ n → n - p ≡ (m - 1) * p
sub_multiple zero p h e = absurd (omega arith)
sub_multiple (suc m) p h e = let f : suc m - 1 ≡ m = omega arith in rw f (omega arith)

module _ (k : ℕ) (short : k ≤ 32) where
  pow_split : 2 ^ (32 - k) * 2 ^ k ≡ 2 ^ 32
  pow_split = let e : 32 - k + k ≡ 32 = omega arith in pow-add (32 - k) k ∙ rw e

  mask_split : 2 ^ 32 - 2 ^ k ≡ (2 ^ (32 - k) - 1) * 2 ^ k
  mask_split = sub_multiple (2 ^ (32 - k)) (2 ^ k) (pow_pos (32 - k)) pow_split

  pow-le : 2 ^ k ≤ 2 ^ 32
  pow-le = pow-le-pow_right (omega arith) short

  prefix-lt : (ip : ℕ) → IsU32 ip → prefix k ip < 2 ^ (32 - k)
  prefix-lt ip h = (div-lt_iff_lt-mul (pow_pos k)).1 (rw pow_split h)

  and_mask : (ip : ℕ) → IsU32 ip → bit_and ip (2 ^ 32 - 2 ^ k) ≡ first_of k ip
  and_mask ip h =
      ap₂ bit_and (sym (split_ip k ip).0) mask_split
      ∙ bit_and-shifted k (prefix k ip) (ip % 2 ^ k) (2 ^ (32 - k) - 1) (split_ip k ip).1
      ∙ ap (λ (t : ℕ). t * 2 ^ k)
          (ap (λ (t : ℕ). bit_and t (2 ^ (32 - k) - 1))
              (sym (zero-mul-add (2 ^ (32 - k)) (prefix k ip)))
            ∙ bit_and-ones (32 - k) 0 (prefix k ip) (prefix-lt ip h))

  or_hosts :
      (ip : ℕ) → IsU32 ip → bit_or ip (2 ^ 32 - 1 - (2 ^ 32 - 2 ^ k)) ≡ first_of k ip + (2 ^ k - 1)
  or_hosts ip h =
      ap₂ bit_or (sym (split_ip k ip).0) (omega (arith, pow-le, pow_pos k))
      ∙ bit_or-ones k (prefix k ip) (ip % 2 ^ k) (split_ip k ip).1

module _ {n : Ipv4Network} {k : ℕ} (v : IsNetwork n k) where
  pub network_lem : network n ≡ first_of k n.ip
  unfolding network
  network_lem = rw v.mask_lem (and_mask k v.short n.ip v.ip-IsU32)

  pub broadcast_lem : broadcast n ≡ first_of k n.ip + (2 ^ k - 1)
  unfolding broadcast
  broadcast_lem = rw v.mask_lem (or_hosts k v.short n.ip v.ip-IsU32)

  -- A network's broadcast address is the last with its prefix.
  pub broadcast_last : (ip : ℕ) → prefix k ip ≡ prefix k n.ip → ip ≤ broadcast n
  broadcast_last ip e = rw (broadcast_lem, ← e) (omega (arith, split_ip k ip))

  same_prefix : (a b : ℕ) → (prefix k a * 2 ^ k ≡ prefix k b * 2 ^ k) ↔ (prefix k a ≡ prefix k b)
  same_prefix a b = (
    λ e.
        sym (mul-div_cancel (prefix k a) (pow_pos k))
        ∙ ap (λ (t : ℕ). t / 2 ^ k) e
        ∙ mul-div_cancel (prefix k b) (pow_pos k),
    ap (λ (t : ℕ). t * 2 ^ k),
  )

  -- In a well-formed network, `contains` is true of exactly the IPv4 addresses that share the
  -- network's prefix.
  pub contains_iff : (ip : ℕ) → IsU32 ip → (contains n ip ≡ true) ↔ (prefix k ip ≡ prefix k n.ip)
  unfolding contains
  contains_iff ip h =
      rw (network_lem, v.mask_lem, and_mask k v.short ip h)
        (
          λ e. (same_prefix ip n.ip).0 ((==_iff _ _).0 e),
          λ e. (==_iff _ _).1 ((same_prefix ip n.ip).1 e),
        )

  pub network-le : network n ≤ n.ip
  network-le = rw network_lem (omega (arith, split_ip k n.ip))

  pub broadcast-lt : broadcast n < 2 ^ 32
  broadcast-lt =
      let top : suc (prefix k n.ip) * 2 ^ k ≤ 2 ^ (32 - k) * 2 ^ k =
        mul-le-mul_right (2 ^ k) (prefix-lt k v.short n.ip v.ip-IsU32) in
      rw broadcast_lem (omega (arith, top, pow_split k v.short, pow_pos k))

  same_mask : (ip : ℕ) → (new ip (32 - k)).mask ≡ n.mask
  same_mask ip =
      let e : 32 - (32 - k) ≡ k = omega (arith, v.short) in
      (new_mask ip (32 - k) (omega arith)).0 ∙ rw e (sym v.mask_lem)

  new_same_mask : (ip : ℕ) → new ip (subnet_mask_bits n) ≡ record { ip = ip; mask = n.mask }
  unfolding new
  new_same_mask ip =
      rw v.bits
        (ap (λ (m : ℕ). let r : Ipv4Network = record { ip = ip; mask = m } in r) (same_mask ip))

  -- In a well-formed network, before its broadcast address, `next` is the following address with
  -- the same mask, and nothing if that is the broadcast address.
  pub next_within :
      n.ip < broadcast n
      → next n
        ≡ (if n.ip + 1 == broadcast n then none else some (record { ip = n.ip + 1; mask = n.mask }))
  unfolding next
  next_within h =
      let e : (n.ip + 1) % 2 ^ 32 ≡ n.ip + 1 = omega (arith, broadcast-lt) in
      rw (e, new_same_mask) (ground (arith, network-le))

  -- From the broadcast address of a well-formed network that is not the last one, `next` is the
  -- following address, which the network does not contain.
  pub next_past_broadcast :
      n.ip ≡ broadcast n
      → broadcast n + 1 < 2 ^ 32
      → (next n ≡ some (record { ip = n.ip + 1; mask = n.mask })) × (contains n (n.ip + 1) ≢ true)
  unfolding next
  next_past_broadcast h lt =
      let e : (n.ip + 1) % 2 ^ 32 ≡ n.ip + 1 = omega arith in
      (
        rw (e, new_same_mask) (ground (arith, network-le)),
        λ c.
            let same = (contains_iff (n.ip + 1) (omega arith)).0 c in
            absurd (omega (arith, broadcast_last (n.ip + 1) same)),
      )

-- The addresses from a network's first to its last share their prefix.
pub prefix_between :
    (k ip ip' : ℕ)
    → first_of k ip ≤ ip'
    → ip' ≤ first_of k ip + (2 ^ k - 1)
    → prefix k ip' ≡ prefix k ip
prefix_between k ip ip' lo hi = div-eq_of_lt-le (2 ^ k) lo (omega (arith, pow_pos k))

-- The next address before the broadcast address is in the same network.
pub IsNetwork-next :
    {n : Ipv4Network} {k : ℕ} (v : IsNetwork n k)
    → n.ip < broadcast n
    → (n' : Ipv4Network) × (n' ≡ record { ip = n.ip + 1; mask = n.mask })
      × IsNetwork n' k
      × (broadcast n' ≡ broadcast n)
unfolding subnet_mask_bits
IsNetwork-next {n} {k} v h = (n', refl, v', broadcast_lem v' ∙ rw same (sym (broadcast_lem v)))
  where
    n' : Ipv4Network
    n' = record { ip = n.ip + 1; mask = n.mask }

    v' : IsNetwork n' k
    v' = record {
      ip-IsU32 = omega (arith, broadcast-lt v, h);
      short = v.short;
      mask_lem = v.mask_lem;
      bits = v.bits;
    }

    same : prefix k (n.ip + 1) ≡ prefix k n.ip
    same =
        prefix_between k n.ip (n.ip + 1) (omega (arith, split_ip k n.ip))
          (omega (arith, h, broadcast_lem v))

count_digits-le : (digits n : ℕ) → count_digits digits n ≤ digits
unfolding count_digits
count_digits-le zero n = omega arith
count_digits-le (suc digits) n = omega (arith, count_digits-le digits (n / 2))

-- A mask has 32 bits at most.
pub subnet_mask_bits-le : (n : Ipv4Network) → subnet_mask_bits n ≤ 32
unfolding subnet_mask_bits
subnet_mask_bits-le n = count_digits-le 32 n.mask
