-- ===== src/Bridge/Dhcp/Pool.antt =====
-- The addresses that the server lists when it is made (oathgate-bridge/src/net/dhcp.rs, `new`).
use oathgate.Common.{
  ℕ, zero, suc, ◌+◌, ◌-◌, ◌^◌, ◌≤◌, ◌<◌, ◌≡◌, min, refl, sym, ap, ◌∙◌, arith, List, [], ◌∷◌, ◌++◌,
  none, some, ◌≢◌, All, subst,
}
use mathlib.Core.List.{append_assoc}
use oathgate.Common.HashMap
use oathgate.Common.Bytes.{IsU32}
use oathgate.Net.Network.{Ipv4Network, next, broadcast, subnet_mask_bits}
use oathgate.Net.Network
use oathgate.Net.Network.Prefix.{
  IsNetwork, next_within, IsNetwork-next, new-IsNetwork, subnet_mask_bits-le, broadcast-lt,
}
use oathgate.Bridge.Dhcp.{DhcpServer, DhcpConfig, list_available, with_available, new}
use oathgate.Bridge.Dhcp.Leases.{IsServer, Distinct, holder}

-- The addresses from `first` on, `count` of them.
abbrev pub addresses : ℕ → ℕ → List ℕ
addresses first zero = []
addresses first (suc count) = first ∷ addresses (first + 1) count

-- With as much fuel as there are addresses, the loop lists them all: those from the network's own
-- address to `end`, but none from the broadcast address on.
pub list_available_lem :
    (rounds fuel end k : ℕ) (n : Ipv4Network) (available : List ℕ)
    → IsNetwork n k
    → n.ip ≤ end
    → n.ip < broadcast n
    → n.ip + rounds ≡ min end (broadcast n - 1)
    → rounds < fuel
    → list_available fuel end n available ≡ some (available ++ addresses n.ip (suc rounds))
unfolding list_available
list_available_lem rounds zero end k n available v h b e f = absurd (omega arith)
list_available_lem zero (suc fuel) end k n available v h b e f = ground (arith, next_within v b)
list_available_lem (suc rounds) (suc fuel) end k n available v h b e f =
    let (n', same, v', last) = IsNetwork-next v b in
    let rest : list_available fuel end n' (available ++ n.ip ∷ [])
        ≡ some ((available ++ n.ip ∷ []) ++ addresses n'.ip (suc rounds)) =
      list_available_lem rounds fuel end k n' (available ++ n.ip ∷ []) v' (ground arith)
        (ground arith) (ground arith) (omega arith) in
    ground
      (arith, next_within v b, append_assoc available (n.ip ∷ []) (addresses n'.ip (suc rounds)))

-- The network that the listing starts from.
abbrev pub first_network : Ipv4Network → DhcpConfig → Ipv4Network
first_network network cfg = Network.new cfg.start (subnet_mask_bits network)

module _ (network : Ipv4Network) (cfg : DhcpConfig) where
  new_listed :
      (fuel : ℕ)
      → IsU32 cfg.start
      → cfg.start ≤ cfg.end
      → cfg.start < broadcast (first_network network cfg)
      → 2 ^ 32 ≤ fuel
      → list_available fuel cfg.end (first_network network cfg) []
        ≡ some (
            addresses cfg.start
              (suc (min cfg.end (broadcast (first_network network cfg) - 1) - cfg.start)))
  unfolding Network.new
  new_listed fuel h le b f =
      let v = new-IsNetwork cfg.start (subnet_mask_bits network) h (subnet_mask_bits-le network) in
      list_available_lem (min cfg.end (broadcast (first_network network cfg) - 1) - cfg.start) fuel
        cfg.end (32 - subnet_mask_bits network) (first_network network cfg) [] v le b (omega arith)
        (omega (arith, broadcast-lt v))

  -- A server whose first address is before the broadcast address of its network and not after the last
  -- is made: the loop ends. It offers every address from the first to the last in order, without the
  -- broadcast address and what follows it, and nothing is leased.
  pub new-available :
      IsU32 cfg.start
      → cfg.start ≤ cfg.end
      → cfg.start < broadcast (first_network network cfg)
      → new network cfg
        ≡ some (record {
          network = network;
          lease_time = 86400;
          available =
              addresses cfg.start
                (suc (min cfg.end (broadcast (first_network network cfg) - 1) - cfg.start));
          leased = HashMap.empty;
        })
  unfolding new with_available
  new-available h le b = ap (with_available network) (new_listed (2 ^ 32) h le b (omega arith))

addresses-All :
    (P : ℕ → Type 0) (first count : ℕ)
    → ((ip : ℕ) → first ≤ ip → P ip)
    → All P (addresses first count)
addresses-All P first zero h = tt
addresses-All P first (suc count) h =
    (h first (omega arith), addresses-All P (first + 1) count (λ ip le. h ip (omega arith)))

addresses-Distinct : (first count : ℕ) → Distinct (addresses first count)
addresses-Distinct first zero = tt
addresses-Distinct first (suc count) = (
  addresses-All (λ (y : ℕ). first ≢ y) (first + 1) count (λ ip le e. absurd (omega arith)),
  addresses-Distinct (first + 1) count,
)

-- A server that has just been made keeps the invariant of its leases, if its first address is
-- before the broadcast address of its network and not after the last.
pub new-IsServer :
    (network : Ipv4Network) (cfg : DhcpConfig) (s : DhcpServer)
    → IsU32 cfg.start
    → cfg.start ≤ cfg.end
    → cfg.start < broadcast (first_network network cfg)
    → new network cfg ≡ some s
    → IsServer s
unfolding HashMap.get
new-IsServer network cfg s h le b e = subst IsServer made (record {
  distinct = addresses-Distinct cfg.start count;
  unleased = addresses-All (λ (ip : ℕ). holder offered ip ≡ none) cfg.start count (λ ip le. refl);
})
  where
    count : ℕ
    count = suc (min cfg.end (broadcast (first_network network cfg) - 1) - cfg.start)

    offered : DhcpServer
    offered = record {
      network = network;
      lease_time = 86400;
      available = addresses cfg.start count;
      leased = HashMap.empty;
    }

    made : offered ≡ s
    made = ground (arith, sym (new-available network cfg h le b) ∙ e)
