-- ===== src/Bridge/Dhcp.antt =====
-- oathgate-bridge/src/net/dhcp.rs and oathgate-bridge/src/config/dhcp.rs: the DHCP server. The
-- messages of the crate dhcproto are a parameter, `Dhcproto`.
pub mod Message
pub mod Pool
pub mod Leases
use oathgate.Common.{
  ℕ, zero, suc, ◌+◌, ◌^◌, List, [], ◌∷◌, ◌++◌, length, ltb, ◌==◌, Bool, true, false, if◌then◌else◌,
  ite, Option, none, some, ℕ_discrete, Outcome, ok, err, panic,
}
use oathgate.Common.HashMap.{HashMap}
use oathgate.Common.HashMap
use oathgate.Net.Mac.{MacAddress, MacAddress-discrete}
use oathgate.Net.Network.{Ipv4Network}
use oathgate.Net.Network

pub record DhcpConfig : Type 0 where
  pub start : ℕ
  pub end : ℕ

pub record DhcpServer : Type 0 where
  pub network : Ipv4Network
  pub lease_time : ℕ
  pub available : List ℕ
  pub leased : HashMap ℕ MacAddress

-- The loop that lists the addresses; `none` means that the fuel ran out.
unfoldable pub list_available : ℕ → ℕ → Ipv4Network → List ℕ → Option (List ℕ)
list_available zero end next_avail available = none
list_available (suc fuel) end next_avail available =
    let available' = available ++ next_avail.ip ∷ [] in
    elim (Network.next next_avail) [
      | none ↦ some available'
      | some nxt ↦ elim (ltb end nxt.ip) [
        | true ↦ some available'
        | false ↦ list_available fuel end nxt available'
      ]
    ]

-- The server that offers the addresses listed, with leases of a day.
unfoldable pub with_available : Ipv4Network → Option (List ℕ) → Option DhcpServer
with_available network none = none
with_available network (some available) = some (record {
  network = network;
  lease_time = 86400;
  available = available;
  leased = HashMap.empty;
})

-- There are 2 ^ 32 addresses to list at most.
unfoldable pub new : Ipv4Network → DhcpConfig → Option DhcpServer
unfolding list_available with_available
new network cfg =
    with_available network (
      list_available (2 ^ 32) cfg.end (Network.new cfg.start (Network.subnet_mask_bits network)) [])

-- `retain(|ip| *ip != ria)`
unfoldable pub retain_ne : ℕ → List ℕ → List ℕ
retain_ne ria [] = []
retain_ne ria (ip ∷ ips) = let rest = retain_ne ria ips in if ip == ria then rest else ip ∷ rest

-- `pop_front`, given the addresses that are available.
unfoldable pub pop_from : DhcpServer → List ℕ → DhcpServer × Option ℕ
pop_from s [] = (s, none)
pop_from s (ip ∷ ips) = (record s { available = ips }, some ip)

unfoldable pub pop_front : DhcpServer → DhcpServer × Option ℕ
unfolding pop_from
pop_front s = pop_from s s.available

unfoldable pub take_requested : DhcpServer → ℕ → DhcpServer × Option ℕ
unfolding retain_ne
take_requested s ria = (record s { available = retain_ne ria s.available }, some ria)

-- The address for a client: the one it asks for, unless another client has it, else the first that is
-- available.
unfoldable pub choose_ip : DhcpServer → MacAddress → Option ℕ → DhcpServer × Option ℕ
unfolding pop_front take_requested
choose_ip s client none = pop_front s
choose_ip s client (some ria) = elim (HashMap.get ℕ_discrete s.leased ria) [
  | none ↦ take_requested s ria
  | some mac ↦ ite (MacAddress-discrete mac client) (take_requested s ria) (pop_front s)
]

unfoldable pub record_lease : MacAddress → DhcpServer × Option ℕ → DhcpServer × Option Ipv4Network
record_lease client (s, none) = (s, none)
record_lease client (s, some ip) = (
  record s { leased = HashMap.insert ℕ_discrete s.leased ip client },
  some (Network.new ip (Network.subnet_mask_bits s.network)),
)

-- `lease_ip`, once the client's address is read.
unfoldable pub lease_to : DhcpServer → MacAddress → Option ℕ → DhcpServer × Option Ipv4Network
unfolding choose_ip record_lease
lease_to s client requested = record_lease client (choose_ip s client requested)
