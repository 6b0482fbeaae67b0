-- ===== src/Vhost/Mapping.antt =====
-- oathgate-vhost/src/types.rs and device.rs: addresses of the hypervisor translated to the guest's.
-- Sums of addresses wrap at 2 ^ 64.
pub mod Translation
use oathgate.Common.{
  ℕ, ◌+◌, ◌-◌, ◌%◌, ◌^◌, ◌&&◌, List, [], ◌∷◌, leb, if◌then◌else◌, Option, none, some, Outcome,
  ok_or,
}
use oathgate.Vhost.Error.{MemoryError, no_host_to_guest_mapping_found}

pub record GuestMapping : Type 0 where
  pub host_start : ℕ
  pub host_end : ℕ
  pub guest : ℕ
  pub size : ℕ

unfoldable pub new : ℕ → ℕ → ℕ → GuestMapping
new host guest size = record {
  host_start = host;
  host_end = (host + size) % 2 ^ 64;
  guest = guest;
  size = size;
}

unfoldable pub guest_addr : GuestMapping → ℕ → Option ℕ
guest_addr m vmm =
    if leb m.host_start vmm && leb vmm m.host_end
    then some ((vmm - m.host_start + m.guest) % 2 ^ 64)
    else none

-- `find_map` over the mappings: the first that knows the address.
unfoldable pub find_guest_addr : List GuestMapping → ℕ → Option ℕ
unfolding guest_addr
find_guest_addr [] vmm = none
find_guest_addr (m ∷ ms) vmm =
    let rest = find_guest_addr ms vmm in elim (guest_addr m vmm) [ some a ↦ some a | none ↦ rest ]

unfoldable pub compute_guest_address : List GuestMapping → ℕ → Outcome MemoryError ℕ
unfolding find_guest_addr
compute_guest_address mappings vmm =
    ok_or (find_guest_addr mappings vmm) (no_host_to_guest_mapping_found vmm)
