-- ===== src/Vhost/Mapping/Translation.antt =====
-- What the translation of addresses finds.
use oathgate.Common.{
  ℕ, ◌+◌, ◌^◌, ◌≡◌, ◌<◌, ◌⊎◌, inl, inr, refl, arith, List, [], ◌∷◌, ◌++◌, All, none, ok, err,
}
use oathgate.Vhost.Error.{no_host_to_guest_mapping_found}
use oathgate.Vhost.Mapping.{GuestMapping, new, guest_addr, find_guest_addr, compute_guest_address}

-- An address that a mapping does not answer for.
abbrev pub Outside : ℕ → GuestMapping → Type 0
Outside vmm m = (vmm < m.host_start) ⊎ (m.host_end < vmm)

guest_addr-Outside : (m : GuestMapping) (vmm : ℕ) → Outside vmm m → guest_addr m vmm ≡ none
unfolding guest_addr
guest_addr-Outside m vmm (inl h) = ground arith
guest_addr-Outside m vmm (inr h) = ground arith

find_guest_addr-append :
    (before after : List GuestMapping) (vmm : ℕ)
    → All (Outside vmm) before
    → find_guest_addr (before ++ after) vmm ≡ find_guest_addr after vmm
unfolding find_guest_addr
find_guest_addr-append [] after vmm h = refl
find_guest_addr-append (m ∷ before) after vmm h =
    ground (arith, guest_addr-Outside m vmm h.0, find_guest_addr-append before after vmm h.1)

-- An address inside a region is translated to the same offset in the guest's region, if no mapping
-- entered before answers for it and neither region reaches 2 ^ 64, wherever the region's mapping
-- stands in the list.
pub compute_guest_address_inside :
    (before after : List GuestMapping) (host guest size offset : ℕ)
    → host + size < 2 ^ 64
    → guest + size < 2 ^ 64
    → offset < size
    → All (Outside (host + offset)) before
    → compute_guest_address (before ++ new host guest size ∷ after) (host + offset)
      ≡ ok (guest + offset)
unfolding compute_guest_address find_guest_addr guest_addr new
compute_guest_address_inside before after host guest size offset hh hg ho hb =
    ground (arith, find_guest_addr-append before (new host guest size ∷ after) (host + offset) hb)

find_guest_addr-Outside :
    (mappings : List GuestMapping) (vmm : ℕ)
    → All (Outside vmm) mappings
    → find_guest_addr mappings vmm ≡ none
unfolding find_guest_addr
find_guest_addr-Outside [] vmm h = refl
find_guest_addr-Outside (m ∷ ms) vmm h =
    ground (arith, guest_addr-Outside m vmm h.0, find_guest_addr-Outside ms vmm h.1)

-- An address that no mapping answers for is an error that names it.
pub compute_guest_address-Outside :
    (mappings : List GuestMapping) (vmm : ℕ)
    → All (Outside vmm) mappings
    → compute_guest_address mappings vmm ≡ err (no_host_to_guest_mapping_found vmm)
unfolding compute_guest_address
compute_guest_address-Outside mappings vmm h =
    ground (arith, find_guest_addr-Outside mappings vmm h)

-- Of two regions below 2 ^ 64 that follow each other, the mapping entered first answers for the
-- address where the second begins: the translation is the end of the first in the guest, wherever
-- the second lies there.
pub compute_guest_address_adjacent :
    (host guest size guest' size' : ℕ) (after : List GuestMapping)
    → host + size < 2 ^ 64
    → guest + size < 2 ^ 64
    → compute_guest_address
        (new host guest size ∷ new (host + size) guest' size' ∷ after)
        (host + size)
      ≡ ok (guest + size)
unfolding compute_guest_address find_guest_addr guest_addr new
compute_guest_address_adjacent host guest size guest' size' after hh hg = ground arith
