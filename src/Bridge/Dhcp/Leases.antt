-- ===== src/Bridge/Dhcp/Leases.antt =====
-- Which client an address is leased to (oathgate-bridge/src/net/dhcp.rs, `lease_ip`).
use oathgate.Common.{
  ℕ, ◌≡◌, ◌≢◌, ◌⊎◌, inl, inr, refl, sym, ap, subst, ◌∙◌, ite, arith, List, [], ◌∷◌, All, Option,
  none, some, ℕ_discrete,
}
use oathgate.Common.HashMap.{get-insert, get-insert_self, get-insert_ne}
use oathgate.Common.HashMap
use oathgate.Net.Mac.{MacAddress}
use oathgate.Net.Network.{Ipv4Network}
use oathgate.Net.Network
use oathgate.Bridge.Dhcp.{
  DhcpServer, lease_to, choose_ip, record_lease, retain_ne, pop_from, pop_front, take_requested,
}

-- Who has an address.
abbrev pub holder : DhcpServer → ℕ → Option MacAddress
holder s ip = HashMap.get ℕ_discrete s.leased ip

abbrev pub Distinct : List ℕ → Type 0
Distinct [] = Unit
Distinct (x ∷ xs) = All (λ (y : ℕ). x ≢ y) xs × Distinct xs

-- No address is available twice, and nobody has one that is available.
pub record IsServer (s : DhcpServer) : Type 0 where
  pub distinct : Distinct s.available
  pub unleased : All (λ ip. holder s ip ≡ none) s.available

retain_ne-All : (P : ℕ → Type 0) (ria : ℕ) (ips : List ℕ) → All P ips → All P (retain_ne ria ips)
unfolding retain_ne
retain_ne-All P ria [] h = tt
retain_ne-All P ria (ip ∷ ips) h = ground (arith, retain_ne-All P ria ips)

retain_ne-Distinct : (ria : ℕ) (ips : List ℕ) → Distinct ips → Distinct (retain_ne ria ips)
unfolding retain_ne
retain_ne-Distinct ria [] h = tt
retain_ne-Distinct ria (ip ∷ ips) h =
    ground (arith, retain_ne-Distinct ria ips h.1, retain_ne-All (λ (y : ℕ). ip ≢ y) ria ips h.0)

retain_ne_ne : (ria : ℕ) (ips : List ℕ) → All (λ (y : ℕ). ria ≢ y) (retain_ne ria ips)
unfolding retain_ne
retain_ne_ne ria [] = tt
retain_ne_ne ria (ip ∷ ips) = ground (arith, retain_ne_ne ria ips)

-- Entering a lease for an address that is not among those available keeps them unleased.
unleased-insert :
    (m : HashMap.HashMap ℕ MacAddress) (ip : ℕ) (client : MacAddress) (ips : List ℕ)
    → All (λ (y : ℕ). ip ≢ y) ips
    → All (λ (y : ℕ). HashMap.get ℕ_discrete m y ≡ none) ips
    → All (λ (y : ℕ). HashMap.get ℕ_discrete (HashMap.insert ℕ_discrete m ip client) y ≡ none) ips
unleased-insert m ip client [] h u = tt
unleased-insert m ip client (x ∷ ips) h u =
    (get-insert_ne ℕ_discrete m ip x client h.0 ∙ u.0, unleased-insert m ip client ips h.1 u.1)

-- What a choice of an address leaves: the address chosen is no longer available, and the leases are
-- untouched.
record IsChoice (s : DhcpServer) (c : DhcpServer × Option ℕ) : Type 0 where
  kept : IsServer c.0
  leases : c.0.leased ≡ s.leased
  apart : (ip : ℕ) → c.1 ≡ some ip → All (λ (y : ℕ). ip ≢ y) c.0.available
  bits : c.0.network ≡ s.network

pop_from-IsChoice :
    (s : DhcpServer) (ips : List ℕ)
    → IsServer s
    → Distinct ips
    → All (λ ip. holder s ip ≡ none) ips
    → IsChoice s (pop_from s ips)
unfolding pop_from
pop_from-IsChoice s [] v d u = record {
  kept = v;
  leases = refl;
  apart = λ ip e. absurd (ground arith);
  bits = refl;
}
pop_from-IsChoice s (ip ∷ ips) v d u = record {
  kept = record { distinct = d.1; unleased = u.1 };
  leases = refl;
  apart = λ ip' e. subst (λ (x : ℕ). All (λ (y : ℕ). x ≢ y) ips) (ground arith) d.0;
  bits = refl;
}

pop_front-IsChoice : (s : DhcpServer) → IsServer s → IsChoice s (pop_front s)
unfolding pop_front
pop_front-IsChoice s v = pop_from-IsChoice s s.available v v.distinct v.unleased

take_requested-IsChoice :
    (s : DhcpServer) (ria : ℕ) → IsServer s → IsChoice s (take_requested s ria)
unfolding take_requested
take_requested-IsChoice s ria v = record {
  kept = record {
    distinct = retain_ne-Distinct ria s.available v.distinct;
    unleased = retain_ne-All (λ ip. holder s ip ≡ none) ria s.available v.unleased;
  };
  leases = refl;
  apart = λ ip e.
      subst (λ (x : ℕ). All (λ (y : ℕ). x ≢ y) (retain_ne ria s.available)) (ground arith)
        (retain_ne_ne ria s.available);
  bits = refl;
}

choose_ip-IsChoice :
    (s : DhcpServer) (client : MacAddress) (requested : Option ℕ)
    → IsServer s
    → IsChoice s (choose_ip s client requested)
unfolding choose_ip
choose_ip-IsChoice s client none v = pop_front-IsChoice s v
choose_ip-IsChoice s client (some ria) v =
    ground (arith, pop_front-IsChoice s v, take_requested-IsChoice s ria v)

record_lease-IsServer :
    (s : DhcpServer) (client : MacAddress) (c : DhcpServer × Option ℕ)
    → IsChoice s c
    → IsServer (record_lease client c).0
unfolding record_lease
record_lease-IsServer s client (s', none) v = v.kept
record_lease-IsServer s client (s', some ip) v = record {
  distinct = v.kept.distinct;
  unleased = unleased-insert s'.leased ip client s'.available (v.apart ip refl) v.kept.unleased;
}

-- Leasing keeps the invariant, whoever asks and for whatever address: no address is available
-- twice, and nobody has one that is available.
pub lease_to-IsServer :
    (s : DhcpServer) (client : MacAddress) (requested : Option ℕ)
    → IsServer s
    → IsServer (lease_to s client requested).0
unfolding lease_to
lease_to-IsServer s client requested v =
    record_lease-IsServer s client (choose_ip s client requested)
      (choose_ip-IsChoice s client requested v)

popped_free :
    (s : DhcpServer) (ips : List ℕ) (ip : ℕ)
    → All (λ ip. holder s ip ≡ none) ips
    → (pop_from s ips).1 ≡ some ip
    → holder s ip ≡ none
unfolding pop_from
popped_free s [] ip u e = absurd (ground arith)
popped_free s (x ∷ ips) ip u e = subst (λ (y : ℕ). holder s y ≡ none) (ground arith) u.0

-- An address that is chosen is nobody's, or the client's own.
chosen_free :
    (s : DhcpServer) (client : MacAddress) (requested : Option ℕ) (ip : ℕ)
    → IsServer s
    → (choose_ip s client requested).1 ≡ some ip
    → (holder s ip ≡ none) ⊎ (holder s ip ≡ some client)
unfolding choose_ip pop_front take_requested
chosen_free s client none ip v e = inl (popped_free s s.available ip v.unleased e)
chosen_free s client (some ria) ip v e = ground (arith, popped_free s s.available ip v.unleased)

recorded :
    (s : DhcpServer) (client : MacAddress) (c : DhcpServer × Option ℕ) (n : Ipv4Network)
    → IsChoice s c
    → ((ip : ℕ) → c.1 ≡ some ip → (holder s ip ≡ none) ⊎ (holder s ip ≡ some client))
    → (record_lease client c).1 ≡ some n
    → ((holder s n.ip ≡ none) ⊎ (holder s n.ip ≡ some client))
      × (holder (record_lease client c).0 n.ip ≡ some client)
      × ((ip : ℕ) → n.ip ≢ ip → holder (record_lease client c).0 ip ≡ holder s ip)
unfolding record_lease Network.new
recorded s client (s', none) n v free e = absurd (ground arith)
recorded s client (s', some ip) n v free e =
    let same : ip ≡ n.ip = ground arith in
    (
      subst (λ (x : ℕ). (holder s x ≡ none) ⊎ (holder s x ≡ some client)) same (free ip refl),
      subst
          (λ (x : ℕ).
            HashMap.get ℕ_discrete (HashMap.insert ℕ_discrete s'.leased ip client) x ≡ some client)
          same (get-insert_self ℕ_discrete s'.leased ip client),
      λ ip' ne.
          get-insert_ne ℕ_discrete s'.leased ip ip' client (λ r. ne (sym same ∙ r))
          ∙ ap (λ m. HashMap.get ℕ_discrete m ip') v.leases,
    )

-- In a server that keeps its invariant, a lease is given for an address that nobody has or that
-- the client has itself: no client loses an address to another. The client has it afterwards, and
-- every other address is whose it was.
pub lease_to_lem :
    (s : DhcpServer) (client : MacAddress) (requested : Option ℕ) (n : Ipv4Network) (ip : ℕ)
    → IsServer s
    → (lease_to s client requested).1 ≡ some n
    → ((holder s n.ip ≡ none) ⊎ (holder s n.ip ≡ some client))
      × (holder (lease_to s client requested).0 ip
          ≡ ite (ℕ_discrete n.ip ip) (some client) (holder s ip))
unfolding lease_to
lease_to_lem s client requested n ip v e =
    let (free, own, others) =
      recorded s client (choose_ip s client requested) n (choose_ip-IsChoice s client requested v)
        (λ ip. chosen_free s client requested ip v) e in
    (
      free,
      elim (ℕ_discrete n.ip ip)
          as (λ d. holder (lease_to s client requested).0 ip ≡ ite d (some client) (holder s ip)) [
            | yes same ↦
                subst (λ (x : ℕ). holder (lease_to s client requested).0 x ≡ some client) same own
            | no ne ↦ others ip ne
          ],
    )

-- A client that asks for an address that nobody has, or that it has itself, is given that address,
-- with the mask of the server's network.
pub lease_to_requested :
    (s : DhcpServer) (client : MacAddress) (ria : ℕ)
    → (holder s ria ≡ none) ⊎ (holder s ria ≡ some client)
    → (lease_to s client (some ria)).1 ≡ some (Network.new ria (Network.subnet_mask_bits s.network))
unfolding lease_to choose_ip take_requested record_lease
lease_to_requested s client ria (inl h) = ground arith
lease_to_requested s client ria (inr h) = ground arith

-- A client that asks for an address that another client has is served as if it had asked for none: it
-- gets the first address that is available, which is taken from the list and entered as its own; if
-- none is, it gets nothing and the server stays as it is.
pub lease_to_first :
    (s : DhcpServer) (client other : MacAddress) (ria : ℕ)
    → holder s ria ≡ some other
    → other ≢ client
    → (lease_to s client (some ria) ≡ lease_to s client none)
      × (lease_to s client none ≡ elim s.available [
        | [] ↦ (s, none)
        | ip ∷ ips ↦ (
          record s { available = ips; leased = HashMap.insert ℕ_discrete s.leased ip client },
          some (Network.new ip (Network.subnet_mask_bits s.network)),
        )
      ])
unfolding lease_to choose_ip pop_front pop_from record_lease
lease_to_first s client other ria h ne = (ground arith, ground arith)
