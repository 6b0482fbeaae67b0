-- ===== src/Net/Mac.antt =====
-- oathgate-net/src/types/mac.rs: hardware addresses.
pub mod Text
use oathgate.Common.{
  ℕ, ◌≡◌, refl, List, [], ◌∷◌, ◌++◌, length, ite, ℕ_discrete, Bool, true, false, Outcome, ok, err,
}
use oathgate.Net.Error.{ProtocolError, not_enough_data}

-- `[u8; 6]`
pub record MacAddress : Type 0 where
  pub octet0 : ℕ
  pub octet1 : ℕ
  pub octet2 : ℕ
  pub octet3 : ℕ
  pub octet4 : ℕ
  pub octet5 : ℕ

-- `==` on addresses.
unfoldable pub MacAddress-discrete : Discrete MacAddress
MacAddress-discrete = hlevel ℕ_discrete

unfoldable pub broadcast : MacAddress
broadcast = record {
  octet0 = 0xff;
  octet1 = 0xff;
  octet2 = 0xff;
  octet3 = 0xff;
  octet4 = 0xff;
  octet5 = 0xff;
}

unfoldable pub parse : List ℕ → Outcome ProtocolError MacAddress
parse (a ∷ b ∷ c ∷ d ∷ e ∷ f ∷ _) =
    ok (record { octet0 = a; octet1 = b; octet2 = c; octet3 = d; octet4 = e; octet5 = f })
parse bytes = err (not_enough_data (length bytes) 6)

abbrev pub as_bytes : MacAddress → List ℕ
as_bytes m = m.octet0 ∷ m.octet1 ∷ m.octet2 ∷ m.octet3 ∷ m.octet4 ∷ m.octet5 ∷ []

unfoldable pub is_broadcast : MacAddress → Bool
is_broadcast m = ite (MacAddress-discrete m broadcast) true false

pub parse-as_bytes : (m : MacAddress) (rest : List ℕ) → parse (as_bytes m ++ rest) ≡ ok m
unfolding parse
parse-as_bytes m rest = refl
