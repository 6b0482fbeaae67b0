-- ===== src/Net/Mac/Text.antt =====
-- oathgate-net/src/types/mac.rs: the text of a hardware address, as a list of character codes.
use oathgate.Common.{
  ℕ, ◌+◌, ◌-◌, ◌*◌, ◌/◌, ◌%◌, ◌<◌, ◌≡◌, refl, ap, ◌∙◌, arith, Bool, false, ◌&&◌, ◌||◌, List, [],
  ◌∷◌, ◌++◌, ltb, leb, ◌==◌, if◌then◌else◌, Option, none, some, All,
}
use oathgate.Common.Bytes.{IsByte}
use oathgate.Net.Mac.{MacAddress}

abbrev pub colon : ℕ
colon = 58

abbrev pub hyphen : ℕ
hyphen = 45

-- A digit of `{:02x}`.
unfoldable pub hex_digit : ℕ → ℕ
hex_digit n = if ltb n 10 then 48 + n else 87 + n

unfoldable pub hex_octet : ℕ → List ℕ → List ℕ
unfolding hex_digit
hex_octet n rest = hex_digit (n / 16) ∷ hex_digit (n % 16) ∷ rest

-- `Display`
unfoldable pub display : MacAddress → List ℕ
unfolding hex_octet
display m = hex_octet m.octet0 (
    colon
    ∷ hex_octet m.octet1 (
        colon
        ∷ hex_octet m.octet2 (
            colon
            ∷ hex_octet m.octet3 (colon ∷ hex_octet m.octet4 (colon ∷ hex_octet m.octet5 [])))))

unfoldable pub is_separator : ℕ → Bool
is_separator c = c == colon || c == hyphen

unfoldable pub cons_first : ℕ → List (List ℕ) → List (List ℕ)
cons_first c [] = (c ∷ []) ∷ []
cons_first c (part ∷ parts) = (c ∷ part) ∷ parts

-- `split(&[':', '-'])`
unfoldable pub split : List ℕ → List (List ℕ)
unfolding is_separator cons_first
split [] = [] ∷ []
split (c ∷ cs) = let rest = split cs in if is_separator c then [] ∷ rest else cons_first c rest

-- A digit to the base 16, of either case.
unfoldable pub digit : ℕ → Option ℕ
digit c =
    if leb 48 c && leb c 57
    then some (c - 48)
    else if leb 97 c && leb c 102
    then some (c - 87)
    else if leb 65 c && leb c 70
    then some (c - 55)
    else none

unfoldable pub add_digit : ℕ → Option ℕ → Option ℕ
add_digit n none = none
add_digit n (some d) = if leb (n * 16 + d) 255 then some (n * 16 + d) else none

-- The digits behind the ones whose number is given; a number above 255 is none.
unfoldable pub digits : Option ℕ → List ℕ → Option ℕ
unfolding digit add_digit
digits none cs = none
digits (some n) [] = some n
digits (some n) (c ∷ cs) = digits (add_digit n (digit c)) cs

-- `u8::from_str_radix(s, 16)`: one sign in front is allowed, no digits are not.
unfoldable pub from_str_radix : List ℕ → Option ℕ
unfolding digits
from_str_radix [] = none
from_str_radix (c ∷ []) = if c == 43 then none else digits (some 0) (c ∷ [])
from_str_radix (c ∷ d ∷ cs) =
    if c == 43 then digits (some 0) (d ∷ cs) else digits (some 0) (c ∷ d ∷ cs)

-- The parts that are numbers; the others are left out.
unfoldable pub filter_map : List (List ℕ) → List ℕ
unfolding from_str_radix
filter_map [] = []
filter_map (part ∷ parts) =
    let rest = filter_map parts in elim (from_str_radix part) [ none ↦ rest | some n ↦ n ∷ rest ]

unfoldable pub from_parts : List ℕ → Option MacAddress
from_parts (a ∷ b ∷ c ∷ d ∷ e ∷ f ∷ []) =
    some (record { octet0 = a; octet1 = b; octet2 = c; octet3 = d; octet4 = e; octet5 = f })
from_parts _ = none

-- The one error is a text that is not six numbers.
unfoldable pub from_str : List ℕ → Option MacAddress
unfolding split filter_map from_parts
from_str s = from_parts (filter_map (split s))

hex_digit-digit : (n : ℕ) → n < 16 → digit (hex_digit n) ≡ some n
unfolding digit hex_digit
hex_digit-digit n h = ground arith

is_separator-hex_digit : (n : ℕ) → n < 16 → is_separator (hex_digit n) ≡ false
unfolding is_separator hex_digit
is_separator-hex_digit n h = ground arith

hex_digit-sign : (n : ℕ) → n < 16 → (hex_digit n == 43) ≡ false
unfolding hex_digit
hex_digit-sign n h = ground arith

abbrev part : ℕ → List ℕ
part n = hex_digit (n / 16) ∷ hex_digit (n % 16) ∷ []

from_str_radix-part : (n : ℕ) → IsByte n → from_str_radix (part n) ≡ some n
unfolding from_str_radix digits add_digit
from_str_radix-part n h =
    ground (arith, hex_digit-sign (n / 16), hex_digit-digit (n / 16), hex_digit-digit (n % 16))

split-octet :
    (n : ℕ) (rest : List ℕ) → IsByte n → split (hex_octet n (colon ∷ rest)) ≡ part n ∷ split rest
unfolding split cons_first hex_octet
split-octet n rest h =
    ground (arith, is_separator-hex_digit (n / 16), is_separator-hex_digit (n % 16))

split-last : (n : ℕ) → IsByte n → split (hex_octet n []) ≡ part n ∷ []
unfolding split cons_first hex_octet
split-last n h = ground (arith, is_separator-hex_digit (n / 16), is_separator-hex_digit (n % 16))

filter_map-part :
    (n : ℕ) (parts : List (List ℕ)) → IsByte n → filter_map (part n ∷ parts) ≡ n ∷ filter_map parts
unfolding filter_map
filter_map-part n parts h = ground (arith, from_str_radix-part n h)

-- The six octets of an address are bytes.
pub record IsMac (m : MacAddress) : Type 0 where
  pub octet0-IsByte : IsByte m.octet0
  pub octet1-IsByte : IsByte m.octet1
  pub octet2-IsByte : IsByte m.octet2
  pub octet3-IsByte : IsByte m.octet3
  pub octet4-IsByte : IsByte m.octet4
  pub octet5-IsByte : IsByte m.octet5

-- One octet in front of the text of others.
filter_map-octet :
    (n : ℕ) (rest : List ℕ) {ns : List ℕ}
    → IsByte n
    → filter_map (split rest) ≡ ns
    → filter_map (split (hex_octet n (colon ∷ rest))) ≡ n ∷ ns
filter_map-octet n rest h e =
    ap filter_map (split-octet n rest h) ∙ filter_map-part n (split rest) h ∙ ap (◌∷◌ n) e

filter_map-last : (n : ℕ) → IsByte n → filter_map (split (hex_octet n [])) ≡ n ∷ []
unfolding filter_map
filter_map-last n h = ap filter_map (split-last n h) ∙ filter_map-part n [] h

-- The text of a hardware address is read back as the address.
pub from_str-display : (m : MacAddress) → IsMac m → from_str (display m) ≡ some m
unfolding from_str display from_parts
from_str-display m v =
    let t5 = hex_octet m.octet5 [] in
    let t4 = hex_octet m.octet4 (colon ∷ t5) in
    let t3 = hex_octet m.octet3 (colon ∷ t4) in
    let t2 = hex_octet m.octet2 (colon ∷ t3) in
    let t1 = hex_octet m.octet1 (colon ∷ t2) in
    ap from_parts (
      filter_map-octet m.octet0 t1 v.octet0-IsByte (
        filter_map-octet m.octet1 t2 v.octet1-IsByte (
          filter_map-octet m.octet2 t3 v.octet2-IsByte (
            filter_map-octet m.octet3 t4 v.octet3-IsByte (
              filter_map-octet m.octet4 t5 v.octet4-IsByte
                (filter_map-last m.octet5 v.octet5-IsByte))))))

split-part :
    (x rest : List ℕ)
    → All (λ (c : ℕ). is_separator c ≡ false) x
    → split (x ++ colon ∷ rest) ≡ x ∷ split rest
unfolding split is_separator cons_first
split-part [] rest plain = refl
split-part (c ∷ x) rest (one, plain) = ground (arith, one, split-part x rest plain)

-- A part that is no number is passed over: what is read is the text behind it.
pub from_str_skips :
    (x rest : List ℕ)
    → All (λ (c : ℕ). is_separator c ≡ false) x
    → from_str_radix x ≡ none
    → from_str (x ++ colon ∷ rest) ≡ from_str rest
unfolding from_str filter_map
from_str_skips x rest plain no_number =
    ap (λ parts. from_parts (filter_map parts)) (split-part x rest plain)
    ∙ ap from_parts (ground (arith, no_number))
