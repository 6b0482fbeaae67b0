-- ===== src/Common/Split.antt =====
-- `str::split` on one character, and the numbers of a byte in decimal.
use Prim.Native.Nat.{ℕ, ◌+◌, ◌-◌, ◌*◌, ◌/◌, ◌%◌, ◌<◌}
use mathlib.Core.Path.{◌≡◌, refl}
use mathlib.Core.Bool.{true, false, ◌&&◌}
use mathlib.Core.List.{List, [], ◌∷◌, ◌++◌}
use mathlib.Core.Option.{Option, none, some}
use native.Mathlib.Omega.{arith}
use oathgate.Common.Tests.{ltb, leb, ◌==◌, if◌then◌else◌}
use oathgate.Common.Lists.{All}

unfoldable pub cons_first : ℕ → List (List ℕ) → List (List ℕ)
cons_first c [] = []
cons_first c (w ∷ ws) = (c ∷ w) ∷ ws

unfoldable pub split : ℕ → List ℕ → List (List ℕ)
unfolding cons_first
split sep [] = [] ∷ []
split sep (c ∷ cs) = let rest = split sep cs in if c == sep then [] ∷ rest else cons_first c rest

-- A text without the character.
abbrev pub IsPart : ℕ → List ℕ → Type 0
IsPart sep w = All (λ c. (c == sep) ≡ false) w

pub split-part : (sep : ℕ) (w : List ℕ) → IsPart sep w → split sep w ≡ w ∷ []
unfolding split
split-part sep [] h = refl
split-part sep (c ∷ cs) h = ground (arith, h.0, split-part sep cs h.1)

pub split-append :
    (sep : ℕ) (w s : List ℕ) → IsPart sep w → split sep (w ++ sep ∷ s) ≡ w ∷ split sep s
unfolding split
split-append sep [] s h = ground arith
split-append sep (c ∷ cs) s h = ground (arith, h.0, split-append sep cs s h.1)

-- A byte in decimal.
unfoldable pub decimal_byte : ℕ → List ℕ
decimal_byte n =
    if ltb n 10
    then (48 + n) ∷ []
    else if ltb n 100
    then (48 + n / 10) ∷ (48 + n % 10) ∷ []
    else (48 + n / 100) ∷ (48 + n / 10 % 10) ∷ (48 + n % 10) ∷ []

-- Decimal digits of a number that is a byte, after those that were read.
unfoldable pub read_digits : ℕ → List ℕ → Option ℕ
read_digits acc [] = some acc
read_digits acc (c ∷ cs) =
    let n = acc * 10 + (c - 48) in
    let rest = read_digits n cs in if leb 48 c && leb c 57 && leb n 255 then rest else none

pub read_digits-decimal_byte : (n : ℕ) → n < 256 → read_digits 0 (decimal_byte n) ≡ some n
unfolding read_digits decimal_byte
read_digits-decimal_byte n h = ground arith

digit_ne : (sep x : ℕ) → sep < 48 → (48 + x == sep) ≡ false
digit_ne sep x h = ground (arith, h)

-- The text of a byte has digits only.
pub decimal_byte-IsPart : (sep n : ℕ) → sep < 48 → IsPart sep (decimal_byte n)
unfolding decimal_byte
decimal_byte-IsPart sep n h =
    elim (ltb n 10)
      as (λ b. IsPart sep (
        if b
        then (48 + n) ∷ []
        else if ltb n 100
        then (48 + n / 10) ∷ (48 + n % 10) ∷ []
        else (48 + n / 100) ∷ (48 + n / 10 % 10) ∷ (48 + n % 10) ∷ [])) [
          | true ↦ (digit_ne sep n h, tt)
          | false ↦
              elim (ltb n 100)
                as (λ b. IsPart sep (
                  if b
                  then (48 + n / 10) ∷ (48 + n % 10) ∷ []
                  else (48 + n / 100) ∷ (48 + n / 10 % 10) ∷ (48 + n % 10) ∷ [])) [
                    | true ↦ (digit_ne sep (n / 10) h, (digit_ne sep (n % 10) h, tt))
                    | false ↦ (
                      digit_ne sep (n / 100) h,
                      (digit_ne sep (n / 10 % 10) h, (digit_ne sep (n % 10) h, tt)),
                    )
                  ]
        ]
