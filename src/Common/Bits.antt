-- ===== src/Common/Bits.antt =====
-- Laws of `&` and `|` at variables, digit by digit. A shift is a product or a quotient by `2 ^ k`,
-- and a mask of `k` ones is `2 ^ k - 1`.
use Prim.Native.Nat.{
  ℕ, zero, suc, ◌+◌, ◌-◌, ◌*◌, ◌/◌, ◌%◌, ◌^◌, ◌≤◌, ◌<◌, min, max, digits, bit_and, bit_or,
  bit_and-bitwise, bit_or-bitwise,
}
use mathlib.Core.Path.{◌≡◌, refl, ap, ◌∙◌}
use native.Mathlib.Nat.{pow-suc}
use native.Mathlib.Omega.{arith}

module _ (rest : ℕ → ℕ) (op : ℕ → ℕ → ℕ) where
  -- One round more than the first number needs changes nothing.
  one_more :
      (rounds x y : ℕ) → x ≤ rounds → digits rest op (suc rounds) x y ≡ digits rest op rounds x y
  one_more zero zero y h = refl
  one_more zero (suc x) y h = absurd (omega arith)
  one_more (suc rounds) zero y h = refl
  one_more (suc rounds) (suc x) y h =
      let shorter = one_more rounds (suc x / 2) (y / 2) (omega arith) in
      ap (λ (t : ℕ). t * 2 + op (suc x % 2) (y % 2)) shorter

  -- Neither do any number of rounds more.
  many_more :
      (spare rounds x y : ℕ)
      → x ≤ rounds
      → digits rest op (spare + rounds) x y ≡ digits rest op rounds x y
  many_more zero rounds x y h =
      let e : 0 + rounds ≡ rounds = omega arith in ap (λ (t : ℕ). digits rest op t x y) e
  many_more (suc spare) rounds x y h =
      let e : suc spare + rounds ≡ suc (spare + rounds) = omega arith in
      ap (λ (t : ℕ). digits rest op t x y) e
      ∙ one_more (spare + rounds) x y (omega arith)
      ∙ many_more spare rounds x y h

  lower_half : (x y : ℕ) → digits rest op x (suc x / 2) y ≡ digits rest op (suc x / 2) (suc x / 2) y
  lower_half x y =
      let e : x ≡ x - suc x / 2 + suc x / 2 = omega arith in
      ap (λ (t : ℕ). digits rest op t (suc x / 2) y) e
      ∙ many_more (x - suc x / 2) (suc x / 2) (suc x / 2) y (omega arith)

-- Both operations work on the last digit and on what is before it.
pub bit_or_step : (x y : ℕ) → bit_or x y ≡ bit_or (x / 2) (y / 2) * 2 + max (x % 2) (y % 2)
bit_or_step zero y =
    let whole = bit_or-bitwise 0 y in
    let half = bit_or-bitwise 0 (y / 2) in omega (arith, whole, half)
bit_or_step (suc x) y =
    let whole = bit_or-bitwise (suc x) y in
    let half = bit_or-bitwise (suc x / 2) (y / 2) in
    omega (arith, whole, half, lower_half (λ t. t) max x (y / 2))

pub bit_and_step : (x y : ℕ) → bit_and x y ≡ bit_and (x / 2) (y / 2) * 2 + min (x % 2) (y % 2)
bit_and_step zero y =
    let whole = bit_and-bitwise 0 y in
    let half = bit_and-bitwise 0 (y / 2) in omega (arith, whole, half)
bit_and_step (suc x) y =
    let whole = bit_and-bitwise (suc x) y in
    let half = bit_and-bitwise (suc x / 2) (y / 2) in
    omega (arith, whole, half, lower_half (λ t. zero) min x (y / 2))

-- Zero clears a number, and leaves it when it is joined.
with_zero : (bound x : ℕ) → x ≤ bound → (bit_and x 0 ≡ 0) × (bit_or x 0 ≡ x)
with_zero bound zero h = (refl, refl)
with_zero zero (suc x) h = absurd (omega arith)
with_zero (suc bound) (suc x) h =
    let (cleared, kept) = with_zero bound (suc x / 2) (omega arith) in
    (omega (arith, bit_and_step (suc x) 0, cleared), omega (arith, bit_or_step (suc x) 0, kept))

pub bit_and-zero : (x : ℕ) → bit_and x 0 ≡ 0
bit_and-zero x = (with_zero x x (omega arith)).0

pub bit_or-zero : (x : ℕ) → bit_or x 0 ≡ x
bit_or-zero x = (with_zero x x (omega arith)).1

-- A mask of `k` ones keeps the low `k` digits.
pub bit_and-ones : (k h l : ℕ) → l < 2 ^ k → bit_and (h * 2 ^ k + l) (2 ^ k - 1) ≡ l
bit_and-ones zero h l p = omega (arith, bit_and-zero (h * 2 ^ 0 + l))
bit_and-ones (suc k) h l p =
    let e : 2 ^ suc k ≡ 2 ^ k * 2 = pow-suc 2 k in
    let low : l / 2 < 2 ^ k = omega (arith, e) in
    let half : (h * 2 ^ suc k + l) / 2 ≡ h * 2 ^ k + l / 2 = rw e (omega arith) in
    let mask : (2 ^ suc k - 1) / 2 ≡ 2 ^ k - 1 = omega (arith, e, low) in
    let last : (h * 2 ^ suc k + l) % 2 ≡ l % 2 = rw e (omega arith) in
    let one : (2 ^ suc k - 1) % 2 ≡ 1 = omega (arith, e, low) in
    bit_and_step (h * 2 ^ suc k + l) (2 ^ suc k - 1)
    ∙ rw (half, mask, last, one) (omega (arith, bit_and-ones k h (l / 2) low))

-- A mask shifted by `k` clears the low `k` digits.
pub bit_and-shifted :
    (k h l m : ℕ) → l < 2 ^ k → bit_and (h * 2 ^ k + l) (m * 2 ^ k) ≡ bit_and h m * 2 ^ k
bit_and-shifted zero h l m p =
    let e : h * 2 ^ 0 + l ≡ h = omega arith in
    let f : m * 2 ^ 0 ≡ m = omega arith in rw (e, f) (omega arith)
bit_and-shifted (suc k) h l m p =
    let e : 2 ^ suc k ≡ 2 ^ k * 2 = pow-suc 2 k in
    let low : l / 2 < 2 ^ k = omega (arith, e) in
    let half : (h * 2 ^ suc k + l) / 2 ≡ h * 2 ^ k + l / 2 = rw e (omega arith) in
    let mask : m * 2 ^ suc k / 2 ≡ m * 2 ^ k = rw e (omega arith) in
    let one : m * 2 ^ suc k % 2 ≡ 0 = rw e (omega arith) in
    bit_and_step (h * 2 ^ suc k + l) (m * 2 ^ suc k)
    ∙ rw (half, mask, one, e, bit_and-shifted k h (l / 2) m low) (omega arith)

-- Joining a shifted number and one that fits below it.
pub bit_or-shifted :
    (k h l m : ℕ) → l < 2 ^ k → bit_or (h * 2 ^ k) (m * 2 ^ k + l) ≡ bit_or h m * 2 ^ k + l
bit_or-shifted zero h l m p =
    let e : m * 2 ^ 0 + l ≡ m = omega arith in
    let f : h * 2 ^ 0 ≡ h = omega arith in rw (e, f) (omega arith)
bit_or-shifted (suc k) h l m p =
    let e : 2 ^ suc k ≡ 2 ^ k * 2 = pow-suc 2 k in
    let low : l / 2 < 2 ^ k = omega (arith, e) in
    let half : (m * 2 ^ suc k + l) / 2 ≡ m * 2 ^ k + l / 2 = rw e (omega arith) in
    let mask : h * 2 ^ suc k / 2 ≡ h * 2 ^ k = rw e (omega arith) in
    let one : h * 2 ^ suc k % 2 ≡ 0 = rw e (omega arith) in
    let last : (m * 2 ^ suc k + l) % 2 ≡ l % 2 = rw e (omega arith) in
    bit_or_step (h * 2 ^ suc k) (m * 2 ^ suc k + l)
    ∙ rw (half, mask, one, last, e, bit_or-shifted k h (l / 2) m low) (omega arith)

-- Setting the low `k` digits.
pub bit_or-ones :
    (k h l : ℕ) → l < 2 ^ k → bit_or (h * 2 ^ k + l) (2 ^ k - 1) ≡ h * 2 ^ k + (2 ^ k - 1)
bit_or-ones zero h l p = omega (arith, bit_or-zero (h * 2 ^ 0 + l))
bit_or-ones (suc k) h l p =
    let e : 2 ^ suc k ≡ 2 ^ k * 2 = pow-suc 2 k in
    let low : l / 2 < 2 ^ k = omega (arith, e) in
    let half : (h * 2 ^ suc k + l) / 2 ≡ h * 2 ^ k + l / 2 = rw e (omega arith) in
    let mask : (2 ^ suc k - 1) / 2 ≡ 2 ^ k - 1 = omega (arith, e, low) in
    let one : (2 ^ suc k - 1) % 2 ≡ 1 = omega (arith, e, low) in
    bit_or_step (h * 2 ^ suc k + l) (2 ^ suc k - 1)
    ∙ rw (half, mask, one, e, bit_or-ones k h (l / 2) low) (omega (arith, low))
