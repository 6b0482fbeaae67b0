-- ===== src/Common/Bytes.antt =====
-- Byte buffers: the `cast!` macros (oathgate-net/src/macros.rs and oathgate-vhost/src/types.rs),
-- `to_be_bytes` and `to_le_bytes`, slices, and `copy_from_slice`. An index or a slice out of range
-- panics.
use Prim.Native.Nat.{ℕ, zero, suc, ◌+◌, ◌-◌, ◌*◌, ◌/◌, ◌%◌, ◌^◌, ◌<◌}
use mathlib.Core.Path.{◌≡◌, refl, ap}
use mathlib.Core.Bool.{◌&&◌}
use mathlib.Core.List.{List, [], ◌∷◌, ◌++◌}
use native.Mathlib.Nat.{pow-suc}
use native.Mathlib.Omega.{arith}
use oathgate.Common.Tests.{leb, ◌==◌, if◌then◌else◌}
use oathgate.Common.Lists.{length, get_elem?, take, drop}
use oathgate.Common.Results.{Outcome, ok, panic, ◌>>=◌, unwrap}

abbrev pub IsByte : ℕ → Type 0
IsByte b = b < 256

abbrev pub IsU16 : ℕ → Type 0
IsU16 n = n < 2 ^ 16

abbrev pub IsU32 : ℕ → Type 0
IsU32 n = n < 2 ^ 32

abbrev pub IsU64 : ℕ → Type 0
IsU64 n = n < 2 ^ 64

-- `u16::from_be_bytes` and `u32::from_be_bytes`.
abbrev pub be16 : ℕ → ℕ → ℕ
be16 a b = a * 256 + b

abbrev pub be32 : ℕ → ℕ → ℕ → ℕ → ℕ
be32 a b c d = a * 2 ^ 24 + b * 2 ^ 16 + c * 2 ^ 8 + d

-- The bytes of `to_be_bytes`, highest first.
abbrev pub be16_bytes : ℕ → List ℕ
be16_bytes n = n / 256 % 256 ∷ n % 256 ∷ []

abbrev pub be32_bytes : ℕ → List ℕ
be32_bytes n = n / 2 ^ 24 % 256 ∷ n / 2 ^ 16 % 256 ∷ n / 2 ^ 8 % 256 ∷ n % 256 ∷ []

-- `from_le_bytes` and `to_le_bytes` at a width of `k` bytes.
unfoldable pub from_le : List ℕ → ℕ
from_le [] = 0
from_le (b ∷ bs) = b + from_le bs * 256

unfoldable pub to_le : ℕ → ℕ → List ℕ
to_le zero n = []
to_le (suc k) n = n % 256 ∷ to_le k (n / 256)

module _ {E : Type 0} where
  abbrev pub index : List ℕ → ℕ → Outcome E ℕ
  index xs i = unwrap (get_elem? xs i)

  -- `&xs[start..end]`
  abbrev pub slice : List ℕ → ℕ → ℕ → Outcome E (List ℕ)
  slice xs start end =
      if leb start end && leb end (length xs)
      then ok (take (end - start) (drop start xs))
      else panic

  -- `&xs[start..]`
  abbrev pub slice_from : List ℕ → ℕ → Outcome E (List ℕ)
  slice_from xs start = if leb start (length xs) then ok (drop start xs) else panic

  -- `cast!(be16, xs[i..i + 2])`, `cast!(be32, xs[i..i + 4])`
  abbrev pub be16_at : List ℕ → ℕ → Outcome E ℕ
  be16_at xs i = do a ← index xs i; b ← index xs (i + 1); ok (be16 a b)

  abbrev pub be32_at : List ℕ → ℕ → Outcome E ℕ
  be32_at xs i = do
    a ← index xs i
    b ← index xs (i + 1)
    c ← index xs (i + 2)
    d ← index xs (i + 3)
    ok (be32 a b c d)

  -- `cast!(u16 | u32 | u64, xs[i..i + k])` for k = 2, 4, 8
  unfoldable pub le_at : ℕ → List ℕ → ℕ → Outcome E ℕ
  unfolding from_le
  le_at k xs i = do w ← slice xs i (i + k); ok (from_le w)

  -- `buf[start..end].copy_from_slice(src)`
  abbrev pub copy_from_slice : List ℕ → ℕ → ℕ → List ℕ → Outcome E (List ℕ)
  copy_from_slice buf start end src =
      if leb start end && leb end (length buf) && length src == end - start
      then ok (take start buf ++ src ++ drop end buf)
      else panic

pub from_le-to_le : (k n : ℕ) → n < 256 ^ k → from_le (to_le k n) ≡ n
unfolding from_le to_le
from_le-to_le zero n h = omega arith
from_le-to_le (suc k) n h =
    let e : 256 ^ suc k ≡ 256 ^ k * 256 = pow-suc 256 k in
    omega (arith, from_le-to_le k (n / 256) (omega (arith, e)))

pub length-to_le : (k n : ℕ) → length (to_le k n) ≡ k
unfolding to_le
length-to_le zero n = refl
length-to_le (suc k) n = ap suc (length-to_le k (n / 256))
