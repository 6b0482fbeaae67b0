-- ===== src/Net/Checksum/Complement.antt =====
-- What a receiver finds when it adds up the words of a buffer together with its checksum.
use Prim.Native.Nat.{bit_and}
use oathgate.Common.{
  ℕ, ◌+◌, ◌-◌, ◌*◌, ◌/◌, ◌%◌, ◌^◌, ◌≤◌, ◌<◌, ◌≡◌, ap, ◌∙◌, arith, List, length, All, ltb,
  if◌then◌else◌,
}
use native.Mathlib.Nat.{zero-add}
use oathgate.Common.Bits.{bit_and-ones}
use oathgate.Common.Bytes.{IsByte, IsU32}
use oathgate.Net.Checksum.Sums.{word_sum, sum_chunks-word_sum, word_sum-le}
use oathgate.Net.Checksum.{fold_sum, checksum, pseudo_sum, ph_checksum}

pub low_word : (n : ℕ) → bit_and n (2 ^ 16 - 1) ≡ n % 2 ^ 16
low_word n =
    let e : n ≡ n / 2 ^ 16 * 2 ^ 16 + n % 2 ^ 16 = omega arith in
    ap (λ (m : ℕ). bit_and m (2 ^ 16 - 1)) e
    ∙ bit_and-ones 16 (n / 2 ^ 16) (n % 2 ^ 16) (omega arith)

-- The sum of the two halves of a 32-bit sum.
abbrev pub halves : ℕ → ℕ
halves sum = sum % 2 ^ 16 + sum / 2 ^ 16

-- Nothing is left over, unless adding the halves carries again.
fold_sum-complement :
    (sum : ℕ)
    → sum < 2 ^ 32
    → (sum + fold_sum sum) % 65535 ≡ (if ltb (halves sum) (2 ^ 16) then 0 else 1)
unfolding fold_sum
fold_sum-complement sum h = ground (arith, low_word sum, low_word (sum / 2 ^ 16))

-- For at most 65536 bytes, the words of the buffer and the checksum add up to 0 modulo 65535, as
-- the receiver demands, when the two halves of the sum fit 16 bits together; otherwise the carry is
-- lost and they add up to 1.
pub checksum-complement :
    (bytes : List ℕ)
    → All IsByte bytes
    → length bytes ≤ 65536
    → (word_sum bytes + checksum bytes) % 65535
      ≡ (if ltb (halves (word_sum bytes)) (2 ^ 16) then 0 else 1)
unfolding checksum
checksum-complement bytes b h =
    let small : word_sum bytes < 2 ^ 32 = omega (arith, word_sum-le bytes b) in
    rw (sum_chunks-word_sum 0 bytes (omega (arith, small)), zero-add)
      (fold_sum-complement (word_sum bytes) small)

-- The words of the pseudo header: the four halves of the addresses, the protocol and the length.
abbrev pub pseudo_words : ℕ → ℕ → ℕ → ℕ → ℕ
pseudo_words src dst proto n =
    src / 2 ^ 16 + src % 2 ^ 16 + (dst / 2 ^ 16 + dst % 2 ^ 16) + proto + n

pseudo_sum_lem :
    (src dst proto : ℕ) (bytes : List ℕ)
    → IsU32 src
    → IsU32 dst
    → IsByte proto
    → length bytes < 65536
    → pseudo_sum src dst proto bytes ≡ pseudo_words src dst proto (length bytes)
unfolding pseudo_sum
pseudo_sum_lem src dst proto bytes hs hd hp h = rw (low_word (length bytes)) (omega arith)

-- For a segment of at most 65515 bytes, the words of the pseudo header and of the segment and the
-- checksum of both add up to 0 modulo 65535 when the two halves of their sum fit 16 bits together;
-- otherwise they add up to 1.
pub ph_checksum-complement :
    (src dst proto : ℕ) (bytes : List ℕ)
    → IsU32 src
    → IsU32 dst
    → IsByte proto
    → All IsByte bytes
    → length bytes ≤ 65515
    → let sum = pseudo_words src dst proto (length bytes) + word_sum bytes in
      (sum + ph_checksum src dst proto bytes) % 65535 ≡ (if ltb (halves sum) (2 ^ 16) then 0 else 1)
unfolding ph_checksum
ph_checksum-complement src dst proto bytes hs hd hp b h =
    let small : pseudo_words src dst proto (length bytes) + word_sum bytes < 2 ^ 32 =
      omega (arith, word_sum-le bytes b) in
    rw
      (
        pseudo_sum_lem src dst proto bytes hs hd hp (omega arith),
        sum_chunks-word_sum (pseudo_words src dst proto (length bytes)) bytes small,
      )
      (fold_sum-complement (pseudo_words src dst proto (length bytes) + word_sum bytes) small)
