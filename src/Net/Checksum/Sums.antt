-- ===== src/Net/Checksum/Sums.antt =====
-- The sum of 16-bit words, without wrapping, that the checksum stands for.
use oathgate.Common.{ℕ, ◌+◌, ◌*◌, ◌%◌, ◌^◌, ◌≤◌, ◌<◌, ◌≡◌, arith, List, [], ◌∷◌, ◌++◌, length, All}
use oathgate.Common.Bytes.{be16, IsByte}
use oathgate.Net.Checksum.{sum_chunks}

-- The words of a buffer added up; an odd last byte is the high half of a word.
abbrev pub word_sum : List ℕ → ℕ
word_sum [] = 0
word_sum (b0 ∷ []) = be16 b0 0
word_sum (b0 ∷ b1 ∷ rest) = be16 b0 b1 + word_sum rest

pub sum_chunks-word_sum :
    (sum : ℕ) (bytes : List ℕ)
    → sum + word_sum bytes < 2 ^ 32
    → sum_chunks sum bytes ≡ sum + word_sum bytes
unfolding sum_chunks
sum_chunks-word_sum sum [] h = omega arith
sum_chunks-word_sum sum (b0 ∷ []) h = omega arith
sum_chunks-word_sum sum (b0 ∷ b1 ∷ rest) h =
    let e : (sum + be16 b0 b1) % 2 ^ 32 ≡ sum + be16 b0 b1 = omega arith in
    rw (e, sum_chunks-word_sum (sum + be16 b0 b1) rest (omega arith)) (omega arith)

-- An even number of bytes, so that what follows starts a new word.
abbrev pub IsEven : List ℕ → Type 0
IsEven [] = Unit
IsEven (b0 ∷ []) = ⊥
IsEven (b0 ∷ b1 ∷ rest) = IsEven rest

pub word_sum-append : (xs ys : List ℕ) → IsEven xs → word_sum (xs ++ ys) ≡ word_sum xs + word_sum ys
word_sum-append [] ys h = omega arith
word_sum-append (b0 ∷ []) ys h = absurd h
word_sum-append (b0 ∷ b1 ∷ rest) ys h = omega (arith, word_sum-append rest ys h)

-- `n` bytes add up to less than a word for each.
pub word_sum-le : (bytes : List ℕ) → All IsByte bytes → word_sum bytes ≤ 65535 * length bytes
word_sum-le [] h = omega arith
word_sum-le (b0 ∷ []) h = omega arith
word_sum-le (b0 ∷ b1 ∷ rest) h = omega (arith, word_sum-le rest h.1.1)
