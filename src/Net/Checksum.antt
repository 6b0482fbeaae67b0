-- ===== src/Net/Checksum.antt =====
-- oathgate-net/src/lib.rs: the Internet checksum, plain and over the TCP/UDP pseudo header.
pub mod Sums
pub mod Complement
use Prim.Native.Nat.{bit_and}
use oathgate.Common.{ℕ, ◌+◌, ◌-◌, ◌*◌, ◌/◌, ◌%◌, ◌^◌, List, [], ◌∷◌, length}
use oathgate.Common.Bytes.{be16}

-- The loop over `data.chunks(2)`: a `u32` sum, an odd last byte padded by zero.
unfoldable pub sum_chunks : ℕ → List ℕ → ℕ
sum_chunks sum [] = sum
sum_chunks sum (b0 ∷ []) = (sum + be16 b0 0) % 2 ^ 32
sum_chunks sum (b0 ∷ b1 ∷ rest) = sum_chunks ((sum + be16 b0 b1) % 2 ^ 32) rest

-- `!(((sum & 0xFFFF) + ((sum >> 16) & 0xFFFF)) as u16)`
unfoldable pub fold_sum : ℕ → ℕ
fold_sum sum =
    2 ^ 16 - 1 - (bit_and sum (2 ^ 16 - 1) + bit_and (sum / 2 ^ 16) (2 ^ 16 - 1)) % 2 ^ 16

unfoldable pub checksum : List ℕ → ℕ
unfolding sum_chunks fold_sum
checksum bytes = fold_sum (sum_chunks 0 bytes)

-- The sum of the pseudo header: both addresses, the protocol and the length.
unfoldable pub pseudo_sum : ℕ → ℕ → ℕ → List ℕ → ℕ
pseudo_sum src dst proto bytes =
    (src % 2 ^ 16
      + src / 2 ^ 16
      + dst % 2 ^ 16
      + dst / 2 ^ 16
      + proto
      + bit_and (length bytes) (2 ^ 16 - 1))
    % 2 ^ 32

unfoldable pub ph_checksum : ℕ → ℕ → ℕ → List ℕ → ℕ
unfolding sum_chunks fold_sum pseudo_sum
ph_checksum src dst proto bytes = fold_sum (sum_chunks (pseudo_sum src dst proto bytes) bytes)
