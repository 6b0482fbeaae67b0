-- ===== src/Net/Ipv4/RoundTrip.antt =====
-- Writing an IPv4 header and reading it back.
use Prim.Native.Nat.{bit_and, bit_or}
use oathgate.Common.{
  ℕ, ◌+◌, ◌*◌, ◌/◌, ◌%◌, ◌^◌, ◌-◌, ◌≤◌, ◌<◌, ◌≡◌, ap, ◌∙◌, arith, List, ◌∷◌, ◌++◌, length, ok, drop,
  All, ltb, if◌then◌else◌,
}
use oathgate.Common.Bits.{bit_or-shifted, bit_or-zero, bit_and-ones}
use oathgate.Common.Bytes.{IsByte, IsU16, IsU32, be16, be16_bytes, be32_bytes}
use oathgate.Net.Checksum.{checksum}
use oathgate.Net.Checksum.Complement.{halves, checksum-complement}
use oathgate.Net.Checksum.Sums.{word_sum}
use oathgate.Net.Ipv4.{Ipv4Header, write_header, extract_from_slice}

-- The fields that fit their place in the header. The offset is the one stored there, which counts
-- units of eight bytes.
pub record IsHeader (h : Ipv4Header) : Type 0 where
  pub version-lt : h.version < 16
  pub length-IsU16 : IsU16 h.length
  pub id-IsU16 : IsU16 h.id
  pub flags-lt : h.flags < 8
  pub frag_offset-lt : h.frag_offset < 2 ^ 13
  pub src-IsU32 : IsU32 h.src
  pub dst-IsU32 : IsU32 h.dst

-- The 20 bytes that are written, with the type of service and the checksum given.
abbrev pub fields_wire : Ipv4Header → ℕ → ℕ → List ℕ
fields_wire h tos sum =
    bit_or (h.version * 2 ^ 4 % 256) 5 ∷ tos ∷ be16_bytes h.length
    ++ be16_bytes h.id
    ++ be16_bytes (bit_or (h.flags * 2 ^ 13 % 2 ^ 16) h.frag_offset)
    ++ h.ttl ∷ h.protocol ∷ be16_bytes sum
    ++ be32_bytes h.src
    ++ be32_bytes h.dst

abbrev pub header_sum : Ipv4Header → ℕ → ℕ
header_sum h tos = checksum (fields_wire h tos 0)

abbrev pub header_wire : Ipv4Header → ℕ → List ℕ
header_wire h tos = fields_wire h tos (header_sum h tos)

-- The byte that `write_header` leaves alone.
abbrev pub second : List ℕ → ℕ
second (a ∷ b ∷ rest) = b
second _ = 0

-- A header is written over the first 20 bytes of a buffer that has so many, all but the type of
-- service, and leaves the rest.
pub write_header-wire :
    (h : Ipv4Header) (buf : List ℕ)
    → 20 ≤ length buf
    → write_header h buf ≡ ok (header_wire h (second buf) ++ drop 20 buf)
unfolding write_header
write_header-wire h
      (a ∷ b ∷ c ∷ d ∷ e ∷ f ∷ g ∷ i ∷ j ∷ k ∷ l ∷ m ∷ n ∷ o ∷ p ∷ q ∷ r ∷ s ∷ t ∷ u ∷ rest) le =
    ground arith
write_header-wire h _ le = absurd (omega arith)

first_byte : (v : ℕ) → v < 16 → bit_or (v * 2 ^ 4 % 256) 5 ≡ v * 2 ^ 4 + 5
first_byte v h =
    let e : v * 2 ^ 4 % 256 ≡ v * 2 ^ 4 = omega arith in
    rw e (bit_or-shifted 4 v 5 0 (omega arith) ∙ ap (λ (t : ℕ). t * 2 ^ 4 + 5) (bit_or-zero v))

frag_word :
    (flags offset : ℕ)
    → flags < 8
    → offset < 2 ^ 13
    → bit_or (flags * 2 ^ 13 % 2 ^ 16) offset ≡ flags * 2 ^ 13 + offset
frag_word flags offset hf ho =
    let e : flags * 2 ^ 13 % 2 ^ 16 ≡ flags * 2 ^ 13 = omega arith in
    let z : offset ≡ 0 * 2 ^ 13 + offset = omega arith in
    rw e (
      ap (bit_or (flags * 2 ^ 13)) z
      ∙ bit_or-shifted 13 flags offset 0 ho
      ∙ ap (λ (t : ℕ). t * 2 ^ 13 + offset) (bit_or-zero flags))

-- The offset's bits, from the two bytes of the word that they share with the flags.
frag_bits :
    (flags offset : ℕ)
    → flags < 8
    → offset < 2 ^ 13
    → let w = flags * 2 ^ 13 + offset in
      bit_and (be16 (w / 256 % 256) (w % 256)) (2 ^ 13 - 1) ≡ offset
frag_bits flags offset hf ho =
    let w : ℕ = flags * 2 ^ 13 + offset in
    let e : be16 (w / 256 % 256) (w % 256) ≡ w = omega arith in
    rw e (bit_and-ones 13 flags offset ho)

-- What reading the header's bytes back gives: the header's own fields, with a length of five words
-- and the new checksum, but the fragment offset multiplied by 8.
abbrev pub read_back : Ipv4Header → ℕ → Ipv4Header
read_back h sum = record h { ihl = 5; checksum = sum; frag_offset = h.frag_offset * 8 }

extract-fields_wire :
    (h : Ipv4Header) (tos sum : ℕ) (rest : List ℕ)
    → IsHeader h
    → IsU16 sum
    → extract_from_slice (fields_wire h tos sum ++ rest) ≡ ok (read_back h sum)
unfolding extract_from_slice
extract-fields_wire h tos sum rest v hs =
    rw
      (
        first_byte h.version v.version-lt,
        frag_word h.flags h.frag_offset v.flags-lt v.frag_offset-lt,
        bit_and-ones 4 h.version 5 (omega arith),
        frag_bits h.flags h.frag_offset v.flags-lt v.frag_offset-lt,
      )
      (ground arith)

checksum-IsU16 : (bytes : List ℕ) → IsU16 (checksum bytes)
unfolding checksum
checksum-IsU16 bytes = omega arith

-- A header whose fields fit is written over any buffer of 20 bytes or more, and reading the buffer
-- back gives the header with its length set to five words, its checksum to the one computed, and its
-- fragment offset multiplied by 8.
pub extract-write_header :
    (h : Ipv4Header) (buf : List ℕ)
    → IsHeader h
    → 20 ≤ length buf
    → (out : List ℕ) × (write_header h buf ≡ ok out)
      × (extract_from_slice out ≡ ok (read_back h (header_sum h (second buf))))
extract-write_header h buf v le = (
  header_wire h (second buf) ++ drop 20 buf,
  write_header-wire h buf le,
  extract-fields_wire h (second buf) (header_sum h (second buf)) (drop 20 buf) v
      (checksum-IsU16 (fields_wire h (second buf) 0)),
)

-- The checksum only adds to the words of the header.
word_sum-fields_wire :
    (h : Ipv4Header) (tos sum : ℕ)
    → IsU16 sum
    → word_sum (fields_wire h tos sum) ≡ word_sum (fields_wire h tos 0) + sum
word_sum-fields_wire h tos sum hs = omega arith

-- The ten words of a header that was written as bytes add up to 0 modulo 65535, as a receiver demands,
-- unless adding the halves of their sum without the checksum carries out of 16 bits: then they add up
-- to 1.
pub header_wire-complement :
    (h : Ipv4Header) (tos : ℕ)
    → All IsByte (fields_wire h tos 0)
    → word_sum (header_wire h tos) % 65535
      ≡ (if ltb (halves (word_sum (fields_wire h tos 0))) (2 ^ 16) then 0 else 1)
header_wire-complement h tos b =
    rw (word_sum-fields_wire h tos (header_sum h tos) (checksum-IsU16 (fields_wire h tos 0)))
      (checksum-complement (fields_wire h tos 0) b (omega arith))
