-- ===== src/Net/Icmp/RoundTrip.antt =====
-- Writing an echo message and reading it back.
use oathgate.Common.{
  ℕ, zero, suc, ◌+◌, ◌≡◌, refl, ap, arith, List, [], ◌∷◌, ◌++◌, length, drop, take, ok,
}
use oathgate.Common.Bytes.{IsU16, be16_bytes}
use mathlib.Core.List.{append-nil}
use oathgate.Net.Checksum.{checksum}
use oathgate.Net.Icmp.{
  echo_request, echo_reply, parse, icmp_bytes, write_echo, write_checksum, parse_echo, by_type,
}

drop_all : (n : ℕ) (xs : List ℕ) → length xs ≡ n → drop n xs ≡ []
drop_all zero [] h = refl
drop_all zero (x ∷ xs) h = absurd (omega arith)
drop_all (suc n) [] h = refl
drop_all (suc n) (x ∷ xs) h = drop_all n xs (omega arith)

take_all : (n : ℕ) (xs : List ℕ) → length xs ≡ n → take n xs ≡ xs
take_all zero [] h = refl
take_all zero (x ∷ xs) h = absurd (omega arith)
take_all (suc n) [] h = refl
take_all (suc n) (x ∷ xs) h = ap (◌∷◌ x) (take_all n xs (omega arith))

-- The bytes of an echo message of a type, with its checksum.
abbrev pub wire : ℕ → ℕ → ℕ → List ℕ → List ℕ
wire type id seq body =
    type ∷ 0 ∷ be16_bytes (checksum (type ∷ 0 ∷ 0 ∷ 0 ∷ be16_bytes id ++ be16_bytes seq ++ body))
    ++ be16_bytes id
    ++ be16_bytes seq
    ++ body

write_echo-wire :
    (type id seq : ℕ) (body buf : List ℕ)
    → length buf ≡ 8 + length body
    → write_echo type id seq body buf ≡ ok (wire type id seq body, 8 + length body)
unfolding write_echo write_checksum
write_echo-wire type id seq body (a ∷ b ∷ c ∷ d ∷ e ∷ f ∷ g ∷ h ∷ tail) l = ground (
  arith,
  drop_all (length body) tail (omega arith),
  append-nil body,
  take_all (length body) body refl,
)
write_echo-wire type id seq body _ l = absurd (omega arith)

parse-wire :
    (id seq : ℕ) (body : List ℕ)
    → IsU16 id
    → IsU16 seq
    → (parse (wire 8 id seq body) ≡ ok (echo_request id seq body))
      × (parse (wire 0 id seq body) ≡ ok (echo_reply id seq body))
unfolding parse by_type parse_echo
parse-wire id seq body hi hs = (ground arith, ground arith)

-- An echo request or reply whose numbers have 16 bits is written without a panic into a buffer of
-- its length, and `parse` gets it back from the bytes written.
pub parse-icmp_bytes :
    (id seq : ℕ) (body buf : List ℕ)
    → IsU16 id
    → IsU16 seq
    → length buf ≡ 8 + length body
    → ((out : List ℕ) × (icmp_bytes (echo_request id seq body) buf ≡ ok (out, 8 + length body))
        × (parse out ≡ ok (echo_request id seq body)))
      × ((out : List ℕ) × (icmp_bytes (echo_reply id seq body) buf ≡ ok (out, 8 + length body))
          × (parse out ≡ ok (echo_reply id seq body)))
unfolding icmp_bytes
parse-icmp_bytes id seq body buf hi hs l =
    let (request, answer) = parse-wire id seq body hi hs in
    (
      (wire 8 id seq body, write_echo-wire 8 id seq body buf l, request),
      (wire 0 id seq body, write_echo-wire 0 id seq body buf l, answer),
    )
