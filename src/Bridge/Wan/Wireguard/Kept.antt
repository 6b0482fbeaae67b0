-- ===== src/Bridge/Wan/Wireguard/Kept.antt =====
-- The packet that is kept while its fragments come (oathgate-net/src/ipv4.rs, `add_fragment_data` and
-- `finalize`).
use oathgate.Common.{
  ℕ, zero, suc, ◌+◌, ◌-◌, ◌*◌, ◌%◌, ◌^◌, ◌≤◌, ◌≡◌, refl, sym, ap, ◌∙◌, arith, List, [], ◌∷◌, ◌++◌,
  length, drop, drop-append, length-append, length-drop, drop-drop, ok, ◌>>=◌,
}
use oathgate.Net.Ipv4.{
  Ipv4Packet, payload, header_length, place_fragment, add_fragment_data, finalize,
}
use oathgate.Net.Ipv4.RoundTrip.{write_header-wire, header_wire, second}

-- What is behind the first elements of a list that has so many.
drop-append_early : (n : ℕ) (xs ys : List ℕ) → n ≤ length xs → drop n (xs ++ ys) ≡ drop n xs ++ ys
drop-append_early zero xs ys h = refl
drop-append_early (suc n) [] ys h = absurd (omega arith)
drop-append_early (suc n) (x ∷ xs) ys h = drop-append_early n xs ys (omega arith)

-- Twenty bytes in place of the first twenty do not change what is behind them.
drop-rewritten :
    (n : ℕ) (w xs : List ℕ) → length w ≡ 20 → 20 ≤ n → drop n (w ++ drop 20 xs) ≡ drop n xs
drop-rewritten n w xs hw h =
    let split : 20 + (n - 20) ≡ n = omega arith in
    ap (λ k. drop k (w ++ drop 20 xs)) (sym split)
    ∙ sym (drop-drop (n - 20) 20 (w ++ drop 20 xs))
    ∙ ap (drop (n - 20)) (ap (λ k. drop k (w ++ drop 20 xs)) (sym hw) ∙ drop-append w (drop 20 xs))
    ∙ drop-drop (n - 20) 20 xs
    ∙ ap (λ k. drop k xs) split

-- A packet that is kept: its payload so far, behind a header of 20 bytes or more.
pub record IsKept (p : Ipv4Packet) (so_far : List ℕ) : Type 0 where
  pub ihl_least : 5 ≤ p.header.ihl
  pub whole_header : p.header.ihl * 4 ≤ length p.bytes
  pub behind : drop (p.header.ihl * 4) p.bytes ≡ so_far

pub payload-kept : (p : Ipv4Packet) (so_far : List ℕ) → IsKept p so_far → payload p ≡ ok so_far
unfolding payload header_length
payload-kept p so_far k = ground (arith, k.whole_header, k.behind)

pub IsKept-payload :
    (p : Ipv4Packet) (so_far : List ℕ) → 5 ≤ p.header.ihl → payload p ≡ ok so_far → IsKept p so_far
unfolding payload header_length
IsKept-payload p so_far h e = record {
  ihl_least = h;
  whole_header = ground arith;
  behind = ground arith;
}

-- The packet after the next fragment.
abbrev pub extended : Ipv4Packet → List ℕ → Ipv4Packet
extended p body = record {
  bytes = p.bytes ++ body;
  header = record (p.header) { length = (p.header.length + length body % 2 ^ 16) % 2 ^ 16 };
}

pub add_fragment_data-next :
    (p : Ipv4Packet) (so_far body : List ℕ)
    → IsKept p so_far
    → add_fragment_data p (length so_far) body ≡ ok (extended p body)
unfolding add_fragment_data place_fragment
add_fragment_data-next p so_far body k = ground (arith, payload-kept p so_far k)

pub extended-IsKept :
    (p : Ipv4Packet) (so_far body : List ℕ)
    → IsKept p so_far
    → IsKept (extended p body) (so_far ++ body)
extended-IsKept p so_far body k = record {
  ihl_least = k.ihl_least;
  whole_header = omega (arith, k.whole_header, length-append {0} p.bytes body);
  behind =
      drop-append_early (p.header.ihl * 4) p.bytes body k.whole_header
      ∙ ap (λ (xs : List ℕ). xs ++ body) k.behind;
}

abbrev pub completed : Ipv4Packet → Ipv4Packet
completed p =
    let header = record (p.header) { flags = 0; frag_offset = 0 } in
    record { header = header; bytes = header_wire header (second p.bytes) ++ drop 20 p.bytes }

pub completed-IsKept :
    (p : Ipv4Packet) (so_far : List ℕ) → IsKept p so_far → IsKept (completed p) so_far
completed-IsKept p so_far k =
    let header = record (p.header) { flags = 0; frag_offset = 0 } in
    let w = header_wire header (second p.bytes) in
    record {
      ihl_least = k.ihl_least;
      whole_header = omega (
        arith,
        k.whole_header,
        k.ihl_least,
        length-append {0} w (drop 20 p.bytes),
        length-drop {0} 20 p.bytes,
      );
      behind =
          drop-rewritten (p.header.ihl * 4) w p.bytes refl (omega (arith, k.ihl_least)) ∙ k.behind;
    }

pub finalize-kept :
    (p : Ipv4Packet) (so_far : List ℕ) → IsKept p so_far → finalize p ≡ ok (completed p)
unfolding finalize
finalize-kept p so_far k =
    let header = record (p.header) { flags = 0; frag_offset = 0 } in
    ap (λ r. r >>= λ bytes. ok (record { header = header; bytes = bytes }))
      (write_header-wire header p.bytes (omega (arith, k.whole_header, k.ihl_least)))
