-- ===== src/Bridge/Handler/Echo.antt =====
-- What the ICMP handler answers (oathgate-bridge/src/net/router/handler/icmp.rs).
use oathgate.Common.{
  ℕ, ◌+◌, ◌≡◌, ◌≢◌, ◌≤◌, arith, List, [], ◌∷◌, ◌++◌, length, get_elem?, some, ltb, if◌then◌else◌,
  drop, replicate, length-replicate, ok, err,
}
use oathgate.Common.Bytes.{be16_bytes}
use oathgate.Net.Checksum.{checksum}
use oathgate.Net.Error.{not_enough_data}
use oathgate.Net.Ipv4.{Ipv4Packet, payload}
use oathgate.Bridge.Handler.{icmp_handle_protocol, echo_by_type}

-- An echo request whose data fits the zeroed buffer is answered by as many bytes: type and code
-- zero, the checksum over the whole buffer with its own field cleared, and the request's
-- identifier, sequence number and data. What is behind them in the buffer stays zero.
pub icmp_handle_protocol_answers :
    (pkt : Ipv4Packet) (code k0 k1 : ℕ) (body : List ℕ) (n : ℕ)
    → payload pkt ≡ ok (8 ∷ code ∷ k0 ∷ k1 ∷ body)
    → length body ≤ n
    → icmp_handle_protocol pkt (replicate (4 + n) 0)
      ≡ ok (
        0 ∷ 0 ∷ be16_bytes (checksum (0 ∷ 0 ∷ 0 ∷ 0 ∷ body ++ drop (length body) (replicate n 0)))
            ++ body
            ++ drop (length body) (replicate n 0),
        4 + length body,
      )
unfolding icmp_handle_protocol echo_by_type
icmp_handle_protocol_answers pkt code k0 k1 body n hp h =
    ground (arith, length-replicate {A = ℕ} n 0)

-- A message that does not begin with the type of an echo request is not answered: if it is shorter
-- than four bytes it is an error, and otherwise nothing is written.
pub icmp_handle_protocol_ignores :
    (pkt : Ipv4Packet) (body buf : List ℕ)
    → payload pkt ≡ ok body
    → get_elem? body 0 ≢ some 8
    → icmp_handle_protocol pkt buf
      ≡ (if ltb (length body) 4 then err (not_enough_data (length body) 4) else ok (buf, 0))
unfolding icmp_handle_protocol echo_by_type
icmp_handle_protocol_ignores pkt [] buf hp ne = ground arith
icmp_handle_protocol_ignores pkt (type ∷ rest) buf hp ne = ground arith
