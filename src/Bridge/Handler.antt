-- ===== src/Bridge/Handler.antt =====
-- oathgate-bridge/src/net/router/handler.rs and its children icmp.rs and udp.rs: the handlers of
-- packets that are for the router itself. A handler takes the packet and the buffer behind the reply's
-- IPv4 header, and gives its new state, the buffer and the number of bytes written. The one handler of
-- a UDP port is the DHCP server.
pub mod Echo
use oathgate.Common.{
  ℕ, ◌+◌, ◌*◌, ◌%◌, ◌^◌, List, [], ◌∷◌, ◌++◌, length, take, drop, ltb, ◌==◌, if◌then◌else◌, Option,
  none, some, ℕ_discrete, Outcome, ok, err, panic, ◌>>=◌,
}
use oathgate.Common.Bytes.{index, slice_from, be16_at, be16_bytes, copy_from_slice}
use oathgate.Common.HashMap.{HashMap}
use oathgate.Common.HashMap
use oathgate.Net.Checksum.{checksum}
use oathgate.Net.Error.{ProtocolError, not_enough_data}
use oathgate.Net.Icmp.{icmp_hdr_sz, icmp_ty_echo_request, icmp_ty_echo_reply}
use oathgate.Net.Ipv4.{Ipv4Packet, payload, net_protocol_icmp, net_protocol_udp}
use oathgate.Bridge.Dhcp.{DhcpServer}
use oathgate.Bridge.Dhcp.Message.{Dhcproto, handle_port, dhcp_port}

-- `match payload[0]`
unfoldable pub echo_by_type : ℕ → List ℕ → List ℕ → Outcome ProtocolError (List ℕ × ℕ)
echo_by_type type payload buf =
    if type == icmp_ty_echo_request
    then (do
      body ← slice_from payload icmp_hdr_sz
      buf ← copy_from_slice buf icmp_hdr_sz (length payload) body
      buf ← copy_from_slice buf 2 4 (be16_bytes (checksum buf))
      ok (buf, length payload))
    else if type == icmp_ty_echo_reply
    then ok (buf, 0)
    else ok (buf, 0)

unfoldable pub icmp_handle_protocol : Ipv4Packet → List ℕ → Outcome ProtocolError (List ℕ × ℕ)
unfolding echo_by_type
icmp_handle_protocol pkt buf = do
  body ← payload pkt
  if ltb (length body) icmp_hdr_sz
      then err (not_enough_data (length body) icmp_hdr_sz)
      else (do type ← index body 0; echo_by_type type body buf)

pub record UdpHandler : Type 0 where
  pub handlers : HashMap ℕ DhcpServer

unfoldable pub register_port_handler : UdpHandler → DhcpServer → UdpHandler
register_port_handler h server = record {
  handlers = HashMap.insert ℕ_discrete h.handlers dhcp_port server;
}

module _ (proto : Dhcproto) where
  -- The ports swapped, the length, and no checksum in front of the answer.
  unfoldable pub udp_reply :
      ℕ → ℕ → List ℕ → Outcome ProtocolError (List ℕ × ℕ) → Outcome ProtocolError (List ℕ × ℕ)
  udp_reply src_port dst_port front answer = do
    (back, sz) ← answer
    let len = sz + 8
    let buf = front ++ back
    buf ← copy_from_slice buf 0 2 (be16_bytes dst_port)
    buf ← copy_from_slice buf 2 4 (be16_bytes src_port)
    buf ← copy_from_slice buf 4 6 (be16_bytes (len % 2 ^ 16))
    buf ← copy_from_slice buf 6 8 (0 ∷ 0 ∷ [])
    ok (buf, len)

  -- The call of a port's handler, over the buffer behind the UDP header.
  unfoldable pub udp_by_handler :
      UdpHandler
      → ℕ
      → ℕ
      → List ℕ
      → List ℕ
      → Option DhcpServer
      → UdpHandler × Outcome ProtocolError (List ℕ × ℕ)
  unfolding udp_reply
  udp_by_handler h src_port dst_port body buf none = (h, ok (buf, 0))
  udp_by_handler h src_port dst_port body buf (some server) =
      let (server', answer) = handle_port proto server (drop 8 body) (drop 8 buf) in
      (
        record { handlers = HashMap.insert ℕ_discrete h.handlers dst_port server' },
        udp_reply src_port dst_port (take 8 buf) answer,
      )

  unfoldable pub udp_by_payload :
      UdpHandler → List ℕ → List ℕ → UdpHandler × Outcome ProtocolError (List ℕ × ℕ)
  unfolding udp_by_handler
  udp_by_payload h (s0 ∷ s1 ∷ d0 ∷ d1 ∷ l0 ∷ l1 ∷ c0 ∷ c1 ∷ body) buf =
      let dst_port = d0 * 256 + d1 in
      udp_by_handler h (s0 * 256 + s1) dst_port (s0 ∷ s1 ∷ d0 ∷ d1 ∷ l0 ∷ l1 ∷ c0 ∷ c1 ∷ body) buf
        (HashMap.get ℕ_discrete h.handlers dst_port)
  udp_by_payload h body buf = (h, err (not_enough_data (length body) 8))

  unfoldable pub udp_handle_protocol :
      UdpHandler → Ipv4Packet → List ℕ → UdpHandler × Outcome ProtocolError (List ℕ × ℕ)
  unfolding udp_by_payload
  udp_handle_protocol h pkt buf = elim (payload pkt) [
    | ok body ↦ udp_by_payload h body buf
    | err e ↦ (h, err e)
    | panic ↦ (h, panic)
  ]

  pub data ProtocolHandler : Type 0 where
    icmp : ProtocolHandler
    udp : UdpHandler → ProtocolHandler

  unfoldable pub protocol : ProtocolHandler → ℕ
  protocol icmp = net_protocol_icmp
  protocol (udp h) = net_protocol_udp

  unfoldable pub handle_protocol :
      ProtocolHandler → Ipv4Packet → List ℕ → ProtocolHandler × Outcome ProtocolError (List ℕ × ℕ)
  unfolding icmp_handle_protocol udp_handle_protocol
  handle_protocol icmp pkt buf = (icmp, icmp_handle_protocol pkt buf)
  handle_protocol (udp h) pkt buf =
      let (h', result) = udp_handle_protocol h pkt buf in (udp h', result)
