-- ===== src/Bridge/Dhcp/Message.antt =====
-- The server's messages: `lease_ip`, the replies and the port handler of
-- oathgate-bridge/src/net/dhcp.rs.
use oathgate.Common.{ℕ, List, [], ◌∷◌, length, Option, none, some, Outcome, ok, err, panic, ◌>>=◌}
use oathgate.Common.Bytes.{copy_from_slice}
use oathgate.Net.Error.{ProtocolError, other, Reason}
use oathgate.Net.Mac.{MacAddress}
use oathgate.Net.Mac
use oathgate.Net.Network.{Ipv4Network}
use oathgate.Net.Network
use oathgate.Bridge.Dhcp.{DhcpServer, lease_to}

-- `v4::MessageType`, by the values that the source names.
pub data MessageType : Type 0 where
  discover request offer ack release decline unlisted : MessageType

-- `v4::DhcpOption`, by those that the source builds.
pub data DhcpOption : Type 0 where
  message_type : MessageType → DhcpOption
  address_lease_time server_identifier subnet_mask broadcast_addr : ℕ → DhcpOption
  router domain_name_server : List ℕ → DhcpOption

-- The crate dhcproto: a message's accessors, its byte form, and the new message with the fields and
-- the options given. `decode` and `encode` fail with `none`.
pub record Dhcproto : Type 1 where
  pub Message : Type 0
  pub decode : List ℕ → Option Message
  pub encode : Message → Option (List ℕ)
  pub msg_type : Message → Option MessageType
  pub requested_ip : Message → Option ℕ
  pub chaddr : Message → List ℕ
  pub flags : Message → ℕ
  pub htype : Message → ℕ
  pub xid : Message → ℕ
  pub ciaddr : Message → ℕ
  pub giaddr : Message → ℕ
  pub new_reply : Message
  pub set_flags : ℕ → Message → Message
  pub set_boot_reply : Message → Message
  pub set_htype : ℕ → Message → Message
  pub set_xid : ℕ → Message → Message
  pub set_yiaddr : ℕ → Message → Message
  pub set_ciaddr : ℕ → Message → Message
  pub set_siaddr : ℕ → Message → Message
  pub set_giaddr : ℕ → Message → Message
  pub set_chaddr : List ℕ → Message → Message
  pub insert_option : DhcpOption → Message → Message

-- `PortHandler::port`
abbrev pub dhcp_port : ℕ
dhcp_port = 67

module _ (proto : Dhcproto) where
  open proto use {Message}

  -- `MacAddress::parse(msg.chaddr()).unwrap()` panics on a short hardware address.
  unfoldable pub with_client :
      DhcpServer
      → Message
      → Outcome ProtocolError MacAddress
      → DhcpServer × Outcome ProtocolError (Option Ipv4Network)
  unfolding lease_to
  with_client s msg (ok client) =
      let (s', ip) = lease_to s client (proto.requested_ip msg) in (s', ok ip)
  with_client s msg (err e) = (s, panic)
  with_client s msg panic = (s, panic)

  unfoldable pub lease_ip :
      DhcpServer → Message → DhcpServer × Outcome ProtocolError (Option Ipv4Network)
  unfolding with_client Mac.parse
  lease_ip s msg = with_client s msg (Mac.parse (proto.chaddr msg))

  -- `if v4::MessageType::Ack == ty`
  unfoldable pub copy_ciaddr : MessageType → Message → Message → Message
  copy_ciaddr ack msg rmsg = proto.set_ciaddr (proto.ciaddr msg) rmsg
  copy_ciaddr _ msg rmsg = rmsg

  unfoldable pub build_message : DhcpServer → Message → Ipv4Network → MessageType → Message
  unfolding copy_ciaddr
  build_message s msg ip ty =
      let rmsg = proto.set_flags (proto.flags msg) proto.new_reply in
      let rmsg = proto.set_boot_reply rmsg in
      let rmsg = proto.set_htype (proto.htype msg) rmsg in
      let rmsg = proto.set_xid (proto.xid msg) rmsg in
      let rmsg = proto.set_yiaddr ip.ip rmsg in
      let rmsg = copy_ciaddr ty msg rmsg in
      let rmsg = proto.set_siaddr s.network.ip rmsg in
      let rmsg = proto.set_giaddr (proto.giaddr msg) rmsg in
      let rmsg = proto.set_chaddr (proto.chaddr msg) rmsg in
      let rmsg = proto.insert_option (message_type ty) rmsg in
      let rmsg = proto.insert_option (address_lease_time s.lease_time) rmsg in
      let rmsg = proto.insert_option (server_identifier s.network.ip) rmsg in
      let rmsg = proto.insert_option (subnet_mask s.network.mask) rmsg in
      let rmsg = proto.insert_option (broadcast_addr (Network.broadcast s.network)) rmsg in
      let rmsg = proto.insert_option (router (s.network.ip ∷ [])) rmsg in
      proto.insert_option (domain_name_server (0x01010101 ∷ [])) rmsg

  -- The reply to a message whose lease was tried: an error if there was no address.
  unfoldable pub answer :
      Message
      → MessageType
      → DhcpServer × Outcome ProtocolError (Option Ipv4Network)
      → DhcpServer × Outcome ProtocolError Message
  unfolding build_message
  answer msg ty (s, ok (some ip)) = (s, ok (build_message s msg ip ty))
  answer msg ty (s, ok none) = (s, err (other Reason.space_exhausted))
  answer msg ty (s, err e) = (s, err e)
  answer msg ty (s, panic) = (s, panic)

  unfoldable pub handle_discover : DhcpServer → Message → DhcpServer × Outcome ProtocolError Message
  unfolding answer lease_ip
  handle_discover s msg = answer msg offer (lease_ip s msg)

  unfoldable pub handle_request : DhcpServer → Message → DhcpServer × Outcome ProtocolError Message
  unfolding answer lease_ip
  handle_request s msg = answer msg ack (lease_ip s msg)

  -- `rmsg.encode(&mut encoder)` into the empty `vbuf`.
  unfoldable pub encode_reply : Outcome ProtocolError Message → Outcome ProtocolError (List ℕ)
  encode_reply reply = do
    rmsg ← reply
    elim (proto.encode rmsg) [ some vbuf ↦ ok vbuf | none ↦ err (other Reason.library_error) ]

  -- The bytes of the answer by the message's type; nothing for the types that a server sends, or that
  -- are ignored.
  unfoldable pub by_type :
      DhcpServer → Message → Option MessageType → DhcpServer × Outcome ProtocolError (List ℕ)
  unfolding handle_discover handle_request encode_reply
  by_type s msg none = (s, err (other Reason.missing_type))
  by_type s msg (some discover) =
      let (s', reply) = handle_discover s msg in (s', encode_reply reply)
  by_type s msg (some request) = let (s', reply) = handle_request s msg in (s', encode_reply reply)
  by_type s msg (some _) = (s, ok [])

  -- The buffer with the answer at its front, and the answer's length.
  unfoldable pub write_answer :
      List ℕ → Outcome ProtocolError (List ℕ) → Outcome ProtocolError (List ℕ × ℕ)
  write_answer buf answer = do
    vbuf ← answer
    buf' ← copy_from_slice buf 0 (length vbuf) vbuf
    ok (buf', length vbuf)

  unfoldable pub handle_message :
      DhcpServer → Option Message → List ℕ → DhcpServer × Outcome ProtocolError (List ℕ × ℕ)
  unfolding by_type write_answer
  handle_message s none buf = (s, err (other Reason.library_error))
  handle_message s (some msg) buf =
      let (s', answer) = by_type s msg (proto.msg_type msg) in (s', write_answer buf answer)

  unfoldable pub handle_port :
      DhcpServer → List ℕ → List ℕ → DhcpServer × Outcome ProtocolError (List ℕ × ℕ)
  unfolding handle_message
  handle_port s bytes buf = handle_message s (proto.decode bytes) buf
