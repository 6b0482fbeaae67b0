-- ===== src/Net/Error.antt =====
-- oathgate-net/src/lib.rs, `ProtocolError`. A formatted message is kept as its format and its
-- arguments.
use oathgate.Common.{ℕ}

pub data Message : Type 0 where
  unknown_ethertype unknown_hardware_type bad_hardware_length : ℕ → Message
  bad_ipv4_length bad_ipv6_length : ℕ → Message
  bad_arp_ethertype : Message

pub data Reason : Type 0 where
  space_exhausted missing_type : Reason
  library_error : Reason

pub data ProtocolError : Type 0 where
  not_enough_data : ℕ → ℕ → ProtocolError
  malformed_packet : Message → ProtocolError
  other : Reason → ProtocolError
