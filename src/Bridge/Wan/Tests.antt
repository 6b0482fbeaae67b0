-- ===== src/Bridge/Wan/Tests.antt =====
-- The theorems about the wide area network at concrete packets.
use oathgate.Common.{
  ℕ, zero, suc, ◌*◌, ◌<◌, ◌≡◌, refl, arith, false, List, [], ◌∷◌, ◌++◌, Option, none, ok, err,
}
use oathgate.Common.HashMap
use oathgate.Net.Ipv4.{
  Ipv4Header, Ipv4Packet, parse, extract_from_slice, read_fields, has_fragments, payload,
  header_length, unmasquerade, write_header, fix_transport_checksum,
}
use oathgate.Net.Checksum.{checksum}
use oathgate.Net.Nat.{empty}
use oathgate.Net.Nat.Replies.{IsReply, query}
use oathgate.Bridge.Wan.{route_ipv4, missing_fragment}
use oathgate.Bridge.Wan.Wireguard.{
  Tunn, TunnResult, done, write_to_network, write_to_tunnel_v4, WgDevice, datagram, udp, run,
  handle_tun_result, send_packet,
}
use oathgate.Bridge.Wan.Wireguard.Fragments.{SameFlow, rebuild_each, rebuild_in_order, last, more}
use oathgate.Bridge.Wan.Wireguard.Translation.{send_packet-reply, run_lost_fragment}
use oathgate.Bridge.Wan.Wireguard.Queue.{IsDraining}

-- A tunnel that encrypts nothing and has a number of empty packets queued.
abbrev open_up : ℕ → List ℕ → ℕ → ℕ × TunnResult
open_up peer [] zero = (0, done)
open_up peer [] (suc n) = (n, write_to_network [])
open_up peer (b ∷ bs) n = (n, write_to_tunnel_v4 (b ∷ bs))

abbrev plain : Tunn
plain = record {
  State = ℕ;
  encapsulate = λ bytes n. (n, write_to_network bytes);
  decapsulate = open_up;
  update_timers = λ n. (n, done);
}

open_up-drains :
    (peer s s' : ℕ) (pkt : List ℕ) → open_up peer [] s ≡ (s', write_to_network pkt) → s' < s
open_up-drains peer zero s' pkt e = absurd (ground (arith, e))
open_up-drains peer (suc n) s' pkt e = ground (arith, e)

abbrev plain-IsDraining : IsDraining plain
plain-IsDraining = record { queued = λ n. n; decapsulate_lem = open_up-drains }

abbrev send : List ℕ → Option ℕ
send bytes = none

abbrev device : ℕ → WgDevice plain send
device n = record { tun = n; endpoint = 7; ipv4 = 99; nat = empty; cache = HashMap.empty; out = [] }

abbrev header : ℕ → ℕ → ℕ → ℕ → Ipv4Header
header flags offset src dst = record {
  version = 4;
  ihl = 5;
  length = 28;
  id = 6;
  flags = flags;
  frag_offset = offset;
  ttl = 64;
  protocol = 1;
  checksum = 0;
  src = src;
  dst = dst;
}

abbrev echo : List ℕ
echo = 0 ∷ 0 ∷ 0 ∷ 0 ∷ 1 ∷ 2 ∷ 0 ∷ 0 ∷ []

abbrev head_bytes : ℕ → ℕ → List ℕ
head_bytes offset src =
    0x45 ∷ 0 ∷ 0 ∷ 28 ∷ 0 ∷ 6 ∷ 0 ∷ offset ∷ 64 ∷ 1 ∷ 0 ∷ 0 ∷ 0 ∷ 0 ∷ 0 ∷ src ∷ 0 ∷ 0 ∷ 0 ∷ 99 ∷ []

abbrev fragment : ℕ → ℕ → Ipv4Packet
fragment flags offset = record { header = header flags offset 8 99; bytes = head_bytes 0 8 ++ echo }

-- What a packet or a fragment holds behind its header.
holds-echo : (flags offset : ℕ) → payload (fragment flags offset) ≡ ok echo
unfolding payload header_length
holds-echo flags offset = refl

rebuild_in_order_example :
    (d' : WgDevice plain send) × (whole : Ipv4Packet) × (rebuild_each plain send
        (fragment 1 0 ∷ fragment 1 8 ∷ fragment 0 16 ∷ [])
        (device 0)
      ≡ (d', ok (whole ∷ [])))
    × (payload whole ≡ ok (echo ++ echo ++ echo))
    × (has_fragments whole ≡ false)
    × SameFlow plain send whole (fragment 1 0)
unfolding has_fragments
rebuild_in_order_example =
    rebuild_in_order plain send (fragment 1 0) (fragment 1 8 ∷ fragment 0 16 ∷ []) echo
      (echo ++ echo) (device 0) refl refl (omega arith) (holds-echo 1 0) (omega arith)
      (more 8 (fragment 1 8) (fragment 0 16 ∷ []) echo echo (echo ++ echo) refl refl refl
        (holds-echo 1 8) (last 16 (fragment 0 16) echo refl refl refl (holds-echo 0 16)) refl)

abbrev arrived : ℕ → Ipv4Packet
arrived offset = record {
  header = record (header 0 (offset * 8) 8 99) { length = 28 };
  bytes = head_bytes offset 8 ++ echo;
}

parse-arrived_0 : parse (head_bytes 0 8 ++ echo) ≡ ok (arrived 0)
unfolding parse extract_from_slice read_fields
parse-arrived_0 = refl

parse-arrived_2 : parse (head_bytes 2 8 ++ echo) ≡ ok (arrived 2)
unfolding parse extract_from_slice read_fields
parse-arrived_2 = refl

abbrev asked : Ipv4Packet
asked = record { header = header 0 0 5 8; bytes = head_bytes 0 5 ++ echo }

asked-IsReply : IsReply asked (arrived 0)
unfolding payload header_length
asked-IsReply = query 1 2 0 0 0 0 0 0 0 0 (0 ∷ 0 ∷ []) (0 ∷ 0 ∷ []) refl refl refl refl refl

run_lost_fragment_example :
    run plain send 1 (udp (datagram 7 (head_bytes 2 8 ++ echo) ∷ []) ∷ []) (device 0)
    ≡ (device 0, err missing_fragment)
unfolding has_fragments HashMap.get
run_lost_fragment_example =
    run_lost_fragment plain send 0 7 (head_bytes 2 8 ++ echo) (head_bytes 2 8 ++ echo) (arrived 2) 0
      [] [] (device 0) refl parse-arrived_2 refl refl (λ e. absurd (ground arith))

abbrev answered : Ipv4Packet
answered = record {
  header = header 0 0 8 5;
  bytes =
      0x45 ∷ 0 ∷ 0 ∷ 28 ∷ 0 ∷ 6 ∷ 0 ∷ 0 ∷ 64 ∷ 1 ∷ 0x7a ∷ 0xcf ∷ 0 ∷ 0 ∷ 0 ∷ 8 ∷ 0 ∷ 0 ∷ 0 ∷ 5
      ∷ echo;
}

unmasquerade-arrived : unmasquerade 5 (arrived 0) ≡ ok answered
unfolding unmasquerade write_header checksum fix_transport_checksum
unmasquerade-arrived = refl

send_packet-reply_example :
    (handle_tun_result plain send
        (write_to_tunnel_v4 (head_bytes 0 8 ++ echo))
        (send_packet plain send asked (device 0)).0
      ≡ (
        record ((send_packet plain send asked (device 0)).0) {
          out = (send_packet plain send asked (device 0)).0.out ++ route_ipv4 answered ∷ [];
        },
        ok false,
      ))
    × (answered.header.dst ≡ asked.header.src)
unfolding has_fragments
send_packet-reply_example =
    send_packet-reply plain send asked (arrived 0) answered (head_bytes 0 8 ++ echo) (device 0)
      asked-IsReply parse-arrived_0 refl refl unmasquerade-arrived
