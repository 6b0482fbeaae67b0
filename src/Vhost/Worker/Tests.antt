-- ===== src/Vhost/Worker/Tests.antt =====
-- The theorems about rings and the device's thread at concrete rings, messages and events.
use oathgate.Common.{
  ℕ, ◌≡◌, refl, arith, List, [], ◌∷◌, ◌++◌, length, true, Option, none, some, Outcome, ok, err,
}
use oathgate.Common.Bytes.{from_le, le_at}
use oathgate.Common.HashMap
use oathgate.Net.Error.{ProtocolError, other, space_exhausted}
use oathgate.Net.EtherType.{arp}
use oathgate.Net.Frame.{EthernetPacket}
use oathgate.Net.Mac.{MacAddress}
use oathgate.Vhost.Device.{VirtioDevice, Syscall}
use oathgate.Vhost.Queue.{VirtQueue, new_with}
use oathgate.Vhost.Rings.{Switch, Port, notification, kick_tx, handle_rx_queued, called, used}
use oathgate.Vhost.Rings.Lists.{
  Held, lists, list_rings, list_rings-IsReading, zeros, no_header, extract-zeros,
  list_rings-IsDelivering,
}
use oathgate.Vhost.Rings.Transmit.{accepts_none, accepts_one, kick_tx_lem}
use oathgate.Vhost.Rings.Receive.{deliveries, handle_rx_queued_delivers}
use oathgate.Vhost.Types.{VHostHeader, parse_header}
use oathgate.Vhost.Worker.{
  new, new_queues, Answer, stream, wake, token, received, Worker, read_messages, run, fill,
}
use oathgate.Vhost.Worker.Stream.{Reads, read_messages-Reads}
use oathgate.Vhost.Worker.Requests.{read_messages_late, run-new}

-- A switch that keeps the frames and refuses empty ones.
abbrev keep : ℕ → List ℕ → List (List ℕ) → List (List ℕ) × Outcome ProtocolError (Unit {0})
keep port [] s = (s, err (other space_exhausted))
keep port (b ∷ bs) s = (s ++ (b ∷ bs) ∷ [], ok tt)

abbrev keeping : Switch
keeping = record { State = List (List ℕ); connect = λ s. (s, 3); process = keep }

abbrev granting : Syscall → Option ℕ
granting c = none

abbrev chain : ℕ → List ℕ → Held
chain head frame = record { head = head; bytes = zeros ++ frame; room = 60 }

abbrev queue : List Held → VirtQueue lists
queue chains = record {
  enabled = true;
  queue = chains;
  mem = some tt;
  desc_table = 0;
  avail_ring = 0;
  used_ring = 0;
  err_fd = none;
  call_fd = some 8;
  kick_fd = some 9;
}

abbrev mac : ℕ → MacAddress
mac n = record { octet0 = 2; octet1 = 0; octet2 = 0; octet3 = 0; octet4 = 0; octet5 = n }

abbrev packet : EthernetPacket
packet = record {
  frame = record { dst = mac 1; src = mac 2; ethertype = arp };
  payload = 7 ∷ 8 ∷ [];
}

abbrev port : List Held → List EthernetPacket → Port lists list_rings keeping granting
port chains pkts = record { queue = queue chains; pending = pkts; switch = []; notices = [] }

abbrev one : List ℕ
one = 1 ∷ 0 ∷ 0 ∷ 0 ∷ 0 ∷ 0 ∷ 0 ∷ 0 ∷ []

kick_tx_lem_example :
    kick_tx lists list_rings keeping granting notification 3
      (port (chain 4 (1 ∷ []) ∷ chain 5 (2 ∷ 3 ∷ []) ∷ []) [])
    ≡ (
      record (port [] []) {
        switch = (1 ∷ []) ∷ (2 ∷ 3 ∷ []) ∷ [];
        notices = called 8 notification ∷ used 5 2 ∷ used 4 1 ∷ [];
      },
      ok tt,
    )
unfolding le_at
kick_tx_lem_example =
    kick_tx_lem lists list_rings keeping granting list_rings-IsReading notification 3 1 8 tt []
      (chain 4 (1 ∷ []) ∷ chain 5 (2 ∷ 3 ∷ []) ∷ [])
      (port (chain 4 (1 ∷ []) ∷ chain 5 (2 ∷ 3 ∷ []) ∷ []) []) _ (omega arith) refl refl refl
      (accepts_one (chain 4 (1 ∷ [])) (chain 5 (2 ∷ 3 ∷ []) ∷ []) _ _ (zeros ++ 1 ∷ []) no_header
        (1 ∷ []) ((1 ∷ []) ∷ []) _ refl tt (extract-zeros (1 ∷ [])) refl refl
        (accepts_one (chain 5 (2 ∷ 3 ∷ [])) [] _ _ (zeros ++ 2 ∷ 3 ∷ []) no_header (2 ∷ 3 ∷ [])
          ((1 ∷ []) ∷ (2 ∷ 3 ∷ []) ∷ []) _ refl tt (extract-zeros (2 ∷ 3 ∷ [])) refl refl
          (accepts_none _)))
      refl refl refl

handle_rx_queued_delivers_example :
    (p' : Port lists list_rings keeping granting) × (handle_rx_queued lists list_rings keeping
        granting
        (port (chain 4 [] ∷ []) (packet ∷ packet ∷ []))
      ≡ (p', ok tt))
    × (p'.pending ≡ packet ∷ [])
    × (p'.queue.queue ≡ [])
    × (p'.notices
        ≡ called 8 notification
          ∷ deliveries lists list_rings keeping granting list_rings-IsDelivering
              (chain 4 [] ∷ [])
              (packet ∷ packet ∷ [])
              [])
    × (p'.switch ≡ [])
handle_rx_queued_delivers_example =
    handle_rx_queued_delivers lists list_rings keeping granting list_rings-IsDelivering tt 256 60 8
      packet (packet ∷ []) (port (chain 4 [] ∷ []) (packet ∷ packet ∷ [])) refl refl refl
      (record { valid = omega arith; head_below = omega arith; fits = omega arith }, tt)
      (omega arith, (omega arith, tt)) refl refl refl

abbrev device : VirtioDevice lists
device = record {
  channel = none;
  queues = queue [] ∷ queue [] ∷ [];
  mappings = [];
  status = 0;
  num_queues = 1;
  kick_fds = HashMap.empty;
  router_port = 3;
  calls = [];
}

abbrev set_status_bytes : List ℕ
set_status_bytes = 39 ∷ 0 ∷ 0 ∷ 0 ∷ 1 ∷ 0 ∷ 0 ∷ 0 ∷ 8 ∷ 0 ∷ 0 ∷ 0 ∷ []

abbrev set_status : VHostHeader
set_status = record { ty = 39; flags = 1; sz = 8; ancillary = []; payload = none }

abbrev worker : List Answer → Worker lists list_rings keeping granting
worker inbox = record { device = device; pending = []; switch = []; notices = []; inbox = inbox }

parse-set_status : parse_header (fill 12 set_status_bytes) [] ≡ ok set_status
unfolding parse_header le_at from_le
parse-set_status = refl

read_messages_late_example :
    read_messages lists list_rings keeping granting 2
      (worker (received 1 set_status_bytes (ok []) ∷ []))
    ≡ (worker [], ok tt)
read_messages_late_example =
    read_messages_late lists list_rings keeping granting 1
      (worker (received 1 set_status_bytes (ok []) ∷ [])) set_status_bytes [] set_status refl
      parse-set_status (omega arith)

read_messages-Reads_example :
    Reads lists list_rings keeping granting (worker (received 1 set_status_bytes (ok []) ∷ [])) (
      read_messages lists list_rings keeping granting 9
        (worker (received 1 set_status_bytes (ok []) ∷ [])))
read_messages-Reads_example =
    read_messages-Reads lists list_rings keeping granting 9
      (worker (received 1 set_status_bytes (ok []) ∷ [])) (omega arith)

abbrev made : Worker lists list_rings keeping granting
made = record {
  device = record device { queues = new_with lists [] ∷ new_with lists [] ∷ [] };
  pending = [];
  switch = [];
  notices = [];
  inbox = received 1 set_status_bytes (ok []) ∷ [];
}

new-made : new lists list_rings keeping granting 1 [] made.inbox ≡ ok made
unfolding new new_queues
new-made = refl

run-new_example :
    length
      (run lists list_rings keeping granting
        (stream ∷ wake ∷ token 9 (ok one) ∷ [])
        made).0.device.queues
    ≡ 2
run-new_example =
    run-new lists list_rings keeping granting 1 [] made.inbox
      (stream ∷ wake ∷ token 9 (ok one) ∷ []) made new-made
