-- ===== src/Bridge/Guests/Tests.antt =====
-- The theorems about guests on a bridge at concrete frames.
use oathgate.Common.{
  ℕ_discrete, ℕ, ◌≡◌, refl, arith, List, [], ◌∷◌, ◌++◌, true, false, ◌==◌, if◌then◌else◌, Option,
  none, some, ok,
}
use oathgate.Common.HashMap
use oathgate.Net.EtherType.{arp}
use oathgate.Net.Frame.{EthernetFrame}
use oathgate.Net.Frame.RoundTrip.{wire}
use oathgate.Net.Mac.{MacAddress, MacAddress-discrete, is_broadcast, broadcast}
use oathgate.Bridge.Guests.{Fabric, bridge}
use oathgate.Bridge.Guests.Journey.{Sends, Listens, guest_to_guest}
use oathgate.Bridge.Switch.{get_port, Delivery}
use oathgate.Vhost.Device.{Syscall}
use oathgate.Vhost.Rings.{Port, transmit, handle_rx_queued, notification, wrote, used, called}
use oathgate.Vhost.Rings.Receive.{plain}
use oathgate.Vhost.Worker.{enqueue}
use oathgate.Vhost.Rings.Lists.{
  Held, lists, list_rings, list_rings-IsReading, list_rings-IsDelivering, zeros, no_header,
  extract-zeros,
}

abbrev granting : Syscall → Option ℕ
granting c = none

abbrev mac : ℕ → MacAddress
mac n = record { octet0 = 2; octet1 = 0; octet2 = 0; octet3 = 0; octet4 = 0; octet5 = n }

abbrev frame : EthernetFrame
frame = record { dst = mac 1; src = mac 2; ethertype = arp }

abbrev fabric : Fabric
fabric = record {
  switch = record {
    ports = 0 ∷ 1 ∷ [];
    cache = HashMap.insert MacAddress-discrete HashMap.empty (mac 1) 0;
    logging = false;
    logged = [];
  };
  enqueued = [];
}

abbrev chain : List ℕ → Held
chain bytes = record { head = 4; bytes = zeros ++ bytes; room = 0 }

abbrev port : Port lists list_rings bridge granting
port = record {
  queue = record {
    enabled = true;
    queue = [];
    mem = some tt;
    desc_table = 0;
    avail_ring = 0;
    used_ring = 0;
    err_fd = none;
    call_fd = none;
    kick_fd = none;
  };
  pending = [];
  switch = fabric;
  notices = [];
}

-- The receiver, with one chain.
abbrev listener : Port lists list_rings bridge granting
listener = record port {
  queue = record (port.queue) {
    queue = record { head = 6; bytes = []; room = 60 } ∷ [];
    call_fd = some 8;
  };
}

listener-Listens :
    Listens lists list_rings granting list_rings-IsReading list_rings-IsDelivering tt
      (record { head = 6; bytes = []; room = 60 })
      8
      60
      listener
listener-Listens = record {
  none_waits = refl;
  has_memory = refl;
  one_chain = refl;
  queue_size = 256;
  is_ready = refl;
  room = record { valid = omega arith; head_below = omega arith; fits = omega arith };
  is_enabled = refl;
  has_fd = refl;
  can_call = refl;
}

port-Sends :
    Sends lists list_rings granting list_rings-IsReading list_rings-IsDelivering tt
      (chain (wire frame ++ 7 ∷ []))
      frame
      (7 ∷ [])
      0
      port
unfolding get_port is_broadcast MacAddress-discrete ℕ_discrete broadcast HashMap.get HashMap.insert
port-Sends = record {
  reader = zeros ++ wire frame ++ 7 ∷ [];
  header = no_header;
  at_port = 0;
  given_back = [];
  reads = refl;
  can_read = tt;
  gives_back = refl;
  holds = extract-zeros (wire frame ++ 7 ∷ []);
  to_one = refl;
  to_other = λ e. absurd (ground arith);
  learnt = refl;
  connected = refl;
}

-- The receiver is the guest of device 0.
abbrev guests : ℕ → Option (Port lists list_rings bridge granting)
guests n = if n == 0 then some listener else none

guest_to_guest_example :
    (d : Delivery ℕ) × (p' : Port lists list_rings bridge granting) × (q' : Port lists list_rings
      bridge granting)
    × (transmit lists list_rings bridge granting tt 1 (chain (wire frame ++ 7 ∷ [])) port
        ≡ (p', ok tt))
    × (p'.switch.enqueued ≡ d ∷ [])
    × (guests d.device ≡ some listener)
    × (handle_rx_queued lists list_rings bridge granting (record listener {
      pending = enqueue lists list_rings bridge granting d.frame d.payload [];
    })
        ≡ (q', ok tt))
    × (q'.pending ≡ [])
    × (q'.notices
        ≡ called 8 notification
          ∷ used 6 27
          ∷ wrote 6 (7 ∷ [])
          ∷ wrote 6 (wire frame)
          ∷ wrote 6 plain
          ∷ [])
guest_to_guest_example =
    guest_to_guest lists list_rings granting list_rings-IsReading list_rings-IsDelivering tt tt 1 0
      8 60 (chain (wire frame ++ 7 ∷ [])) (record { head = 6; bytes = []; room = 60 }) frame
      (7 ∷ []) guests port listener refl port-Sends listener-Listens (omega arith)
