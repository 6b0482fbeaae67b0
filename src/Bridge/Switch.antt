-- ===== src/Bridge/Switch.antt =====
-- oathgate-bridge/src/net/switch.rs: a layer 2 switch that learns where addresses are. A connected
-- device is a value of `Device`; what is put into devices' queues is a list of deliveries, and what
-- goes to the packet logger a list of packets. The locks are held for one call and are not modelled.
pub mod Learning
pub mod Forwarding
use oathgate.Common.{
  ℕ, suc, Bool, List, [], ◌∷◌, ◌++◌, length, get_elem?, Option, none, some, ltb, ◌==◌,
  if◌then◌else◌, Outcome, ok, err, panic,
}
use oathgate.Common.HashMap.{HashMap}
use oathgate.Common.HashMap
use oathgate.Net.Error.{ProtocolError, not_enough_data}
use oathgate.Net.Frame.{EthernetFrame, extract}
use oathgate.Net.Mac.{MacAddress, MacAddress-discrete, is_broadcast}

abbrev pub ethernet_hdr_sz : ℕ
ethernet_hdr_sz = 14

module _ (Device : Type 0) where
  pub record VirtioSwitch : Type 0 where
    pub ports : List Device
    pub cache : HashMap MacAddress ℕ
    pub logging : Bool
    pub logged : List (List ℕ)

  -- One call of `enqueue`: the device, the frame's header and its payload.
  pub record Delivery : Type 0 where
    pub device : Device
    pub frame : EthernetFrame
    pub payload : List ℕ

  unfoldable pub new : Bool → VirtioSwitch
  new pcap = record { ports = []; cache = HashMap.empty; logging = pcap; logged = [] }

  unfoldable pub associate_port : VirtioSwitch → ℕ → MacAddress → VirtioSwitch
  associate_port s port mac = record s {
    cache = HashMap.insert MacAddress-discrete s.cache mac port;
  }

  unfoldable pub get_port : VirtioSwitch → MacAddress → Option ℕ
  get_port s mac = HashMap.get MacAddress-discrete s.cache mac

  -- The new device's port is its index.
  unfoldable pub connect : VirtioSwitch → Device → VirtioSwitch × ℕ
  connect s device = (record s { ports = s.ports ++ device ∷ [] }, length s.ports)

  unfoldable pub log_packet : VirtioSwitch → List ℕ → VirtioSwitch
  log_packet s pkt = if s.logging then record s { logged = s.logged ++ pkt ∷ [] } else s

  -- `match self.get_port(frame.src)`: the source's port is entered unless it is known.
  unfoldable pub learn : VirtioSwitch → ℕ → MacAddress → VirtioSwitch
  unfolding get_port associate_port
  learn s port mac = elim (get_port s mac) [
    | some p ↦ if p == port then s else associate_port s port mac
    | none ↦ associate_port s port mac
  ]

  -- The loop over all ports from `idx` on but the originator's.
  unfoldable pub flood : ℕ → ℕ → List Device → EthernetFrame → List ℕ → List Delivery
  flood port idx [] frame pkt = []
  flood port idx (dev ∷ devs) frame pkt =
      let rest = flood port (suc idx) devs frame pkt in
      if idx == port then rest else record { device = dev; frame = frame; payload = pkt } ∷ rest

  -- A delivery to the device at a port, if one is connected.
  unfoldable pub unicast : List Device → Option ℕ → EthernetFrame → List ℕ → List Delivery
  unicast ports none frame pkt = []
  unicast ports (some port) frame pkt = elim (get_elem? ports port) [
    | some dev ↦ record { device = dev; frame = frame; payload = pkt } ∷ []
    | none ↦ []
  ]

  unfoldable pub forward : VirtioSwitch → ℕ → EthernetFrame → List ℕ → List Delivery
  unfolding get_port flood unicast
  forward s port frame pkt =
      if is_broadcast frame.dst
      then flood port 0 s.ports frame pkt
      else unicast s.ports (get_port s frame.dst) frame pkt

  -- What follows the frame's header: learning, and forwarding by the cache that results.
  unfoldable pub switch_frame :
      VirtioSwitch
      → ℕ
      → Outcome ProtocolError EthernetFrame × List ℕ
      → VirtioSwitch × Outcome ProtocolError (List Delivery)
  unfolding learn forward
  switch_frame s port (ok frame, pkt) =
      let s' = learn s port frame.src in (s', ok (forward s' port frame pkt))
  switch_frame s port (err e, pkt) = (s, err e)
  switch_frame s port (panic, pkt) = (s, panic)

  -- The switch after a packet that came in at `port`, and what it delivers.
  unfoldable pub process :
      VirtioSwitch → ℕ → List ℕ → VirtioSwitch × Outcome ProtocolError (List Delivery)
  unfolding log_packet extract switch_frame
  process s port pkt =
      if ltb (length pkt) ethernet_hdr_sz
      then (s, err (not_enough_data (length pkt) ethernet_hdr_sz))
      else switch_frame (log_packet s pkt) port (extract pkt)
