-- ===== src/Bridge/Switch/Learning.antt =====
-- What the switch learns from a frame (oathgate-bridge/src/net/switch.rs, `process`).
use oathgate.Common.{ℕ, ◌≡◌, ◌≤◌, ap, ◌∙◌, ite, arith, List, some, ok, err, length}
use oathgate.Common.HashMap.{get-insert}
use oathgate.Net.Error.{ProtocolError}
use oathgate.Net.Frame.{EthernetFrame, extract}
use oathgate.Net.Mac.{MacAddress, MacAddress-discrete}
use oathgate.Bridge.Switch.{
  VirtioSwitch, get_port, associate_port, learn, log_packet, switch_frame, process,
}

module _ (Device : Type 0) where
  pub get_port-learn :
      (s : VirtioSwitch Device) (port : ℕ) (src mac : MacAddress)
      → get_port Device (learn Device s port src) mac
        ≡ ite (MacAddress-discrete src mac) (some port) (get_port Device s mac)
  unfolding learn associate_port get_port
  get_port-learn s port src mac =
      ground (arith, get-insert MacAddress-discrete s.cache src mac port)

  pub log_packet-cache :
      (s : VirtioSwitch Device) (pkt : List ℕ)
      → ((log_packet Device s pkt).cache ≡ s.cache) × ((log_packet Device s pkt).ports ≡ s.ports)
  unfolding log_packet
  log_packet-cache s pkt = ground arith

  -- What `process` makes of a packet whose header is read.
  pub process-extract :
      (s : VirtioSwitch Device) (port : ℕ) (pkt rest : List ℕ) (frame : EthernetFrame)
      → 14 ≤ length pkt
      → extract pkt ≡ (ok frame, rest)
      → process Device s port pkt
        ≡ switch_frame Device (log_packet Device s pkt) port (ok frame, rest)
  unfolding process
  process-extract s port pkt rest frame h e = ground arith

  pub get_port-log_packet :
      (s : VirtioSwitch Device) (pkt : List ℕ) (mac : MacAddress)
      → get_port Device (log_packet Device s pkt) mac ≡ get_port Device s mac
  unfolding get_port log_packet
  get_port-log_packet s pkt mac = ground arith

  -- After a packet whose header is read, whoever sent it is found at the port that the packet came in
  -- at, and everyone else where they were found before.
  pub get_port-process :
      (s : VirtioSwitch Device) (port : ℕ) (pkt rest : List ℕ) (frame : EthernetFrame)
      (mac : MacAddress)
      → 14 ≤ length pkt
      → extract pkt ≡ (ok frame, rest)
      → get_port Device (process Device s port pkt).0 mac
        ≡ ite (MacAddress-discrete frame.src mac) (some port) (get_port Device s mac)
  unfolding switch_frame
  get_port-process s port pkt rest frame mac h e =
      ap (λ x. get_port Device x.0 mac) (process-extract s port pkt rest frame h e)
      ∙ get_port-learn (log_packet Device s pkt) port frame.src mac
      ∙ ap (ite (MacAddress-discrete frame.src mac) (some port)) (get_port-log_packet s pkt mac)

  -- A packet that the switch does not take, because it is short or of a type that it does not know,
  -- moves no address and no device.
  pub process_refused :
      (s : VirtioSwitch Device) (port : ℕ) (pkt : List ℕ) (e : ProtocolError)
      → (process Device s port pkt).1 ≡ err e
      → ((process Device s port pkt).0.cache ≡ s.cache)
        × ((process Device s port pkt).0.ports ≡ s.ports)
  unfolding process switch_frame log_packet
  process_refused s port pkt e h = ground arith
