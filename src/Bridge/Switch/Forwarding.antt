-- ===== src/Bridge/Switch/Forwarding.antt =====
-- Where the switch sends a frame (oathgate-bridge/src/net/switch.rs, `process`).
use oathgate.Common.{
  ℕ, zero, suc, ◌+◌, ◌≡◌, ◌≤◌, ◌<◌, ◌≢◌, refl, sym, ap, ◌∙◌, ite, if_pos, if_neg, arith, List, [],
  ◌∷◌, ◌++◌, map, take, drop, get_elem?, none, some, true, false, ok, length,
}
use oathgate.Net.Frame.{EthernetFrame, extract}
use oathgate.Net.Mac.{MacAddress, MacAddress-discrete, is_broadcast}
use oathgate.Bridge.Switch.{
  VirtioSwitch, get_port, learn, log_packet, switch_frame, process, Delivery, flood, forward,
  unicast, associate_port,
}
use oathgate.Bridge.Switch.Learning.{
  get_port-learn, get_port-log_packet, process-extract, get_port-process, log_packet-cache,
}

module _ (Device : Type 0) where
  abbrev pub deliver : EthernetFrame → List ℕ → Device → Delivery Device
  deliver frame pkt dev = record { device = dev; frame = frame; payload = pkt }

  flood_after :
      (port idx : ℕ) (devs : List Device) (frame : EthernetFrame) (pkt : List ℕ)
      → port < idx
      → flood Device port idx devs frame pkt ≡ map (deliver frame pkt) devs
  unfolding flood
  flood_after port idx [] frame pkt h = refl
  flood_after port idx (d ∷ devs) frame pkt h =
      ground (arith, flood_after port (suc idx) devs frame pkt (omega arith))

  flood_from :
      (k idx : ℕ) (devs : List Device) (frame : EthernetFrame) (pkt : List ℕ)
      → flood Device (k + idx) idx devs frame pkt
        ≡ map (deliver frame pkt) (take k devs ++ drop (suc k) devs)
  unfolding flood
  flood_from zero idx [] frame pkt = refl
  flood_from (suc k) idx [] frame pkt = refl
  flood_from zero idx (d ∷ devs) frame pkt =
      ground (arith, flood_after idx (suc idx) devs frame pkt (omega arith))
  flood_from (suc k) idx (d ∷ devs) frame pkt =
      ground (arith, flood_from k (suc idx) devs frame pkt)

  -- A packet whose header is read and that goes to the broadcast address is delivered to every
  -- device but the one at the port it came from, in the order of the ports.
  pub process_broadcast :
      (s : VirtioSwitch Device) (port : ℕ) (pkt rest : List ℕ) (frame : EthernetFrame)
      → 14 ≤ length pkt
      → extract pkt ≡ (ok frame, rest)
      → is_broadcast frame.dst ≡ true
      → (process Device s port pkt).1
        ≡ ok (map (deliver frame rest) (take port s.ports ++ drop (suc port) s.ports))
  unfolding switch_frame forward learn associate_port
  process_broadcast s port pkt rest frame h e b =
      ap (λ x. x.1) (process-extract Device s port pkt rest frame h e)
      ∙ ground (arith, flood_from port 0 s.ports frame rest, log_packet-cache Device s pkt)

  process_ports :
      (s : VirtioSwitch Device) (port : ℕ) (pkt : List ℕ)
      → (process Device s port pkt).0.ports ≡ s.ports
  unfolding process switch_frame learn associate_port log_packet
  process_ports s port pkt = ground arith

  learn-ports :
      (s : VirtioSwitch Device) (port : ℕ) (src : MacAddress)
      → (learn Device s port src).ports ≡ s.ports
  unfolding learn associate_port
  learn-ports s port src = ground arith

  forward-unicast :
      (s : VirtioSwitch Device) (port : ℕ) (frame : EthernetFrame) (pkt : List ℕ)
      → is_broadcast frame.dst ≡ false
      → forward Device s port frame pkt
        ≡ unicast Device s.ports (get_port Device s frame.dst) frame pkt
  unfolding forward
  forward-unicast s port frame pkt b = ground arith

  pub process-unicast :
      (s : VirtioSwitch Device) (port : ℕ) (pkt rest : List ℕ) (frame : EthernetFrame)
      → 14 ≤ length pkt
      → extract pkt ≡ (ok frame, rest)
      → is_broadcast frame.dst ≡ false
      → (process Device s port pkt).1
        ≡ ok (
            unicast Device s.ports
              (ite
                (MacAddress-discrete frame.src frame.dst)
                (some port)
                (get_port Device s frame.dst))
              frame
              rest)
  unfolding switch_frame
  process-unicast s port pkt rest frame h e b =
      ap (λ x. x.1) (process-extract Device s port pkt rest frame h e)
      ∙ ap ok (
          forward-unicast (learn Device s' port frame.src) port frame rest b
          ∙ ap
              (λ ps.
                unicast Device ps (get_port Device (learn Device s' port frame.src) frame.dst) frame
                  rest)
              (learn-ports s' port frame.src ∙ (log_packet-cache Device s pkt).1)
          ∙ ap (λ o. unicast Device s.ports o frame rest)
              (get_port-learn Device s' port frame.src frame.dst
                ∙ ap (ite (MacAddress-discrete frame.src frame.dst) (some port))
                    (get_port-log_packet Device s pkt frame.dst)))
    where
      s' : VirtioSwitch Device
      s' = log_packet Device s pkt

  pub unicast_known :
      (ports : List Device) (port : ℕ) (dev : Device) (frame : EthernetFrame) (pkt : List ℕ)
      → get_elem? ports port ≡ some dev
      → unicast Device ports (some port) frame pkt ≡ deliver frame pkt dev ∷ []
  unfolding unicast
  unicast_known ports port dev frame pkt h = ground arith

  -- A packet whose header is read, and whose destination is neither the broadcast address nor the
  -- sender's nor one that the switch has learnt, is delivered to nobody.
  pub process_unknown :
      (s : VirtioSwitch Device) (port : ℕ) (pkt rest : List ℕ) (frame : EthernetFrame)
      → 14 ≤ length pkt
      → extract pkt ≡ (ok frame, rest)
      → is_broadcast frame.dst ≡ false
      → frame.src ≢ frame.dst
      → get_port Device s frame.dst ≡ none
      → (process Device s port pkt).1 ≡ ok []
  unfolding unicast
  process_unknown s port pkt rest frame h e b ne unknown =
      process-unicast s port pkt rest frame h e b
      ∙ ap (λ o. ok (unicast Device s.ports o frame rest))
          (if_neg (MacAddress-discrete frame.src frame.dst) ne (some port)
              (get_port Device s frame.dst)
            ∙ unknown)

  -- Once a host has sent a packet from the port of a connected device, a packet that another host
  -- sends to it, not to the broadcast address, is delivered to that device and to no other.
  pub process_learnt :
      (s : VirtioSwitch Device) (port port' : ℕ) (dev : Device) (pkt pkt' rest rest' : List ℕ)
      (frame frame' : EthernetFrame)
      → get_elem? s.ports port ≡ some dev
      → 14 ≤ length pkt
      → extract pkt ≡ (ok frame, rest)
      → 14 ≤ length pkt'
      → extract pkt' ≡ (ok frame', rest')
      → frame'.dst ≡ frame.src
      → frame'.src ≢ frame'.dst
      → is_broadcast frame'.dst ≡ false
      → (process Device (process Device s port pkt).0 port' pkt').1
        ≡ ok (deliver frame' rest' dev ∷ [])
  process_learnt s port port' dev pkt pkt' rest rest' frame frame' hd h e h' e' same ne b =
      process-unicast s' port' pkt' rest' frame' h' e' b
      ∙ ap (λ o. ok (unicast Device s'.ports o frame' rest'))
          (if_neg (MacAddress-discrete frame'.src frame'.dst) ne (some port')
              (get_port Device s' frame'.dst)
            ∙ get_port-process Device s port pkt rest frame frame'.dst h e
            ∙ if_pos (MacAddress-discrete frame.src frame'.dst) (sym same) (some port)
                (get_port Device s frame'.dst))
      ∙ ap (λ ps. ok (unicast Device ps (some port) frame' rest')) (process_ports s port pkt)
      ∙ ap ok (unicast_known s.ports port dev frame' rest' hd)
    where
      s' : VirtioSwitch Device
      s' = (process Device s port pkt).0
