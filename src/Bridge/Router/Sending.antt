-- ===== src/Bridge/Router/Sending.antt =====
-- What the router's packets to the local network come to (oathgate-bridge/src/net/router.rs,
-- `write_to_switch`, with oathgate-bridge/src/net/switch.rs).
use oathgate.Common.{
  ℕ, ◌≡◌, ◌≢◌, ap, ◌∙◌, if_neg, arith, List, [], ◌∷◌, ◌++◌, get_elem?, some, false, ok,
}
use oathgate.Net.EtherType.{EtherType, as_u16}
use oathgate.Net.Frame.{EthernetFrame}
use oathgate.Net.Frame.RoundTrip.{wire, extract-wire}
use oathgate.Net.Mac.{MacAddress, MacAddress-discrete, is_broadcast}
use oathgate.Bridge.Dhcp.Message.{Dhcproto}
use oathgate.Bridge.Switch.{VirtioSwitch, process, get_port, unicast}
use oathgate.Bridge.Switch.Forwarding.{process-unicast, unicast_known}
use oathgate.Bridge.Router.{Router, delivered, switched, write_to_switch}

module _ (Device : Type 0) where
  -- A host that the switch has learnt at the port of a device, neither everyone nor the sender.
  pub record Reaches (s : VirtioSwitch Device) (src dst : MacAddress) (dev : Device) : Type 0 where
    pub at_port : ℕ
    pub to_one : is_broadcast dst ≡ false
    pub to_other : src ≢ dst
    pub known : get_port Device s dst ≡ some at_port
    pub connected : get_elem? s.ports at_port ≡ some dev

  -- What the device at the host's port is given.
  pub process-Reaches :
      (s : VirtioSwitch Device) (port : ℕ) (f : EthernetFrame) (body : List ℕ) (dev : Device)
      → Reaches s f.src f.dst dev
      → (process Device s port (wire f ++ body)).1
        ≡ ok (record { device = dev; frame = f; payload = body } ∷ [])
  process-Reaches s port f body dev h =
      process-unicast Device s port (wire f ++ body) body f (omega arith) (extract-wire f body)
        h.to_one
      ∙ ap (λ o. ok (unicast Device s.ports o f body))
          (if_neg (MacAddress-discrete f.src f.dst) h.to_other (some port) (get_port Device s f.dst)
            ∙ h.known)
      ∙ ap ok (unicast_known Device s.ports h.at_port dev f body h.connected)

  module _ (proto : Dhcproto) (Handle : Type 0) where
    -- The frame has the router's hardware address as its source.
    pub write_to_switch-Reaches :
        (r : Router proto Device Handle) (dst : MacAddress) (ethertype : EtherType) (pkt : List ℕ)
        (dev : Device)
        → Reaches r.switch r.mac dst dev
        → let f : EthernetFrame = record { dst = dst; src = r.mac; ethertype = ethertype } in
          write_to_switch proto Device Handle r dst ethertype pkt ≡ (
            record r { switch = (process Device r.switch r.port (wire f ++ pkt)).0 },
            ok (delivered (record { device = dev; frame = f; payload = pkt }) ∷ []),
          )
    unfolding write_to_switch switched as_u16
    write_to_switch-Reaches r dst ethertype pkt dev h =
        let f : EthernetFrame = record { dst = dst; src = r.mac; ethertype = ethertype } in
        ap
          (λ o.
            switched proto Device Handle r ((process Device r.switch r.port (wire f ++ pkt)).0, o))
          (process-Reaches r.switch r.port f pkt dev h)
