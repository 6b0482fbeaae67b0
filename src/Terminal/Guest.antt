-- ===== src/Terminal/Guest.antt =====
-- oathgate-fabrial/src/main.rs: the start of the agent in a guest. The calls of the system on sockets
-- are parameters; options, logs and timers are not modelled.
pub mod Started
use oathgate.Common.{
  ℕ, ◌+◌, ◌-◌, ◌*◌, ◌%◌, ◌^◌, Bool, true, false, List, [], ◌∷◌, if◌then◌else◌, Option, none, some,
  Outcome, ok, err, panic, ◌>>=◌, ◌>>◌,
}
use oathgate.Common.Bytes.{to_le}
use oathgate.Net.Mac.{MacAddress}

-- An address: the four bytes of an IPv4 address with a port, or a context id with a port.
pub data Addr : Type 0 where
  inet : (a b c d port : ℕ) → Addr
  vsock : (cid port : ℕ) → Addr

-- The system calls, by an error number, or none; of `accept` the socket.
pub record System : Type 0 where
  pub socket : Option ℕ
  pub bind : Addr → Option ℕ
  pub listen : Option ℕ
  pub connect : Addr → Option ℕ
  pub send : Addr → List ℕ → Option ℕ

unfoldable pub call : Option ℕ → Outcome ℕ (Unit {0})
call none = ok tt
call (some e) = err e

unfoldable pub new_tcp : (a b c d port : ℕ) → Addr
new_tcp a b c d port = inet a b c d port

unfoldable pub new_vsock : (cid port : ℕ) → Addr
new_vsock cid port = vsock cid port

unfoldable pub connect : System → Addr → Outcome ℕ (Unit {0})
unfolding call
connect sys host = do call sys.socket; call (sys.connect host)

unfoldable pub notify_started : System → Addr → ℕ → Outcome ℕ (Unit {0})
unfolding connect call to_le
notify_started sys host id = do connect sys host; call (sys.send host (to_le 4 id))

-- The context id is the number of the last two bytes of the hardware address.
unfoldable pub cid_of : MacAddress → ℕ
cid_of mac = mac.octet4 * 256 + mac.octet5

-- `VMADDR_CID_ANY`
abbrev pub cid_any : ℕ
cid_any = 2 ^ 32 - 1

-- The address that is bound, and that of the host.
unfoldable pub addresses : (tcp : Bool) → (port cid : ℕ) → Addr × Addr
unfolding new_tcp new_vsock
addresses true port cid = (inet 127 0 0 1 (port % 2 ^ 16), new_tcp 127 0 0 1 3714)
addresses false port cid = (vsock cid_any port, new_vsock cid cid)

-- An event with the answers of its handler.
pub data Event : Type 0 where
  health_timer unknown : Event
  connection : (accept spawn : Option ℕ) → Event

unfoldable pub handle_event : Event → Outcome ℕ (Unit {0})
unfolding call
handle_event health_timer = ok tt
handle_event unknown = ok tt
handle_event (connection accept spawn) = call accept >> call spawn

-- The loop over the events that come; an error ends it.
unfoldable pub poll : List Event → Outcome ℕ (Unit {0})
unfolding handle_event
poll [] = ok tt
poll (e ∷ es) = handle_event e >> poll es

-- `mac` is that of the interface.
unfoldable pub run :
    System → (mac : Outcome ℕ MacAddress) → (tcp : Bool) → ℕ → List Event → Outcome ℕ (Unit {0})
unfolding cid_of addresses call poll
run sys mac tcp port es = do
  mac ← mac
  let cid = cid_of mac
  call sys.socket
  call (sys.bind (addresses tcp port cid).0)
  call sys.listen
  poll es
