-- ===== src/Terminal/Guest/Started.antt =====
-- What the agent would tell the hypervisor of its start (oathgate-fabrial/src/main.rs and
-- oathgate-runner/src/hypervisor.rs).
use oathgate.Common.{ℕ, ◌+◌, ◌*◌, ◌^◌, ◌<◌, ◌≡◌, arith, List, take}
use oathgate.Common.Bytes.{from_le, to_le, from_le-to_le}
use oathgate.Net.Mac.{MacAddress}
use oathgate.Terminal.Guest.{cid_of}

-- `u16::from_le_bytes` of the two bytes that the hypervisor reads.
unfoldable pub read_vmid : List ℕ → ℕ
unfolding from_le
read_vmid bytes = from_le (take 2 bytes)

-- Of the four bytes of a context id that comes from a hardware address, the two that the hypervisor
-- reads are the context id.
pub read_vmid-to_le :
    (mac : MacAddress)
    → mac.octet4 < 256
    → mac.octet5 < 256
    → read_vmid (to_le 4 (cid_of mac)) ≡ cid_of mac
unfolding cid_of read_vmid to_le
read_vmid-to_le mac h4 h5 =
    let below : mac.octet4 * 256 + mac.octet5 < 256 ^ 2 = omega (arith, h4, h5) in
    from_le-to_le 2 (mac.octet4 * 256 + mac.octet5) below
