-- ===== src/Lib.antt =====
-- Oathgate: virtual machines, and a bridge between them and a network. A hypervisor hands its network
-- device to the bridge by the vhost-user protocol (crate oathgate-vhost); the frames of the guests go
-- from the rings in their memory to a switch, to which a router with its own servers is connected
-- (crate oathgate-bridge); the packets are those of the crate oathgate-net. The switch delivers a frame
-- to a device, the router is one of its devices, and the router writes to the wide area network, from
-- which packets come back to it. The command line (crate oathgate) starts and stops the machines, and
-- its runner (oathgate-runner) talks to an agent in the guest (oathgate-fabrial) that has terminals.
--
-- Common: what Rust's types mean. `Outcome` is a result that may also be a panic (an index out of
--   range, an `unwrap`, a `todo!()`); byte buffers are lists of numbers with slices and
--   `copy_from_slice` (oathgate-net/src/macros.rs); `HashMap` is an association list; a number of w bits
--   wraps where the source wraps, by `% 2 ^ w`.
-- Net: oathgate-net/src. Error and Checksum: lib.rs. EtherType: types.rs. Mac, Mac/Text: types/mac.rs. Network:
--   types/netaddress.rs (Network/Prefix reads a mask as the length of a prefix; Network/Text and
--   Network/Ipv6 are its text and `Ipv6Network`). Frame: frame.rs. Ipv4:
--   ipv4.rs. Arp and Icmp: protocols/. Nat: nat.rs. The names are the source's, but `as_bytes` of a
--   header into a buffer is `write_header`, `frame_bytes`, `arp_bytes` or `icmp_bytes`.
-- Bridge: oathgate-bridge/src/net. Switch: switch.rs. Dhcp and Dhcp/Message: dhcp.rs, with the crate
--   dhcproto as the parameter `Dhcproto`. Handler: router/handler.rs, router/handler/icmp.rs and
--   router/handler/udp.rs. Router: router.rs, where `step` is the treatment of one message and `run` the
--   loop over the messages; what leaves the router is a list of outputs. Wan/Udp, Wan/Tap and
--   Wan/Wireguard: wan/udp.rs, wan/tap.rs and wan/wireguard.rs, with the crate boringtun as the parameter
--   `Tunn`. Guests: the switch as the devices of Vhost use it.
-- Vhost: oathgate-vhost/src. Types and NetHeader: types.rs. Mapping: `GuestMapping` of types.rs and
--   `compute_guest_address` of device.rs. Queue: the state of queue.rs, with the crates virtio_queue and
--   vm_memory as the parameter `VirtioQueue`. Rings: `kick_tx`, `kick_rx`, `handle_rx_queued` and `call` of
--   queue.rs, with what those crates do with descriptor chains as the parameter `Rings`, whose laws are
--   `IsReading` and `IsDelivering`, on readers that can be read, valid chains and ready queues only;
--   Rings/Lists has rings that satisfy them. Device: device.rs,
--   `parse_msg`, one handler for a request, in a monad that keeps the state that a failing handler
--   leaves; a system call is recorded in the state and its answer is a parameter. Worker: device.rs,
--   `new`, `enqueue`, `read_stream` and `run`, where the answers of `recvmsg` are a list.
-- Terminal: Client is oathgate-runner/src/pty/fabrial.rs, Agent is oathgate-fabrial/src/tty.rs.
--   Attach: oathgate/src/cmd/shard/fabrial.rs, the terminal of the command line for the same agent. Guest:
--   oathgate-fabrial/src/main.rs.
-- Runner: oathgate-runner/src. Terminals: hypervisor/terminal.rs. Vm: `new` of hypervisor.rs and of
--   hypervisor/vm.rs, with the calls for the socket as the parameter `Sockets`. Hypervisor: `run` of
--   hypervisor.rs over events that come with the answers of the system.
-- Manager: oathgate/src, the command line. Process: process.rs. Database: the tables of
--   database/migration.rs as lists of rows, with the effect of the SQL statements on them, and
--   `Database::transaction` of database.rs; an action gives its result beside the database it leaves.
--   State: what the commands share in main.rs and cmd.rs, with the answers of the user and the system
--   as parameters. Kernel, Image, Device and Shard: database/kernel.rs, image.rs, device.rs and
--   shard.rs, with the commands of cmd/kernel.rs, cmd/image.rs, cmd/bridge.rs (Device/Bridges) and
--   cmd/shard.rs (Shard/Commands). Commands: which function a command calls, and `run_all`, the program
--   run again and again on one database. Logger: logger.rs and database/log.rs (Logger/Entries), with the
--   crate serde_json as the parameter `Json`.
--
-- Bounds: an IPv4 address is a number below 2 ^ 32, an IPv6 address below 2 ^ 128. The loop that lists
-- the addresses of a DHCP server has fuel 2 ^ 32, which is enough because there are no more addresses
-- than that. The loop that reads a descriptor chain has a round for each buffer of 4096 bytes, and one
-- more; those over the messages of a control stream or of a terminal's socket have one round more than
-- there are answers or bytes; the loop that empties a tunnel's queue has as many rounds as are given,
-- and Wan/Wireguard/Queue says how many are enough; stopping a process has five. A number of 16 bits
-- has five decimal digits at most. All other loops are over lists or over a number of rounds that the
-- source counts.
--
-- Not modelled: tracing, locks, threads and channels; the thread that writes the packet log; random
-- identifications, which are arguments; the random generation of hardware addresses; opening other
-- sockets, tap devices and tunnels; short writes, of which the source takes no notice; errors of SQLite other
-- than the constraints; what is printed; the command line of qemu. Forking a process is a parameter.
pub mod Common
pub mod Net
pub mod Bridge
pub mod Vhost
pub mod Terminal
pub mod Runner
pub mod Manager
