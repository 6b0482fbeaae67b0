-- ===== src/Runner/Vm.antt =====
-- oathgate-runner/src/hypervisor.rs (`Hypervisor::new`) and hypervisor/vm.rs (`VmHandle::new`): a
-- virtual machine before it is started, with the socket that waits for the agent in its guest. The
-- command line is determined by the configuration and the context id, which stand for it; no network
-- is given. The answers of the system are a parameter: an error's number, if a call fails.
use oathgate.Common.{ℕ, Option, none, some, Outcome, ok, err, ◌>>◌}
use oathgate.Manager.State.{Name}
use oathgate.Manager.Shard.Machine.{MachineConfig}

-- The calls for sockets: `bind` by the context id and the port.
pub record Sockets : Type 0 where
  pub socket : Option ℕ
  pub bind : ℕ → ℕ → Option ℕ
  pub listen : Option ℕ

pub record VmHandle : Type 0 where
  pub id : ℕ
  pub machine : MachineConfig

unfoldable pub launch : ℕ → MachineConfig → VmHandle
launch cid machine = record { id = cid; machine = machine }

pub record Hypervisor : Type 0 where
  pub name : Name
  pub vm : VmHandle

-- The context id of the host
abbrev pub vmaddr_cid_host : ℕ
vmaddr_cid_host = 2

unfoldable pub called : Option ℕ → Outcome ℕ (Unit {0})
called none = ok tt
called (some e) = err e

unfoldable pub new : Sockets → Name → ℕ → MachineConfig → Outcome ℕ Hypervisor
unfolding launch called
new sys name cid config = do
  let vm = launch cid config
  called sys.socket
  called (sys.bind vmaddr_cid_host vm.id)
  called sys.listen
  ok (record { name = name; vm = vm })
