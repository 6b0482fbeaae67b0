-- ===== src/Manager/Shard/Commands.antt =====
-- oathgate/src/cmd/shard.rs: the commands on shards. The system's answers to the calls that start a
-- shard are a parameter, `Host`.
use oathgate.Common.{ℕ, List, if◌then◌else◌, Option, none, some, Outcome, ok_or, map_err}
use oathgate.Manager.Database.{
  Kernel, Error, Action, shard_not_found, still_running, io, raise, lift, ◌>>=◌, ◌>>◌,
}
use oathgate.Manager.State.{
  Name, State, ask_deploy, ask_stop_shard, ask_delete_shard, name_or, confirm,
}
use oathgate.Manager.Kernel
use oathgate.Manager.Image
use oathgate.Manager.Device
use oathgate.Manager.Shard.{Shard, build, get, save, deploy, purge, is_running, set_running, stop}
use oathgate.Manager.Shard.Machine.{generate_machine_config}
use oathgate.Runner.Vm.{Sockets, Hypervisor}
use oathgate.Runner.Vm

pub record DeployOpts : Type 0 where
  pub name : Option Name
  pub image : Name
  pub kernel : Option Name
  pub memory : ℕ
  pub cpu : List ℕ
  pub network : List Name

unfoldable pub get_shard : State → Name → Action Shard
unfolding get lift ◌>>=◌
get_shard s name = do x ← get s name; lift (ok_or x shard_not_found)

-- The kernel that was named, or the default.
unfoldable pub kernel_or : Option Name → Action Kernel
unfolding Kernel.get Kernel.get_default
kernel_or none = Kernel.get_default
kernel_or (some name) = Kernel.get name

-- Adding a network to the builder does nothing.
unfoldable pub shard_deploy : State → DeployOpts → Action (Unit {0})
unfolding name_or Image.get kernel_or Device.get_many confirm build save deploy lift ◌>>=◌
shard_deploy s opts = do
  name ← lift (name_or s opts.name)
  image ← Image.get opts.image
  kernel ← kernel_or opts.kernel
  Device.get_many s opts.network
  lift (confirm s ask_deploy)
  x ← lift (
      build s (record {
        name = some name;
        cpu = some opts.cpu;
        memory = some opts.memory;
        kernel = some kernel;
        boot_disk = some image;
      }))
  save x
  lift (deploy s x)

-- What the system answers when a shard is started: to the calls for sockets, to opening the logger's
-- database for an id, and to the fork, which gives the new process.
pub record Host : Type 0 where
  pub sockets : Sockets
  pub subscriber : ℕ → Outcome Error (Unit {0})
  pub fork : Shard → Hypervisor → Outcome Error ℕ

unfoldable pub shard_run : State → Host → Name → Action (Unit {0})
unfolding get_shard generate_machine_config Vm.new set_running save lift ◌>>=◌
shard_run s host name = do
  x ← get_shard s name
  let cfg = generate_machine_config s x
  hv ← lift (map_err io (Vm.new host.sockets x.name x.cid cfg))
  lift (host.subscriber x.id)
  pid ← lift (host.fork x hv)
  save (set_running pid x)

unfoldable pub stop_shard : State → Name → Action (Unit {0})
unfolding get_shard confirm stop save lift ◌>>=◌
stop_shard s name = do
  x ← get_shard s name
  lift (confirm s ask_stop_shard)
  x' ← lift (stop s x)
  save x'

unfoldable pub shard_delete : State → Name → Action (Unit {0})
unfolding get_shard is_running confirm purge raise lift ◌>>=◌
shard_delete s name = do
  x ← get_shard s name
  (if is_running x then raise still_running else (lift (confirm s ask_delete_shard) >> purge s x))
