-- ===== src/Manager/Commands.antt =====
-- oathgate/src/main.rs and the commands of oathgate/src/cmd/: which function a command calls. What
-- they need of programs, libraries and processes that are not modelled is a parameter.
pub mod Tables
pub mod Invariant
use oathgate.Common.{ℕ, Bool, List, [], ◌∷◌, Option, none, some, Outcome, ok, ◌>>=◌}
use oathgate.Manager.Database.{Database, Error, Action, pure, lift, ◌>>◌}
use oathgate.Manager.Database
use oathgate.Manager.State.{Name, PathBuf, State}
use oathgate.Manager.Kernel.{kernel_install, kernel_set_default}
use oathgate.Manager.Kernel
use oathgate.Manager.Kernel.Version.{detect_kernel_version}
use oathgate.Manager.Image.{image_install}
use oathgate.Manager.Image
use oathgate.Manager.Device.{Device}
use oathgate.Manager.Device
use oathgate.Manager.Device.Bridges.{
  get_bridge, create_bridge, start_bridge, stop_bridge, delete_bridge,
}
use oathgate.Manager.Shard
use oathgate.Manager.Shard.Commands.{
  DeployOpts, Host, get_shard, shard_deploy, shard_run, stop_shard, shard_delete,
}

pub data BridgeCommand : Type 0 where
  create : PathBuf → Option Name → BridgeCommand
  start logs stop delete : Name → BridgeCommand
  list test : BridgeCommand

pub data KernelCommand : Type 0 where
  install : PathBuf → Option Name → Bool → KernelCommand
  list : KernelCommand
  set_default : Name → KernelCommand

pub data ImageCommand : Type 0 where
  install : PathBuf → Option Name → Option ℕ → ImageCommand
  list : ImageCommand

pub data ShardCommand : Type 0 where
  deploy : DeployOpts → ShardCommand
  run logs stop delete : Name → ShardCommand
  list : ShardCommand
  attach : Name → ℕ → ShardCommand

pub data Command : Type 0 where
  bridge : BridgeCommand → Command
  kernel : KernelCommand → Command
  image : ImageCommand → Command
  shard : ShardCommand → Command
  status : Command

-- What is outside of the database: the hash, the content of files, what the programs `file` and
-- `strings` and libmagic say of them, a version that the user gives, the configuration in a file,
-- the process of a bridge, what the system answers when a shard is started, the logs of an id, and a
-- terminal of a context id and a port.
pub record World : Type 0 where
  pub digest : List ℕ → List ℕ
  pub content : PathBuf → Outcome Error (List ℕ)
  pub file_type : PathBuf → Outcome Error (List ℕ)
  pub strings : PathBuf → Outcome Error (List ℕ)
  pub ask_version : Outcome Error (List ℕ)
  pub mime : PathBuf → Outcome Error (List ℕ)
  pub load_config : PathBuf → Outcome Error (List ℕ)
  pub run_bridge : Device → Outcome Error ℕ
  pub host : Host
  pub print_logs : ℕ → Outcome Error (Unit {0})
  pub attach : ℕ → ℕ → Outcome Error (Unit {0})

-- The version that was detected, or what the user gives.
unfoldable pub version_of : World → PathBuf → Outcome Error (List ℕ)
unfolding detect_kernel_version
version_of w path = do
  detected ← detect_kernel_version (w.file_type path) (w.strings path)
  elim detected [ none ↦ w.ask_version | some v ↦ ok v ]

unfoldable pub execute_bridge : State → World → BridgeCommand → Action (Unit {0})
unfolding get_bridge create_bridge start_bridge stop_bridge delete_bridge Device.get_all lift pure
    Database.◌>>=◌
execute_bridge s w (create config name) = create_bridge s (w.load_config config) name
execute_bridge s w (start name) = start_bridge s w.run_bridge name
execute_bridge s w list = Device.get_all s >> pure tt
execute_bridge s w (logs name) = Database.◌>>=◌ (get_bridge s name) λ d. lift (w.print_logs d.id)
execute_bridge s w (stop name) = stop_bridge s name
execute_bridge s w (delete name) = delete_bridge s name
execute_bridge s w test = pure tt

unfoldable pub execute_kernel : State → World → KernelCommand → Action (Unit {0})
unfolding kernel_install kernel_set_default version_of Kernel.get_all pure Database.◌>>=◌
execute_kernel s w (install path name default) =
    kernel_install s w.digest path (w.content path) name (version_of w path) default
execute_kernel s w list = Kernel.get_all >> pure tt
execute_kernel s w (set_default name) = kernel_set_default name

unfoldable pub execute_image : State → World → ImageCommand → Action (Unit {0})
unfolding image_install Image.get_all pure Database.◌>>=◌
execute_image s w (install path name root) =
    image_install s w.digest path (w.content path) name (w.mime path) root
execute_image s w list = Image.get_all >> pure tt

unfoldable pub execute_shard : State → World → ShardCommand → Action (Unit {0})
unfolding get_shard shard_deploy shard_run stop_shard shard_delete Shard.get_all lift pure
    Database.◌>>=◌
execute_shard s w (deploy opts) = shard_deploy s opts
execute_shard s w (run name) = shard_run s w.host name
execute_shard s w list = Shard.get_all s >> pure tt
execute_shard s w (logs name) = Database.◌>>=◌ (get_shard s name) λ x. lift (w.print_logs x.id)
execute_shard s w (attach name port) =
    Database.◌>>=◌ (get_shard s name) λ x. lift (w.attach x.cid port)
execute_shard s w (stop name) = stop_shard s name
execute_shard s w (delete name) = shard_delete s name

unfoldable pub execute : State → World → Command → Action (Unit {0})
unfolding execute_bridge execute_kernel execute_image execute_shard Database.◌>>=◌
execute s w (bridge c) = execute_bridge s w c
execute s w (kernel c) = execute_kernel s w c
execute s w (image c) = execute_image s w c
execute s w (shard c) = execute_shard s w c
execute s w status =
    execute_bridge s w BridgeCommand.list
    >> (execute_image s w ImageCommand.list
        >> (execute_kernel s w KernelCommand.list >> execute_shard s w ShardCommand.list))

-- The program is run again and again, each time in another state of the world.
unfoldable pub run_all : List (State × World × Command) → Database → Database
unfolding execute
run_all [] db = db
run_all ((s, w, c) ∷ cs) db = run_all cs (execute s w c db).1
