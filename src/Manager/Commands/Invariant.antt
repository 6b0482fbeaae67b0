-- ===== src/Manager/Commands/Invariant.antt =====
-- What every command of the program (oathgate/src/cmd/) keeps true of the database.
use oathgate.Common.{List, [], ◌∷◌, Option, none, some}
use oathgate.Manager.Database.{Database}
use oathgate.Manager.Database
use oathgate.Manager.Database.Keeps.{Keeps}
use oathgate.Manager.State.{Name, State}
use oathgate.Manager.Kernel
use oathgate.Manager.Image
use oathgate.Manager.Device
use oathgate.Manager.Device.{Device}
use oathgate.Manager.Device.Bridges.{
  get_bridge, create_bridge, start_bridge, stop_bridge, stop_first, delete_bridge,
}
use oathgate.Manager.Shard
use oathgate.Manager.Shard.Commands.{
  get_shard, kernel_or, shard_deploy, shard_run, stop_shard, shard_delete,
}
use oathgate.Manager.Commands.Tables.{IsDatabase, saves_rules}
use oathgate.Manager.Commands.{
  Command, BridgeCommand, KernelCommand, ImageCommand, ShardCommand, World, bridge, kernel, image,
  shard, status, execute_bridge, execute_kernel, execute_image, execute_shard, execute, run_all,
}

execute_kernel-Keeps :
    (s : State) (w : World) (c : KernelCommand) → Keeps IsDatabase (execute_kernel s w c)
unfolding execute_kernel Kernel.kernel_install Kernel.kernel_set_default Kernel.get Kernel.get_all
execute_kernel-Keeps s w (KernelCommand.install path name default) = search saves_rules depth 24
execute_kernel-Keeps s w KernelCommand.list = search saves_rules depth 24
execute_kernel-Keeps s w (KernelCommand.set_default name) = search saves_rules depth 24

execute_image-Keeps :
    (s : State) (w : World) (c : ImageCommand) → Keeps IsDatabase (execute_image s w c)
unfolding execute_image Image.image_install Image.get_all
execute_image-Keeps s w (ImageCommand.install path name root) = search saves_rules depth 24
execute_image-Keeps s w ImageCommand.list = search saves_rules depth 24

get_bridge-Keeps : (s : State) (name : Name) → Keeps IsDatabase (get_bridge s name)
unfolding get_bridge Device.get
get_bridge-Keeps s name = search saves_rules depth 24

stop_first-Keeps : (s : State) (d : Device) → Keeps IsDatabase (stop_first s d)
unfolding stop_first
stop_first-Keeps s d = search saves_rules depth 24

execute_bridge-Keeps :
    (s : State) (w : World) (c : BridgeCommand) → Keeps IsDatabase (execute_bridge s w c)
unfolding execute_bridge create_bridge start_bridge stop_bridge delete_bridge Device.get_all
execute_bridge-Keeps s w (BridgeCommand.create config name) = search saves_rules depth 24
execute_bridge-Keeps s w (BridgeCommand.start name) =
    search (saves_rules, get_bridge-Keeps) depth 24
execute_bridge-Keeps s w BridgeCommand.list = search saves_rules depth 24
execute_bridge-Keeps s w (BridgeCommand.logs name) = search (saves_rules, get_bridge-Keeps) depth 24
execute_bridge-Keeps s w (BridgeCommand.stop name) = search (saves_rules, get_bridge-Keeps) depth 24
execute_bridge-Keeps s w (BridgeCommand.delete name) =
    search (saves_rules, get_bridge-Keeps, stop_first-Keeps) depth 24
execute_bridge-Keeps s w BridgeCommand.test = search saves_rules depth 24

get_shard-Keeps : (s : State) (name : Name) → Keeps IsDatabase (get_shard s name)
unfolding get_shard Shard.get
get_shard-Keeps s name = search saves_rules depth 24

kernel_or-Keeps : (name : Option Name) → Keeps IsDatabase (kernel_or name)
unfolding kernel_or Kernel.get Kernel.get_default
kernel_or-Keeps none = search saves_rules depth 24
kernel_or-Keeps (some name) = search saves_rules depth 24

execute_shard-Keeps :
    (s : State) (w : World) (c : ShardCommand) → Keeps IsDatabase (execute_shard s w c)
unfolding execute_shard shard_deploy shard_run stop_shard shard_delete Shard.get_all Shard.purge
    Image.get Device.get_many
execute_shard-Keeps s w (ShardCommand.deploy opts) = search (saves_rules, kernel_or-Keeps) depth 24
execute_shard-Keeps s w (ShardCommand.run name) = search (saves_rules, get_shard-Keeps) depth 24
execute_shard-Keeps s w ShardCommand.list = search saves_rules depth 24
execute_shard-Keeps s w (ShardCommand.logs name) = search (saves_rules, get_shard-Keeps) depth 24
execute_shard-Keeps s w (ShardCommand.attach name port) =
    search (saves_rules, get_shard-Keeps) depth 24
execute_shard-Keeps s w (ShardCommand.stop name) = search (saves_rules, get_shard-Keeps) depth 24
execute_shard-Keeps s w (ShardCommand.delete name) = search (saves_rules, get_shard-Keeps) depth 24

execute-Keeps : (s : State) (w : World) (c : Command) → Keeps IsDatabase (execute s w c)
unfolding execute
execute-Keeps s w (bridge c) = execute_bridge-Keeps s w c
execute-Keeps s w (kernel c) = execute_kernel-Keeps s w c
execute-Keeps s w (image c) = execute_image-Keeps s w c
execute-Keeps s w (shard c) = execute_shard-Keeps s w c
execute-Keeps s w status =
    search
      (
        saves_rules, execute_bridge-Keeps, execute_image-Keeps, execute_kernel-Keeps,
        execute_shard-Keeps,
      )
      depth 24

run_all-Keeps :
    (cs : List (State × World × Command)) (db : Database)
    → IsDatabase db
    → IsDatabase (run_all cs db)
unfolding run_all
run_all-Keeps [] db h = h
run_all-Keeps ((s, w, c) ∷ cs) db h =
    run_all-Keeps cs (execute s w c db).1 ((execute-Keeps s w c).at db h)

-- Whatever commands are run on a new database, and whatever the user, the system and the libraries
-- answer, fail or not: in each table ids differ, the hashes of kernels differ and those of images, and
-- one kernel at most is the default.
pub run_all-IsDatabase :
    (cs : List (State × World × Command)) → IsDatabase (run_all cs Database.new)
run_all-IsDatabase cs =
    run_all-Keeps cs Database.new
      (record { kernels = (tt, tt, tt); images = (tt, tt); devices = tt; shards = tt })
