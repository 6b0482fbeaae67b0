-- ===== src/Manager/Tests.antt =====
-- The theorems about processes, kernels, bridges and shards at a concrete database.
use oathgate.Common.{
  ℕ, zero, suc, ◌≡◌, ◌≢◌, refl, arith, true, false, List, [], ◌∷◌, ◌++◌, Option, none, some, ok,
}
use oathgate.Manager.Process.{running, System, stop, stopped}
use oathgate.Manager.Process.Stopping.{IsStop, stop-IsStop}
use oathgate.Manager.Database.{Kernel, ImageRow, DeviceRow, Row, Database, Error}
use oathgate.Manager.Database
use oathgate.Manager.Database.Table.{same}
use oathgate.Manager.Database.Table
use oathgate.Manager.State.{State, confirm, ask_delete_shard}
use oathgate.Manager.Kernel
use oathgate.Manager.Kernel.Default.{IsKernels, kernel_set_default-get_default}
use oathgate.Common.Split.{split}
use oathgate.Manager.Kernel.Version.{extract, word_after, version_word}
use oathgate.Manager.Image
use oathgate.Manager.Image.Format.{raw}
use oathgate.Manager.Device
use oathgate.Manager.Device.{Device}
use oathgate.Manager.Device.Bridges.{get_bridge, delete_bridge}
use oathgate.Manager.Device.Bridges.Deletion.{without_device, delete_bridge-without_device}
use oathgate.Manager.Shard
use oathgate.Manager.Shard.{Shard}
use oathgate.Manager.Shard.Commands.{
  DeployOpts, Host, get_shard, kernel_or, shard_deploy, shard_run, stop_shard, shard_delete,
}
use oathgate.Manager.Shard.Deployed.{shard_deploy-get_shard}
use oathgate.Manager.Shard.Running.{stop_shard-stops, shard_run-IsStarted}
use oathgate.Manager.Commands.{World, Command, KernelCommand, kernel, run_all}
use oathgate.Manager.Commands.Tables.{IsDatabase}
use oathgate.Manager.Commands.Invariant.{run_all-IsDatabase}

-- A process that ends after the first request.
abbrev first_alive : ℕ → Option ℕ
first_alive zero = none
first_alive (suc i) = some 3

abbrev obedient : System
obedient = record { probe = first_alive; kill = λ i s. none }

stop-IsStop_example : IsStop obedient (stop obedient 77)
stop-IsStop_example = stop-IsStop obedient 77

abbrev state : State
state = record {
  base = (116 ∷ []) ∷ [];
  no_confirm = true;
  answer = λ p. none;
  next_name = some (120 ∷ []);
  next_id = 9;
  next_cid = 20001;
  probe = λ pid. none;
  system = λ pid. obedient;
  file = λ op. none;
}

abbrev old_kernel : Kernel
old_kernel = record { id = 1; hash = 65 ∷ []; name = 97 ∷ []; version = []; default = true }

abbrev new_kernel : Kernel
new_kernel = record { id = 2; hash = 66 ∷ []; name = 98 ∷ []; version = []; default = false }

abbrev image_row : ImageRow
image_row = record {
  id = 3;
  hash = 67 ∷ [];
  name = 99 ∷ [];
  format = 114 ∷ 97 ∷ 119 ∷ [];
  root = none;
}

abbrev device_row : ℕ → Option ℕ → DeviceRow
device_row id pid = record { id = id; pid = pid; name = 110 ∷ id ∷ []; device = 0; config = [] }

abbrev row : ℕ → Option ℕ → Row
row id pid = record {
  id = id;
  name = 97 ∷ id ∷ [];
  pid = pid;
  cid = 20000;
  cpu = [];
  memory = 512;
  kernel = 1;
  boot_disk = 3;
}

abbrev database : Option ℕ → Option ℕ → Database
database net vm = record {
  kernels = old_kernel ∷ new_kernel ∷ [];
  images = image_row ∷ [];
  devices = device_row 1 none ∷ device_row 2 net ∷ [];
  shards = row 1 none ∷ row 2 vm ∷ [];
}

abbrev shard : Shard
shard = record {
  id = 2;
  cid = 20000;
  name = 97 ∷ 2 ∷ [];
  state = running 77;
  cpu = [];
  memory = 512;
  kernel = old_kernel;
  boot_disk = record { id = 3; hash = 67 ∷ []; name = 99 ∷ []; format = raw; root = none };
}

differ : ◌≢◌ {A = ℕ} 2 1
differ e = absurd (omega (arith, e))

two-IsKernels : IsKernels (old_kernel ∷ new_kernel ∷ [])
unfolding same
two-IsKernels = (((differ, tt), (tt, tt)), ((refl, tt), (tt, tt)), ((refl, tt), (tt, tt)))

found-kernel : Kernel.get (98 ∷ []) (database none none) ≡ (ok new_kernel, database none none)
unfolding Kernel.get
found-kernel = refl

kernel_set_default-get_default_example :
    (db' : Database) × (Kernel.kernel_set_default (98 ∷ []) (database none none) ≡ (ok tt, db'))
    × (Kernel.get_default db' ≡ (ok (Kernel.set_default new_kernel), db'))
    × IsKernels db'.kernels
kernel_set_default-get_default_example =
    kernel_set_default-get_default (98 ∷ []) new_kernel (database none none) two-IsKernels
      found-kernel

-- `Linux version 6.9`
linux_words : extract (76 ∷ 32 ∷ version_word ++ 32 ∷ 54 ∷ 46 ∷ 57 ∷ []) ≡ some (54 ∷ 46 ∷ 57 ∷ [])
unfolding extract split word_after same
linux_words = refl

deletes-bridge :
    delete_bridge state (110 ∷ 2 ∷ []) (database (some 77) none)
    ≡ (ok tt, record (database none none) { devices = device_row 1 none ∷ [] })
unfolding delete_bridge
deletes-bridge = refl

delete_bridge-without_device_example :
    (d : Device) × (get_bridge state (110 ∷ 2 ∷ []) (database (some 77) none)
      ≡ (ok d, database (some 77) none))
    × (record (database none none) { devices = device_row 1 none ∷ [] }
        ≡ without_device d.id (database (some 77) none))
delete_bridge-without_device_example =
    delete_bridge-without_device state (110 ∷ 2 ∷ []) (database (some 77) none)
      (record (database none none) { devices = device_row 1 none ∷ [] }) deletes-bridge

found-shard :
    get_shard state (97 ∷ 2 ∷ []) (database none (some 77)) ≡ (ok shard, database none (some 77))
unfolding get_shard
found-shard = refl

stops-shard : stop_shard state (97 ∷ 2 ∷ []) (database none (some 77)) ≡ (ok tt, database none none)
unfolding stop_shard
stops-shard = refl

confirmed : confirm state ask_delete_shard ≡ ok tt
unfolding confirm
confirmed = refl

stop_shard-stops_example :
    (x : Shard) × (get_shard state (97 ∷ 2 ∷ []) (database none (some 77))
      ≡ (ok x, database none (some 77)))
    × (get_shard state (97 ∷ 2 ∷ []) (database none none)
        ≡ (ok (Shard.set_stopped x), database none none))
    × ((shard_delete state (97 ∷ 2 ∷ []) (database none none)).1 ≡ record (database none none) {
      shards = Table.delete Shard.id_of x.id (database none none).shards;
    })
stop_shard-stops_example =
    stop_shard-stops state state (97 ∷ 2 ∷ []) (database none (some 77)) (database none none)
      ((differ, tt), (tt, tt)) confirmed stops-shard

-- Every call succeeds.
abbrev host : Host
host = record {
  sockets = record { socket = none; bind = λ cid port. none; listen = none };
  subscriber = λ id. ok tt;
  fork = λ x hv. ok 78;
}

shard_run-IsStarted_example :
    (db' : Database) × (shard_run state host (97 ∷ 2 ∷ []) (database none (some 77)) ≡ (ok tt, db'))
    × (get_shard state (97 ∷ 2 ∷ []) db' ≡ (ok (Shard.set_running 78 shard), db'))
shard_run-IsStarted_example =
    shard_run-IsStarted state state host 78 (97 ∷ 2 ∷ []) (database none (some 77)) shard
      ((differ, tt), (tt, tt)) found-shard refl refl refl refl refl

-- `Linux kernel version 6.9`, and two kernels that are installed as the default.
abbrev world : World
world = record {
  digest = λ content. content;
  content = λ path. ok (65 ∷ []);
  file_type = λ path. ok (
      76 ∷ 105 ∷ 110 ∷ 117 ∷ 120 ∷ 32 ∷ 107 ∷ 101 ∷ 114 ∷ 110 ∷ 101 ∷ 108 ∷ 32 ∷ version_word
      ++ 32 ∷ 54 ∷ 46 ∷ 57 ∷ []);
  strings = λ path. ok [];
  ask_version = ok [];
  mime = λ path. ok [];
  load_config = λ path. ok [];
  run_bridge = λ d. ok 77;
  host = host;
  print_logs = λ id. ok tt;
  attach = λ cid port. ok tt;
}

abbrev install : Command
install = kernel (KernelCommand.install [] (some (97 ∷ [])) true)

abbrev commands : List (State × World × Command)
commands =
    (state, world, install)
    ∷ (record state { next_id = 10 }, record world { content = λ path. ok (66 ∷ []) }, install)
    ∷ (record state { next_id = 11 }, world, install)
    ∷ []

run_all-IsDatabase_example : IsDatabase (run_all commands Database.new)
run_all-IsDatabase_example = run_all-IsDatabase commands

-- The third has the hash of the first, and is refused.
installs : run_all commands Database.new ≡ record Database.new {
  kernels =
      record {
        id = 9;
        hash = 65 ∷ [];
        name = 97 ∷ [];
        version = 54 ∷ 46 ∷ 57 ∷ [];
        default = false;
      }
      ∷ record {
        id = 10;
        hash = 66 ∷ [];
        name = 97 ∷ [];
        version = 54 ∷ 46 ∷ 57 ∷ [];
        default = true;
      }
      ∷ [];
}
unfolding run_all
installs = refl

abbrev opts : DeployOpts
opts = record {
  name = some (120 ∷ []);
  image = 99 ∷ [];
  kernel = none;
  memory = 512;
  cpu = 113 ∷ [];
  network = [];
}

abbrev deployed_row : Row
deployed_row = record {
  id = 9;
  name = 120 ∷ [];
  pid = none;
  cid = 20001;
  cpu = 113 ∷ [];
  memory = 512;
  kernel = 1;
  boot_disk = 3;
}

abbrev deployed : Database
deployed = record (database none none) { shards = row 1 none ∷ row 2 none ∷ deployed_row ∷ [] }

deploys : shard_deploy state opts (database none none) ≡ (ok tt, deployed)
unfolding shard_deploy
deploys = refl

shard_deploy-get_shard_example :
    (x : Shard) × (get_shard state (120 ∷ []) deployed ≡ (ok x, deployed))
    × (x.state ≡ stopped)
    × (x.memory ≡ 512)
    × ((kernel_or none (database none none)).0 ≡ ok x.kernel)
    × ((Image.get (99 ∷ []) (database none none)).0 ≡ ok x.boot_disk)
unfolding same
shard_deploy-get_shard_example =
    shard_deploy-get_shard state state opts (120 ∷ []) (database none none) deployed
      ((differ, tt), (tt, tt)) (tt, tt) (refl, (refl, tt)) refl deploys

abbrev twin : ℕ → DeviceRow
twin id = record { id = id; pid = none; name = 97 ∷ []; device = 0; config = [] }

abbrev twins : Database
twins = record Database.new { devices = twin 1 ∷ twin 2 ∷ [] }

abbrev twin_device : ℕ → Device
twin_device id = record { id = id; name = 97 ∷ []; ty = Device.bridge; cfg = []; state = stopped }

-- There is no device `b`.
many :
    Device.get_many state ((97 ∷ []) ∷ (98 ∷ []) ∷ []) twins
    ≡ (ok (twin_device 1 ∷ twin_device 2 ∷ []), twins)
unfolding Device.get_many
many = refl
