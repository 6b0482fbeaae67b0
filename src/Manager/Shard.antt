-- ===== src/Manager/Shard.antt =====
-- oathgate/src/database/shard.rs: shards, which are virtual machines, with the kernel and the disk
-- image that the table of shards is joined with.
pub mod Machine
pub mod Commands
pub mod Running
pub mod Deployed
use oathgate.Common.{
  ℕ, Bool, true, false, List, [], ◌∷◌, ◌++◌, ◌==◌, if◌then◌else◌, Option, none, some, Outcome, ok,
  err, panic, ok_or, ◌>>=◌, ◌>>◌,
}
use oathgate.Manager.Process.{
  ProcessState, running, permission_denied, dead, stopped, check, optional,
}
use oathgate.Manager.Database.{
  Kernel, ImageRow, Row, Database, Error, Action, field_required, stop_denied, no_such_table, read,
  transaction, lift,
}
use oathgate.Manager.Database
use oathgate.Manager.Database.Table.{same, upsert, query_row, query_map}
use oathgate.Manager.Database.Table
use oathgate.Manager.State.{
  Name, PathBuf, State, create_dir_all, remove_dir_all, hard_link, copy, run_file, stop_process,
  with_extension, shard_dir,
}
use oathgate.Manager.Kernel
use oathgate.Manager.Image.{DiskImage}
use oathgate.Manager.Image

pub record Shard : Type 0 where
  pub id : ℕ
  pub cid : ℕ
  pub name : List ℕ
  pub state : ProcessState
  pub cpu : List ℕ
  pub memory : ℕ
  pub kernel : Kernel
  pub boot_disk : DiskImage

pub record ShardBuilder : Type 0 where
  pub name : Option (List ℕ)
  pub cpu : Option (List ℕ)
  pub memory : Option ℕ
  pub kernel : Option Kernel
  pub boot_disk : Option DiskImage

-- The id and the context id are drawn.
unfoldable pub build : State → ShardBuilder → Outcome Error Shard
build s b = do
  name ← ok_or b.name field_required
  cpu ← ok_or b.cpu field_required
  memory ← ok_or b.memory field_required
  kernel ← ok_or b.kernel field_required
  boot_disk ← ok_or b.boot_disk field_required
  ok (record {
    id = s.next_id;
    cid = s.next_cid;
    name = name;
    state = stopped;
    cpu = cpu;
    memory = memory;
    kernel = kernel;
    boot_disk = boot_disk;
  })

abbrev pub id_of : Row → ℕ
id_of r = r.id

unfoldable pub to_row : Shard → Row
unfolding optional
to_row s = record {
  id = s.id;
  name = s.name;
  pid = optional s.state;
  cid = s.cid;
  cpu = s.cpu;
  memory = s.memory;
  kernel = s.kernel.id;
  boot_disk = s.boot_disk.id;
}

-- `process::check(pid).unwrap()`, by what the system answers for each process.
unfoldable pub state_of : (ℕ → Option ℕ) → Option ℕ → Outcome Error ProcessState
unfolding check
state_of probe none = ok stopped
state_of probe (some pid) = elim (check pid (probe pid)) [
  | ok s ↦ ok s
  | err e ↦ panic
  | panic ↦ panic
]

-- A row of the join.
abbrev pub Joined : Type 0
Joined = Row × Kernel × ImageRow

unfoldable pub kernel_with : ℕ → Kernel → Option Kernel
kernel_with id k = if k.id == id then some k else none

unfoldable pub image_with : ℕ → ImageRow → Option ImageRow
image_with id i = if i.id == id then some i else none

-- `INNER JOIN kernels ON kernels.id = shards.kernel INNER JOIN images ON images.id = shards.bootdisk`
unfoldable pub join : Database → Row → Option Joined
unfolding kernel_with image_with query_row
join db r = elim (query_row (kernel_with r.kernel) db.kernels) [
  | none ↦ none
  | some k ↦ elim (query_row (image_with r.boot_disk) db.images) [
    | none ↦ none
    | some i ↦ some (r, k, i)
  ]
]

unfoldable pub from_row : State → Joined → Outcome Error Shard
unfolding state_of Image.from_row
from_row s (r, k, i) = do
  state ← state_of s.probe r.pid
  boot_disk ← Image.from_row i
  ok (record {
    id = r.id;
    cid = r.cid;
    name = r.name;
    state = state;
    cpu = r.cpu;
    memory = r.memory;
    kernel = k;
    boot_disk = boot_disk;
  })

-- `WHERE shards.name = ?1`
unfoldable pub named : Name → Database → Row → Option Joined
unfolding same join
named name db r = if same r.name name then join db r else none

-- `query_row(…).optional()`: no row is no error.
unfoldable pub get_row : State → Option Joined → Outcome Error (Option Shard)
unfolding from_row
get_row s none = ok none
get_row s (some j) = from_row s j >>= λ x. ok (some x)

unfoldable pub get : State → Name → Action (Option Shard)
unfolding named query_row get_row read
get s name = read λ db. get_row s (query_row (named name db) db.shards)

-- The rows that can be read; one whose process cannot be asked for is a panic.
unfoldable pub read_each : State → List Joined → Outcome Error (List Shard)
unfolding from_row
read_each s [] = ok []
read_each s (j ∷ js) =
    let rest = read_each s js in
    elim (from_row s j) [ ok x ↦ rest >>= λ xs. ok (x ∷ xs) | err e ↦ rest | panic ↦ panic ]

unfoldable pub get_all : State → Action (List Shard)
unfolding join query_map read_each read
get_all s = read λ db. read_each s (query_map (join db) db.shards)

unfoldable pub save : Shard → Action (Unit {0})
unfolding to_row upsert transaction
save x = transaction λ db. ok (tt, record db { shards = upsert id_of (to_row x) db.shards })

unfoldable pub dir : State → Shard → PathBuf
unfolding shard_dir
dir s x = shard_dir s ++ x.name ∷ []

unfoldable pub kernel_path : State → Shard → PathBuf
unfolding dir with_extension
kernel_path s x = with_extension (dir s x) x.name (98 ∷ 105 ∷ 110 ∷ [])

unfoldable pub boot_disk_path : State → Shard → PathBuf
unfolding dir with_extension
boot_disk_path s x = with_extension (dir s x) x.name (105 ∷ 109 ∷ 103 ∷ [])

-- The directory, a link to the kernel and a copy of the image.
unfoldable pub deploy : State → Shard → Outcome Error (Unit {0})
unfolding run_file dir kernel_path boot_disk_path Kernel.path Image.path
deploy s x = do
  run_file s (create_dir_all (dir s x))
  run_file s (hard_link (Kernel.path s x.kernel) (kernel_path s x))
  run_file s (copy (Image.path s x.boot_disk) (boot_disk_path s x))

-- The statement names the table `shard_devices`, which no migration creates.
unfoldable pub add_device_ref : Action (Unit {0})
unfolding transaction
add_device_ref = transaction λ db. err no_such_table

-- So does this query.
unfoldable pub networks : {A : Type 0} → Action (List A)
unfolding transaction
networks = transaction λ db. err no_such_table

unfoldable pub delete : ℕ → Action (Unit {0})
unfolding Table.delete transaction
delete id = transaction λ db. ok (tt, record db { shards = Table.delete id_of id db.shards })

unfoldable pub purge : State → Shard → Action (Unit {0})
unfolding delete run_file dir lift Database.◌>>=◌
purge s x = Database.◌>>◌ (delete x.id) (lift (run_file s (remove_dir_all (dir s x))))

unfoldable pub is_running : Shard → Bool
is_running x = elim x.state [
  | running pid ↦ true
  | permission_denied pid ↦ false
  | dead pid ↦ false
  | stopped ↦ false
]

unfoldable pub set_running : ℕ → Shard → Shard
set_running pid x = record x { state = running pid }

unfoldable pub set_stopped : Shard → Shard
set_stopped x = record x { state = stopped }

unfoldable pub stop_by : State → Shard → ProcessState → Outcome Error Shard
unfolding stop_process set_stopped
stop_by s x (running pid) = stop_process s pid >> ok (set_stopped x)
stop_by s x (permission_denied pid) = err stop_denied
stop_by s x (dead pid) = ok (set_stopped x)
stop_by s x stopped = ok x

unfoldable pub stop : State → Shard → Outcome Error Shard
unfolding stop_by
stop s x = stop_by s x x.state
