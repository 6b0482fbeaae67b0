-- ===== src/Manager/Device.antt =====
-- oathgate/src/database/device.rs: devices, which are bridges. The configuration is its JSON text.
pub mod Bridges
use oathgate.Common.{
  ℕ, Bool, true, false, ◌||◌, List, [], ◌∷◌, ◌++◌, length, map, ◌==◌, if◌then◌else◌, Option, none,
  some, Outcome, ok, err, panic, ◌>>=◌, ◌>>◌,
}
use oathgate.Manager.Process.{
  ProcessState, running, permission_denied, dead, stopped, check, optional,
}
use oathgate.Manager.Database.{
  DeviceRow, Database, Error, Action, unknown_device, stop_denied, missing, read, transaction,
}
use oathgate.Manager.Database.Table.{same, upsert, query_row, query_map}
use oathgate.Manager.Database.Table
use oathgate.Manager.State.{Name, PathBuf, State, stop_process, with_extension, network_dir}

pub data DeviceType : Type 0 where
  bridge : DeviceType

pub record Device : Type 0 where
  pub id : ℕ
  pub name : List ℕ
  pub ty : DeviceType
  pub cfg : List ℕ
  pub state : ProcessState

-- `Device::new`; the id is drawn.
unfoldable pub new : State → Name → DeviceType → List ℕ → Device
new s name ty cfg = record { id = s.next_id; name = name; ty = ty; cfg = cfg; state = stopped }

unfoldable pub to_sql : DeviceType → ℕ
to_sql bridge = 0

unfoldable pub column_result : ℕ → Outcome Error DeviceType
column_result i = if i == 0 then ok bridge else err unknown_device

abbrev pub id_of : DeviceRow → ℕ
id_of r = r.id

unfoldable pub to_row : Device → DeviceRow
unfolding optional to_sql
to_row d = record {
  id = d.id;
  pid = optional d.state;
  name = d.name;
  device = to_sql d.ty;
  config = d.cfg;
}

-- A process that cannot be asked for is taken as dead.
unfoldable pub state_of : (ℕ → Option ℕ) → Option ℕ → ProcessState
unfolding check
state_of probe none = stopped
state_of probe (some pid) = elim (check pid (probe pid)) [
  | ok s ↦ s
  | err e ↦ dead pid
  | panic ↦ dead pid
]

unfoldable pub from_row : State → DeviceRow → Outcome Error Device
unfolding state_of column_result
from_row s r = do
  ty ← column_result r.device
  ok (record { id = r.id; name = r.name; ty = ty; cfg = r.config; state = state_of s.probe r.pid })

unfoldable pub save : Device → Action (Unit {0})
unfolding to_row upsert transaction
save d = transaction λ db. ok (tt, record db { devices = upsert id_of (to_row d) db.devices })

-- `where name = ?1`
unfoldable pub named : Name → DeviceRow → Option DeviceRow
unfolding same
named name r = if same r.name name then some r else none

-- `query_row(…).optional()`: no row is no error.
unfoldable pub get_row : State → Option DeviceRow → Outcome Error (Option Device)
unfolding from_row
get_row s none = ok none
get_row s (some r) = from_row s r >>= λ d. ok (some d)

unfoldable pub get : State → Name → Action (Option Device)
unfolding named query_row get_row read
get s name = read λ db. get_row s (query_row (named name) db.devices)

unfoldable pub readable : State → DeviceRow → Option Device
unfolding from_row
readable s r = elim (from_row s r) [ ok d ↦ some d | err e ↦ none | panic ↦ none ]

unfoldable pub get_all : State → Action (List Device)
unfolding readable query_map read
get_all s = read λ db. ok (query_map (readable s) db.devices)

-- `name IN (…)`
unfoldable pub is_in : List Name → Name → Bool
unfolding same
is_in [] n = false
is_in (x ∷ xs) n = same x n || is_in xs n

-- The names that no device has, in the order of the list.
unfoldable pub without : List Device → List Name → List Name
unfolding is_in
without ds [] = []
without ds (n ∷ ns) =
    let rest = without ds ns in if is_in (map (λ (d : Device). d.name) ds) n then rest else n ∷ rest

unfoldable pub select_many : State → List Name → DeviceRow → Option Device
unfolding is_in readable
select_many s names r = if is_in names r.name then readable s r else none

-- The devices with these names, if there are as many as names.
unfoldable pub get_many : State → List Name → Action (List Device)
unfolding select_many query_map without read
get_many s names = read λ db.
    let ds = query_map (select_many s names) db.devices in
    if length ds == length names then ok ds else err (missing (without ds names))

unfoldable pub delete : Device → Action (Unit {0})
unfolding Table.delete transaction
delete d = transaction λ db. ok (tt, record db { devices = Table.delete id_of d.id db.devices })

unfoldable pub is_running : Device → Bool
is_running d = elim d.state [
  | running pid ↦ true
  | permission_denied pid ↦ false
  | dead pid ↦ false
  | stopped ↦ false
]

unfoldable pub set_started : ℕ → Device → Device
set_started pid d = record d { state = running pid }

unfoldable pub set_stopped : Device → Device
set_stopped d = record d { state = stopped }

unfoldable pub stop_by : State → Device → ProcessState → Outcome Error Device
unfolding stop_process set_stopped
stop_by s d (running pid) = stop_process s pid >> ok (set_stopped d)
stop_by s d (permission_denied pid) = err stop_denied
stop_by s d (dead pid) = ok (set_stopped d)
stop_by s d stopped = ok d

unfoldable pub stop : State → Device → Outcome Error Device
unfolding stop_by
stop s d = stop_by s d d.state

unfoldable pub uds : State → Device → PathBuf
unfolding with_extension network_dir
uds s d = with_extension (network_dir s) d.name (115 ∷ 111 ∷ 99 ∷ 107 ∷ [])
