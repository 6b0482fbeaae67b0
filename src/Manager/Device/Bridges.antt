-- ===== src/Manager/Device/Bridges.antt =====
-- oathgate/src/cmd/bridge.rs: the commands on bridges. Loading a configuration, and starting the
-- process that runs a bridge from it, are parameters: they give the JSON text and the new process.
pub mod Deletion
use oathgate.Common.{
  ℕ, Bool, if◌then◌else◌, List, Option, none, some, Outcome, ok, err, panic, ok_or,
}
use oathgate.Manager.Database.{
  Database, Error, Action, device_not_found, no_name, pure, lift, ◌>>=◌, ◌>>◌,
}
use oathgate.Manager.State.{Name, State, ask_stop_bridge, ask_delete_bridge, confirm}
use oathgate.Manager.Device.{Device, bridge, new, get, save, delete, is_running, set_started, stop}

unfoldable pub get_bridge : State → Name → Action Device
unfolding get lift ◌>>=◌
get_bridge s name = do d ← get s name; lift (ok_or d device_not_found)

-- The name that was given, or one that is generated.
unfoldable pub bridge_name : State → Option Name → Outcome Error Name
bridge_name s none = ok_or s.next_name no_name
bridge_name s (some name) = ok name

unfoldable pub create_bridge : State → Outcome Error (List ℕ) → Option Name → Action (Unit {0})
unfolding bridge_name new save lift ◌>>=◌
create_bridge s config name = do
  name ← lift (bridge_name s name)
  cfg ← lift config
  save (new s name bridge cfg)

unfoldable pub start_bridge : State → (Device → Outcome Error ℕ) → Name → Action (Unit {0})
unfolding get_bridge set_started save lift ◌>>=◌
start_bridge s start name = do d ← get_bridge s name; pid ← lift (start d); save (set_started pid d)

unfoldable pub stop_bridge : State → Name → Action (Unit {0})
unfolding get_bridge confirm stop save lift ◌>>=◌
stop_bridge s name = do
  d ← get_bridge s name
  lift (confirm s ask_stop_bridge)
  d' ← lift (stop s d)
  save d'

-- A bridge that runs is stopped and saved as stopped.
unfoldable pub stop_first : State → Device → Action Device
unfolding is_running confirm stop save pure lift ◌>>=◌
stop_first s d =
    if is_running d
    then (do lift (confirm s ask_stop_bridge); d' ← lift (stop s d); save d'; pure d')
    else pure d

unfoldable pub delete_bridge : State → Name → Action (Unit {0})
unfolding get_bridge stop_first confirm delete lift ◌>>=◌
delete_bridge s name = do
  d ← get_bridge s name
  d' ← stop_first s d
  lift (confirm s ask_delete_bridge)
  delete d'
