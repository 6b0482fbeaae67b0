-- ===== src/Manager/Shard/Running.antt =====
-- What the commands that start and stop shards leave in the database (oathgate/src/cmd/shard.rs).
pub mod Found
use oathgate.Common.{
  ℕ, ◌≡◌, refl, sym, ap, subst, ◌∙◌, arith, Bool, true, false, List, if◌then◌else◌, Option, none,
  some, Outcome, ok, err, panic, map_err,
}
use oathgate.Common
use oathgate.Manager.Process.{
  ProcessState, running, permission_denied, dead, stopped, optional, check,
}
use oathgate.Manager.Database.{
  Row, Database, Error, Action, io, lift, continue, ◌>>=◌, ◌>>◌, transaction, finish, raise,
}
use oathgate.Manager.Database.Runs.{bind_ok}
use oathgate.Manager.Database.Table.{upsert, query_row}
use oathgate.Manager.Database.Table
use oathgate.Manager.Database.Table.Laws.{IsKeyed}
use oathgate.Manager.State.{Name, State, ask_stop_shard, ask_delete_shard, confirm, stop_process}
use oathgate.Manager.Shard.{
  Shard, id_of, to_row, named, state_of, save, delete, purge, is_running, set_running, set_stopped,
  stop_by, stop,
}
use oathgate.Manager.Shard.Machine.{generate_machine_config}
use oathgate.Runner.Vm
use oathgate.Manager.Shard.Commands.{Host, get_shard, shard_run, stop_shard, shard_delete}
use oathgate.Manager.Shard.Running.Found.{get_shard-save, get_shard-reads}

stop_by-set_stopped :
    (s : State) (x x' : Shard) (state : ProcessState)
    → x.state ≡ state
    → stop_by s x state ≡ ok x'
    → x' ≡ set_stopped x
unfolding stop_by set_stopped
stop_by-set_stopped s x x' (running pid) st e = by_process (stop_process s pid) e
  where
    by_process :
        (r : Outcome Error (Unit {0}))
        → Common.◌>>◌ r (ok (set_stopped x)) ≡ ok x'
        → x' ≡ set_stopped x
    by_process (ok y) h = ground (arith, h)
    by_process (err y) h = absurd (ground (arith, h))
    by_process panic h = absurd (ground (arith, h))
stop_by-set_stopped s x x' (permission_denied pid) st e = absurd (ground (arith, e))
stop_by-set_stopped s x x' (dead pid) st e = ground (arith, e)
stop_by-set_stopped s x x' stopped st e =
    ground (arith, e, ap (λ state. record x { state = state }) st)

-- A shard that is found as stopped is deleted once this is confirmed, whether its files can be or not.
shard_delete-stopped :
    (s : State) (name : Name) (x : Shard) (db : Database)
    → get_shard s name db ≡ (ok (set_stopped x), db)
    → confirm s ask_delete_shard ≡ ok tt
    → (shard_delete s name db).1 ≡ record db { shards = Table.delete id_of x.id db.shards }
unfolding shard_delete is_running set_stopped purge delete transaction finish lift continue ◌>>=◌
shard_delete-stopped s name x db found yes? = ground (arith, found, yes?)

-- When stopping a shard succeeds, the shard that was found by the name is then found as stopped,
-- whatever the system says of processes later, and can then be deleted if this is confirmed. This for
-- a table whose ids differ.
pub stop_shard-stops :
    (s later : State) (name : Name) (db db' : Database)
    → IsKeyed id_of db.shards
    → confirm later ask_delete_shard ≡ ok tt
    → stop_shard s name db ≡ (ok tt, db')
    → (x : Shard) × (get_shard s name db ≡ (ok x, db))
      × (get_shard later name db' ≡ (ok (set_stopped x), db'))
      × ((shard_delete later name db').1
          ≡ record db' { shards = Table.delete id_of x.id db'.shards })
unfolding stop_shard stop save transaction finish lift set_stopped
stop_shard-stops s later name db db' keyed yes? e =
    let (x, found, rest) = bind_ok (get_shard s name) _ db e in
    let at = (get_shard s name db).1 in
    let reads = get_shard-reads s name db in
    let (_, _, rest') = bind_ok (lift (confirm s ask_stop_shard)) _ at rest in
    let (x', stops, saved) = bind_ok (lift (stop s x)) _ at rest' in
    let is_stopped = stop_by-set_stopped s x x' x.state refl stops in
    let table : (save (set_stopped x) db).1 ≡ db' =
      ap (λ y. (save (set_stopped x) y).1) (sym reads)
      ∙ ap (λ y. (save y at).1) (sym is_stopped)
      ∙ ap (λ r. r.1) saved in
    let here = ap (λ r. (r, at)) found ∙ ap (λ y. (ok x, y)) reads in
    let again =
      subst (λ y. get_shard later name y ≡ (ok (set_stopped x), y)) table
        (get_shard-save s later name x stopped db keyed here refl) in
    (x, here, again, shard_delete-stopped later name x db' again yes?)

read_running :
    (s : State) (pid : ℕ)
    → s.probe pid ≡ none
    → state_of s.probe (optional (running pid)) ≡ ok (running pid)
unfolding state_of check optional
read_running s pid e = ground (arith, e)

-- What running a shard comes to by the answer to binding its socket: an error, and the database as it
-- was; or a shard that is found as running in the new process.
abbrev pub IsStarted : State → State → Host → ℕ → Name → Database → Shard → Option ℕ → Type 0
IsStarted s later host pid name db x (some e) = shard_run s host name db ≡ (err (io e), db)
IsStarted s later host pid name db x none =
    (db' : Database) × (shard_run s host name db ≡ (ok tt, db'))
    × (get_shard later name db' ≡ (ok (set_running pid x), db'))

-- A shard that is found by a name is run only if the socket of its context id on the host can be
-- bound: if it cannot, the command fails with that error and the database stays as it was. If it can,
-- the command succeeds and the shard is then found as running in the new process. This for a table
-- whose ids differ, where the other calls succeed and the system later says that the new process runs.
pub shard_run-IsStarted :
    (s later : State) (host : Host) (pid : ℕ) (name : Name) (db : Database) (x : Shard)
    → IsKeyed id_of db.shards
    → get_shard s name db ≡ (ok x, db)
    → host.sockets.socket ≡ none
    → host.sockets.listen ≡ none
    → host.subscriber x.id ≡ ok tt
    → host.fork x (record {
      name = x.name;
      vm = record { id = x.cid; machine = generate_machine_config s x };
    })
      ≡ ok pid
    → later.probe pid ≡ none
    → IsStarted s later host pid name db x (host.sockets.bind 2 x.cid)
unfolding shard_run Vm.new Vm.launch Vm.called set_running save transaction finish lift continue
    ◌>>=◌
shard_run-IsStarted s later host pid name db x keyed found socket listens logs forked alive =
    by_bind (host.sockets.bind 2 x.cid) refl
  where
    by_bind :
        (o : Option ℕ) → host.sockets.bind 2 x.cid ≡ o → IsStarted s later host pid name db x o
    by_bind (some e) bound = ground (arith, found, socket, bound)
    by_bind none bound = (
      (save (set_running pid x) db).1,
      ground (arith, found, socket, bound, listens, logs, forked),
      get_shard-save s later name x (running pid) db keyed found (read_running later pid alive),
    )
