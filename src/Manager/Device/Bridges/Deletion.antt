-- ===== src/Manager/Device/Bridges/Deletion.antt =====
-- What deleting a bridge leaves in the database (oathgate/src/cmd/bridge.rs).
use oathgate.Common.{
  ℕ, ◌≡◌, ◌≢◌, refl, sym, ap, ◌∙◌, arith, Bool, true, false, List, [], ◌∷◌, ◌==◌, if◌then◌else◌,
  Option, none, some, Outcome, ok, err, panic, ok_or,
}
use oathgate.Common
use oathgate.Manager.Process.{ProcessState, running, permission_denied, dead, stopped}
use oathgate.Manager.Database.{
  DeviceRow, Database, Error, device_not_found, pure, lift, read, continue, ◌>>=◌, ◌>>◌, finish,
  transaction,
}
use oathgate.Manager.Database.Runs.{bind_ok}
use oathgate.Manager.Database.Table.{upsert}
use oathgate.Manager.Database.Table
use oathgate.Manager.State.{Name, State, ask_stop_bridge, ask_delete_bridge, confirm, stop_process}
use oathgate.Manager.Device.{
  Device, id_of, to_row, get, save, delete, is_running, set_stopped, stop, stop_by,
}
use oathgate.Manager.Device.Bridges.{get_bridge, stop_first, delete_bridge}

delete-upsert :
    (r : DeviceRow) (xs : List DeviceRow)
    → Table.delete id_of r.id (upsert id_of r xs) ≡ Table.delete id_of r.id xs
unfolding Table.delete upsert
delete-upsert r [] = ground arith
delete-upsert r (x ∷ xs) = ground (arith, delete-upsert r xs)

stop_by-id :
    (s : State) (d d' : Device) (state : ProcessState) → stop_by s d state ≡ ok d' → d'.id ≡ d.id
unfolding stop_by set_stopped
stop_by-id s d d' (running pid) e = by_process (stop_process s pid) e
  where
    by_process :
        (r : Outcome Error (Unit {0})) → Common.◌>>◌ r (ok (set_stopped d)) ≡ ok d' → d'.id ≡ d.id
    by_process (ok x) h = ground (arith, h)
    by_process (err x) h = absurd (ground (arith, h))
    by_process panic h = absurd (ground (arith, h))
stop_by-id s d d' (permission_denied pid) e = absurd (ground (arith, e))
stop_by-id s d d' (dead pid) e = ground (arith, e)
stop_by-id s d d' stopped e = ground (arith, e)

-- The database without the rows of an id.
abbrev pub without_device : ℕ → Database → Database
without_device id db = record db { devices = Table.delete id_of id db.devices }

save-without_device :
    (x : Device) (id : ℕ) (db : Database)
    → x.id ≡ id
    → without_device id (save x db).1 ≡ without_device id db
unfolding save transaction finish to_row
save-without_device x id db e =
    ap (λ k. without_device k (save x db).1) (sym e)
    ∙ ap (λ ds. record db { devices = ds }) (delete-upsert (to_row x) db.devices)
    ∙ ap (λ k. without_device k db) e

-- Stopping the device first changes no other row, and not its id.
stop_first-without_device :
    (s : State) (d d' : Device) (db db' : Database)
    → stop_first s d db ≡ (ok d', db')
    → (d'.id ≡ d.id) × (without_device d.id db' ≡ without_device d.id db)
unfolding stop_first save transaction finish lift pure continue ◌>>=◌ stop
stop_first-without_device s d d' db db' e = by_running (is_running d) e
  where
    by_running :
        (b : Bool)
        → (if b
              then lift (confirm s ask_stop_bridge) >> (lift (stop s d) >>= λ x. save x >> pure x)
              else pure d)
            db
          ≡ (ok d', db')
        → (d'.id ≡ d.id) × (without_device d.id db' ≡ without_device d.id db)
    by_running true k =
        let (_, _, after) = bind_ok (lift (confirm s ask_stop_bridge)) _ db k in
        let (x, stops, saved) = bind_ok (lift (stop s d)) _ db after in
        let same_device : x ≡ d' = ground (arith, saved) in
        let same_id = stop_by-id s d x d.state stops in
        let left : (save x db).1 ≡ db' = ground (arith, saved) in
        (
          ap (λ (y : Device). y.id) (sym same_device) ∙ same_id,
          ap (without_device d.id) (sym left) ∙ save-without_device x d.id db same_id,
        )
    by_running false k =
        let same_device : d ≡ d' = ground (arith, k) in
        let left : db ≡ db' = ground (arith, k) in
        (ap (λ (y : Device). y.id) (sym same_device), ap (without_device d.id) (sym left))

get_bridge-reads : (s : State) (name : Name) (db : Database) → (get_bridge s name db).1 ≡ db
unfolding get_bridge get read lift continue ◌>>=◌
get_bridge-reads s name db = by_result (get s name db).0
  where
    by_result :
        (r : Outcome Error (Option Device))
        → (continue (λ d. lift (ok_or d device_not_found)) (r, db)).1 ≡ db
    by_result (ok x) = refl
    by_result (err x) = refl
    by_result panic = refl

-- When deleting a bridge succeeds, a device was found by the name, and the database is as it was but
-- for the rows with the id of that device, which are gone.
pub delete_bridge-without_device :
    (s : State) (name : Name) (db db' : Database)
    → delete_bridge s name db ≡ (ok tt, db')
    → (d : Device) × (get_bridge s name db ≡ (ok d, db)) × (db' ≡ without_device d.id db)
unfolding delete_bridge delete transaction finish lift
delete_bridge-without_device s name db db' e =
    let (d, found, rest) = bind_ok (get_bridge s name) _ db e in
    let (d', stops, rest') = bind_ok (stop_first s d) _ (get_bridge s name db).1 rest in
    let (_, _, left) = bind_ok (lift (confirm s ask_delete_bridge)) _ _ rest' in
    let reads = get_bridge-reads s name db in
    let at = (get_bridge s name db).1 in
    let stopped_at = (stop_first s d at).1 in
    let (same_id, others) =
      stop_first-without_device s d d' at stopped_at (ap (λ r. (r, stopped_at)) stops) in
    (
      d,
      ap (λ r. (r, at)) found ∙ ap (λ x. (ok d, x)) reads,
      ap (λ r. r.1) (sym left)
          ∙ ap (λ k. without_device k stopped_at) same_id
          ∙ others
          ∙ ap (without_device d.id) reads,
    )
