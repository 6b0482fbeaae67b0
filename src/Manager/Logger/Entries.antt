-- ===== src/Manager/Logger/Entries.antt =====
-- `LogEntry` of oathgate/src/database/log.rs: the table of logs. The rows are in the order in which
-- they were inserted.
pub mod Log
use oathgate.Common.{
  ℕ, ◌+◌, Bool, true, false, ◌||◌, List, [], ◌∷◌, ◌++◌, ◌==◌, if◌then◌else◌, Option, none, some,
  Outcome, ok, err, panic, unwrap, ◌>>=◌,
}
use oathgate.Manager.Database.{Error, unique}
use oathgate.Manager.Database.Table.{has_id}
use oathgate.Manager.Logger.{
  Data, OathgateEvent, Metadata, Value, SqliteSubscriber, new, record_all, enabled,
}
use oathgate.Manager.Logger.Text.{to_string, from_str}

-- JSON as the crate serde_json writes and reads it, by its text.
pub record Json : Type 0 where
  pub to_value : Data → Option (List ℕ)
  pub from_value : List ℕ → Option Data

pub record LogRow : Type 0 where
  pub id : ℕ
  pub device : Option ℕ
  pub level : List ℕ
  pub target : List ℕ
  pub ts : ℕ
  pub module' : Option (List ℕ)
  pub line : Option ℕ
  pub data' : List ℕ

abbrev pub id_of : LogRow → ℕ
id_of r = r.id

unfoldable pub to_row : ℕ → Option ℕ → OathgateEvent → List ℕ → LogRow
unfolding to_string
to_row id device e json = record {
  id = id;
  device = device;
  level = to_string e.level;
  target = e.target;
  ts = e.ts;
  module' = e.module';
  line = e.line;
  data' = json;
}

-- The id is drawn; a number that JSON cannot hold is a panic of `json!`.
unfoldable pub save :
    Json → ℕ → Option ℕ → OathgateEvent → List LogRow → Outcome Error (List LogRow)
unfolding to_row has_id
save js id device e rows = do
  json ← unwrap (js.to_value e.data')
  (if has_id id_of id rows then err unique else ok (rows ++ to_row id device e json ∷ []))

-- The level and the data are unwrapped.
unfoldable pub from_row : Json → LogRow → Outcome Error OathgateEvent
unfolding from_str
from_row js r = do
  level ← unwrap (from_str r.level)
  fields ← unwrap (js.from_value r.data')
  ok (record {
    target = r.target;
    line = r.line;
    module' = r.module';
    level = level;
    data' = fields;
    ts = r.ts;
  })

-- `WHERE device = ?1`
unfoldable pub is_of : ℕ → LogRow → Bool
is_of device r = elim r.device [ none ↦ false | some d ↦ d == device ]

unfoldable pub cons_event :
    Outcome Error OathgateEvent
    → Outcome Error (List OathgateEvent)
    → Outcome Error (List OathgateEvent)
cons_event r rest = r >>= λ e. rest >>= λ es. ok (e ∷ es)

unfoldable pub get : Json → ℕ → List LogRow → Outcome Error (List OathgateEvent)
unfolding from_row is_of cons_event
get js device [] = ok []
get js device (r ∷ rows) =
    let rest = get js device rows in
    if is_of device r then cons_event (from_row js r) rest else rest

-- An error is only printed, so that the table stays.
unfoldable pub saved : Outcome Error (List LogRow) → List LogRow → Outcome Error (List LogRow)
saved (ok rows) old = ok rows
saved (err e) old = ok old
saved panic old = panic

-- An event that the subscriber takes at a time, with its fields.
unfoldable pub event :
    Json
    → (id now : ℕ) → SqliteSubscriber
    → Metadata
    → List (List ℕ × Value)
    → List LogRow
    → Outcome Error (List LogRow)
unfolding new record_all save saved
event js id now s m fields rows =
    saved (save js id (some s.device_id) (record_all fields (new now m)) rows) rows
