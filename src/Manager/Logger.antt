-- ===== src/Manager/Logger.antt =====
-- oathgate/src/logger.rs and oathgate/src/database/log.rs: the events of a process, kept in the table
-- of logs. Signed numbers and floats are their bits; a time is a number; the crate serde_json is a
-- parameter that writes and reads the data of an event. What `display` prints is not modelled.
pub mod Text
pub mod Entries
mod Tests
use oathgate.Common.{
  ℕ, ◌+◌, ◌%◌, ◌^◌, Bool, true, false, List, [], ◌∷◌, ◌++◌, drop, ◌==◌, leb, ltb, if◌then◌else◌,
  Option, none, some, Outcome, ok, err, panic, ok_or, ◌>>=◌,
}
use oathgate.Manager.Database.{Error, field_required}
use oathgate.Manager.Database.Table.{same}
use oathgate.Manager.Kernel.Version.{starts_with}

-- The levels of the crate tracing have the same names.
pub data LogLevel : Type 0 where
  error warn info debug trace : LogLevel

pub data DataType : Type 0 where
  float u64 i64 u128 i128 : ℕ → DataType
  boolean : Bool → DataType
  str : List ℕ → DataType

-- The bytes of texts in their order.
unfoldable pub text_lt : List ℕ → List ℕ → Bool
text_lt [] [] = false
text_lt [] (b ∷ bs) = true
text_lt (a ∷ as') [] = false
text_lt (a ∷ as') (b ∷ bs) = let rest = text_lt as' bs in if a == b then rest else ltb a b

-- `BTreeMap`, by its entries in the order of the keys.
abbrev pub Data : Type 0
Data = List (List ℕ × DataType)

unfoldable pub insert : List ℕ → DataType → Data → Data
unfolding same text_lt
insert k v [] = (k, v) ∷ []
insert k v ((j, w) ∷ m) =
    let rest = insert k v m in
    if same j k then (j, v) ∷ m else if text_lt k j then (k, v) ∷ (j, w) ∷ m else (j, w) ∷ rest

unfoldable pub get_field : List ℕ → Data → Option DataType
unfolding same
get_field k [] = none
get_field k ((j, v) ∷ m) = let rest = get_field k m in if same j k then some v else rest

pub record OathgateEvent : Type 0 where
  pub target : List ℕ
  pub line : Option ℕ
  pub module' : Option (List ℕ)
  pub level : LogLevel
  pub data' : Data
  pub ts : ℕ

pub record Metadata : Type 0 where
  pub target : List ℕ
  pub line : Option ℕ
  pub module_path : Option (List ℕ)
  pub level : LogLevel

unfoldable pub new : ℕ → Metadata → OathgateEvent
new now m = record {
  target = m.target;
  line = m.line;
  module' = m.module_path;
  level = m.level;
  data' = [];
  ts = now;
}

-- A value of a field by the method of the visitor that takes it; of a value that is only known by its
-- `Debug` or its `Display`, the text.
pub data Value : Type 0 where
  debug_text error_text text : List ℕ → Value
  f64 i64 u64 i128 u128 : ℕ → Value
  bool : Bool → Value

-- The name without `r#`, where the value is known by its `Debug`.
unfoldable pub field_name : List ℕ → Value → List ℕ
unfolding starts_with
field_name name (debug_text s) = if starts_with (114 ∷ 35 ∷ []) name then drop 2 name else name
field_name name _ = name

unfoldable pub value_of : Value → DataType
value_of (debug_text s) = str s
value_of (error_text s) = str s
value_of (text s) = str s
value_of (f64 n) = float n
value_of (Value.i64 n) = DataType.i64 n
value_of (Value.u64 n) = DataType.u64 n
value_of (Value.i128 n) = DataType.i128 n
value_of (Value.u128 n) = DataType.u128 n
value_of (bool b) = boolean b

unfoldable pub record_field : List ℕ → Value → OathgateEvent → OathgateEvent
unfolding insert field_name value_of
record_field name v e = record e { data' = insert (field_name name v) (value_of v) e.data' }

-- `event.record(&mut visitor)`
unfoldable pub record_all : List (List ℕ × Value) → OathgateEvent → OathgateEvent
unfolding record_field
record_all [] e = e
record_all ((name, v) ∷ fields) e = record_all fields (record_field name v e)

-- Of two levels the more verbose one is the greater.
unfoldable pub rank : LogLevel → ℕ
rank error = 0
rank warn = 1
rank info = 2
rank debug = 3
rank trace = 4

pub record SqliteSubscriberBuilder : Type 0 where
  pub max_level : LogLevel
  pub device_id : Option ℕ

pub record SqliteSubscriber : Type 0 where
  pub max_level : LogLevel
  pub next_id : ℕ
  pub device_id : ℕ

unfoldable pub builder : SqliteSubscriberBuilder
builder = record { max_level = error; device_id = none }

unfoldable pub with_max_level : LogLevel → SqliteSubscriberBuilder → SqliteSubscriberBuilder
with_max_level level b = record b { max_level = level }

unfoldable pub with_device_id : ℕ → SqliteSubscriberBuilder → SqliteSubscriberBuilder
with_device_id id b = record b { device_id = some id }

unfoldable pub finish : SqliteSubscriberBuilder → Outcome Error SqliteSubscriber
finish b = do
  device_id ← ok_or b.device_id field_required
  ok (record { max_level = b.max_level; next_id = 0; device_id = device_id })

unfoldable pub enabled : SqliteSubscriber → Metadata → Bool
unfolding rank
enabled s m = leb (rank m.level) (rank s.max_level)

-- The span's id, and the next one in 64 bits.
unfoldable pub new_span : SqliteSubscriber → ℕ × SqliteSubscriber
new_span s = (s.next_id, record s { next_id = (s.next_id + 1) % 2 ^ 64 })

-- `max_log_level` of the number of `-v`
unfoldable pub max_log_level : ℕ → LogLevel
max_log_level n = if n == 0 then warn else if n == 1 then info else if n == 2 then debug else trace
