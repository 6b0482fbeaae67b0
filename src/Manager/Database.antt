-- ===== src/Manager/Database.antt =====
-- oathgate/src/database.rs and oathgate/src/database/migration.rs: the tables, and actions on them. An
-- action gives its result beside the database it leaves; what was committed before an error stays.
-- The table of logs is not modelled, and shard_networks is never written. Texts are their bytes.
pub mod Table
pub mod Keeps
pub mod Runs
use oathgate.Common.{ℕ, Bool, List, [], Option, none, some, Outcome, ok, err, panic}
use oathgate.Manager.Process

-- A row of `kernels`.
pub record Kernel : Type 0 where
  pub id : ℕ
  pub hash : List ℕ
  pub name : List ℕ
  pub version : List ℕ
  pub default : Bool

-- A row of `images`.
pub record ImageRow : Type 0 where
  pub id : ℕ
  pub hash : List ℕ
  pub name : List ℕ
  pub format : List ℕ
  pub root : Option ℕ

-- A row of `devices`.
pub record DeviceRow : Type 0 where
  pub id : ℕ
  pub pid : Option ℕ
  pub name : List ℕ
  pub device : ℕ
  pub config : List ℕ

-- A row of `shards`.
pub record Row : Type 0 where
  pub id : ℕ
  pub name : List ℕ
  pub pid : Option ℕ
  pub cid : ℕ
  pub cpu : List ℕ
  pub memory : ℕ
  pub kernel : ℕ
  pub boot_disk : ℕ

pub record Database : Type 0 where
  pub kernels : List Kernel
  pub images : List ImageRow
  pub devices : List DeviceRow
  pub shards : List Row

-- Numbers of errors are those of the system.
pub data Error : Type 0 where
  process : Process.Error → Error
  stop_denied shard_not_found device_not_found no_name still_running cancelled field_required :
      Error
  no_rows unique no_such_table unknown_format unknown_device prompt : Error
  io : ℕ → Error
  missing : List (List ℕ) → Error

abbrev pub Action : Type 0 → Type 0
Action A = Database → Outcome Error A × Database

unfoldable pub pure : {A : Type 0} → A → Action A
pure a db = (ok a, db)

unfoldable pub raise : {A : Type 0} → Error → Action A
raise e db = (err e, db)

unfoldable pub lift : {A : Type 0} → Outcome Error A → Action A
lift r db = (r, db)

unfoldable pub continue :
    {A B : Type 0} → (A → Action B) → Outcome Error A × Database → Outcome Error B × Database
continue f (ok a, db) = f a db
continue f (err e, db) = (err e, db)
continue f (panic, db) = (panic, db)

infixl 10 ◌>>=◌ ◌>>◌
unfoldable pub ◌>>=◌ : {A B : Type 0} → Action A → (A → Action B) → Action B
unfolding continue
◌>>=◌ m f db = continue f (m db)

abbrev pub ◌>>◌ : {A B : Type 0} → Action A → Action B → Action B
m >> n = m >>= λ _. n

-- How a transaction ends: a commit, or a rollback.
unfoldable pub finish :
    {A : Type 0} → Database → Outcome Error (A × Database) → Outcome Error A × Database
finish db (ok (a, db')) = (ok a, db')
finish db (err e) = (err e, db)
finish db panic = (panic, db)

unfoldable pub transaction : {A : Type 0} → (Database → Outcome Error (A × Database)) → Action A
unfolding finish
transaction f db = finish db (f db)

-- A transaction that only reads.
unfoldable pub read : {A : Type 0} → (Database → Outcome Error A) → Action A
unfolding lift
read f db = lift (f db) db

-- `Database::open` of a new file.
abbrev pub new : Database
new = record { kernels = []; images = []; devices = []; shards = [] }
