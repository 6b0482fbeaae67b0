-- ===== src/Manager/Kernel.antt =====
-- oathgate/src/database/kernel.rs and oathgate/src/cmd/kernel.rs: installed kernels. The triggers of
-- oathgate/src/database/migration.rs are part of the statements that fire them.
pub mod Default
pub mod Version
use oathgate.Common.{
  ℕ, Bool, true, false, List, [], ◌∷◌, map, if◌then◌else◌, Option, none, some, Outcome, ok, err,
  ok_or,
}
use oathgate.Common
use oathgate.Manager.Database.{
  Kernel, Database, Error, Action, no_rows, unique, lift, read, transaction, pure, ◌>>=◌, ◌>>◌,
}
use oathgate.Manager.Database.Table.{same, upsert, has_id, is_taken, query_row, query_map}
use oathgate.Manager.State.{
  Name, PathBuf, State, open_file, create, copy, name_or, run_file, hash_file, with_extension,
  kernel_dir,
}

abbrev pub id_of : Kernel → ℕ
id_of k = k.id

abbrev pub hash_of : Kernel → List ℕ
hash_of k = k.hash

-- `UPDATE kernels SET is_default = 0 WHERE is_default = 1`
unfoldable pub clear_default : List Kernel → List Kernel
clear_default ks = map (λ (k : Kernel). record k { default = false }) ks

-- A trigger: `WHEN NEW.is_default = 1`
unfoldable pub enforce_default : Kernel → List Kernel → List Kernel
unfolding clear_default
enforce_default k ks = if k.default then clear_default ks else ks

-- The statement of `save`: the trigger of the insertion, that of the update if the id is there, and
-- the constraint on the hash.
unfoldable pub save_row : Kernel → List Kernel → Outcome Error (List Kernel)
unfolding enforce_default has_id upsert is_taken
save_row k ks =
    let inserted = enforce_default k ks in
    let updated = if has_id id_of k.id inserted then enforce_default k inserted else inserted in
    if is_taken id_of hash_of k updated then err unique else ok (upsert id_of k updated)

unfoldable pub save : Kernel → Action (Unit {0})
unfolding save_row transaction
save k =
    transaction λ db. Common.◌>>=◌ (save_row k db.kernels) λ ks. ok (tt, record db { kernels = ks })

-- `WHERE name = ?1`
unfoldable pub named : Name → Kernel → Option Kernel
unfolding same
named name k = if same k.name name then some k else none

-- `WHERE is_default = 1`
unfoldable pub is_default : Kernel → Option Kernel
is_default k = if k.default then some k else none

unfoldable pub get : Name → Action Kernel
unfolding named query_row read
get name = read λ db. ok_or (query_row (named name) db.kernels) no_rows

unfoldable pub get_default : Action Kernel
unfolding is_default query_row read
get_default = read λ db. ok_or (query_row is_default db.kernels) no_rows

unfoldable pub get_all : Action (List Kernel)
unfolding read
get_all = read λ db. ok db.kernels

unfoldable pub set_default : Kernel → Kernel
set_default k = record k { default = true }

unfoldable pub path : State → Kernel → PathBuf
unfolding with_extension kernel_dir
path s k = with_extension (kernel_dir s) k.hash (98 ∷ 105 ∷ 110 ∷ [])

-- `detected` is the version that was found, or what the user gave for it.
unfoldable pub kernel_install :
    State
    → (digest : List ℕ → List ℕ) (source : PathBuf) (content : Outcome Error (List ℕ)) → Option Name
    → (detected : Outcome Error (List ℕ)) → Bool
    → Action (Unit {0})
unfolding name_or run_file hash_file path save lift ◌>>=◌
kernel_install s digest source content name detected default = do
  name ← lift (name_or s name)
  version ← lift detected
  lift (run_file s (open_file source))
  hash ← lift (hash_file digest content)
  let k : Kernel = record {
    id = s.next_id;
    hash = hash;
    name = name;
    version = version;
    default = default;
  }
  lift (run_file s (create (path s k)))
  lift (run_file s (copy source (path s k)))
  save k

unfoldable pub kernel_set_default : Name → Action (Unit {0})
unfolding get set_default save ◌>>=◌
kernel_set_default name = do k ← get name; save (set_default k)
