-- ===== src/Manager/State.antt =====
-- oathgate/src/main.rs and oathgate/src/cmd.rs: what the commands share. The answers of the user, of
-- the system and of the generators of names and ids are parameters; a path is the list of its
-- components, each the bytes of a name that is not `..` and has no slash.
use oathgate.Common.{
  ℕ, ◌*◌, Bool, List, [], ◌∷◌, ◌++◌, take, ◌==◌, if◌then◌else◌, Option, none, some, Outcome, ok,
  err, unwrap, map_err, ◌>>=◌,
}
use oathgate.Manager.Process.{System, stop}
use oathgate.Manager.Database.{Error, process, cancelled, prompt, io}

abbrev pub Name : Type 0
Name = List ℕ

abbrev pub PathBuf : Type 0
PathBuf = List Name

pub data FileOp : Type 0 where
  open_file create create_dir_all remove_dir_all : PathBuf → FileOp
  copy hard_link : PathBuf → PathBuf → FileOp

pub data Prompt : Type 0 where
  ask_stop_bridge ask_delete_bridge ask_deploy ask_stop_shard ask_delete_shard : Prompt

pub record State : Type 0 where
  pub base : PathBuf
  pub no_confirm : Bool
  pub answer : Prompt → Option Bool
  pub next_name : Option Name
  pub next_id : ℕ
  pub next_cid : ℕ
  pub probe : ℕ → Option ℕ
  pub system : ℕ → System
  pub file : FileOp → Option ℕ

unfoldable pub confirm : State → Prompt → Outcome Error (Unit {0})
confirm s p =
    if s.no_confirm
    then ok tt
    else elim (s.answer p) [ none ↦ err prompt | some yes? ↦ if yes? then ok tt else err cancelled ]

-- `self.name_gen.lock().next().unwrap()`
unfoldable pub generate_name : State → Outcome Error Name
generate_name s = unwrap s.next_name

-- `name.unwrap_or_else(|| state.generate_name())`
unfoldable pub name_or : State → Option Name → Outcome Error Name
unfolding generate_name
name_or s none = generate_name s
name_or s (some n) = ok n

-- A call of `std::fs`, by the system's answer.
unfoldable pub run_file : State → FileOp → Outcome Error (Unit {0})
run_file s op = elim (s.file op) [ none ↦ ok tt | some e ↦ err (io e) ]

-- What stands before the last dot, if there is one.
unfoldable pub before_dot : Name → Option Name
before_dot [] = none
before_dot (c ∷ cs) =
    let rest = before_dot cs in
    elim rest [ some p ↦ some (c ∷ p) | none ↦ if c == 46 then some [] else none ]

-- `PathBuf::file_stem`; a dot at the start begins no extension.
unfoldable pub file_stem : Name → Name
unfolding before_dot
file_stem n = elim (before_dot n) [ none ↦ n | some p ↦ elim p [ [] ↦ n | c ∷ cs ↦ c ∷ cs ] ]

-- `dir.join(name).with_extension(ext)`
unfoldable pub with_extension : PathBuf → Name → Name → PathBuf
unfolding file_stem
with_extension dir name ext = dir ++ (file_stem name ++ 46 ∷ ext) ∷ []

unfoldable pub network_dir : State → PathBuf
network_dir s = s.base ++ (110 ∷ 101 ∷ 116 ∷ 119 ∷ 111 ∷ 114 ∷ 107 ∷ 115 ∷ []) ∷ []

unfoldable pub shard_dir : State → PathBuf
shard_dir s = s.base ++ (115 ∷ 104 ∷ 97 ∷ 114 ∷ 100 ∷ 115 ∷ []) ∷ []

unfoldable pub kernel_dir : State → PathBuf
kernel_dir s = s.base ++ (107 ∷ 101 ∷ 114 ∷ 110 ∷ 101 ∷ 108 ∷ 115 ∷ []) ∷ []

unfoldable pub image_dir : State → PathBuf
image_dir s = s.base ++ (105 ∷ 109 ∷ 97 ∷ 103 ∷ 101 ∷ 115 ∷ []) ∷ []

-- `hash_file`: the first 8192 chunks of 1024 bytes go into the hash, which is a parameter, with the
-- encoding of its six bytes.
unfoldable pub hash_file : (List ℕ → List ℕ) → Outcome Error (List ℕ) → Outcome Error (List ℕ)
hash_file digest content = do bytes ← content; ok (digest (take (8192 * 1024) bytes))

-- `process::stop(pid)?`
unfoldable pub stop_process : State → ℕ → Outcome Error (Unit {0})
unfolding stop
stop_process s pid = map_err process (stop (s.system pid) pid).1
