-- ===== src/Manager/Shard/Machine.antt =====
-- `generate_machine_config` of oathgate/src/database/shard.rs and the records of
-- oathgate-runner/src/config.rs: what the virtual machine of a shard is started with.
use oathgate.Common.{
  ℕ, ◌+◌, ◌/◌, ◌%◌, zero, suc, List, [], ◌∷◌, ◌++◌, ltb, if◌then◌else◌, Option, none, some,
}
use oathgate.Manager.State.{PathBuf, State}
use oathgate.Manager.Image.Format.{to_string}
use oathgate.Manager.Shard.{Shard, kernel_path, boot_disk_path}

pub record KernelConfig : Type 0 where
  pub path : PathBuf
  pub root : List ℕ

pub record DiskConfig : Type 0 where
  pub path : PathBuf
  pub format : Option (List ℕ)

pub record MachineConfig : Type 0 where
  pub cpu : List ℕ
  pub memory : List ℕ
  pub kernel : KernelConfig
  pub disk : DiskConfig

-- The decimal digits of a number with at most `fuel` of them; five are enough for 16 bits.
unfoldable pub digits : ℕ → ℕ → List ℕ
digits zero n = []
digits (suc fuel) n =
    let rest = digits fuel (n / 10) in
    if ltb n 10 then (48 + n) ∷ [] else rest ++ (48 + n % 10) ∷ []

unfoldable pub decimal : ℕ → List ℕ
unfolding digits
decimal n = digits 5 n

-- `/dev/vda`, with the number of a partition
unfoldable pub disk_root : Option ℕ → List ℕ
unfolding decimal
disk_root none = 47 ∷ 100 ∷ 101 ∷ 118 ∷ 47 ∷ 118 ∷ 100 ∷ 97 ∷ []
disk_root (some id) = (47 ∷ 100 ∷ 101 ∷ 118 ∷ 47 ∷ 118 ∷ 100 ∷ 97 ∷ []) ++ decimal id

unfoldable pub generate_machine_config : State → Shard → MachineConfig
unfolding kernel_path boot_disk_path disk_root decimal to_string
generate_machine_config s x = record {
  cpu = x.cpu;
  memory = decimal x.memory ++ 109 ∷ [];
  kernel = record { path = kernel_path s x; root = disk_root x.boot_disk.root };
  disk = record { path = boot_disk_path s x; format = some (to_string x.boot_disk.format) };
}
