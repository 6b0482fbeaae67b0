-- ===== src/Manager/Image/Format.antt =====
-- `DiskFormat` of oathgate/src/database/image.rs, and how it is written in the database.
use oathgate.Common.{
  ℕ, ◌+◌, ◌≡◌, refl, ◌&&◌, List, [], ◌∷◌, map, leb, if◌then◌else◌, Outcome, ok, err,
}
use oathgate.Manager.Database.{Error, unknown_format}
use oathgate.Manager.Database.Table.{same}

pub data DiskFormat : Type 0 where
  raw qcow2 : DiskFormat

unfoldable pub to_string : DiskFormat → List ℕ
to_string raw = 114 ∷ 97 ∷ 119 ∷ []
to_string qcow2 = 113 ∷ 99 ∷ 111 ∷ 119 ∷ 50 ∷ []

unfoldable pub to_ascii_lowercase : List ℕ → List ℕ
to_ascii_lowercase s = map (λ c. if leb 65 c && leb c 90 then c + 32 else c) s

unfoldable pub from_str : List ℕ → Outcome Error DiskFormat
unfolding to_ascii_lowercase to_string same
from_str s =
    if same (to_ascii_lowercase s) (to_string raw)
    then ok raw
    else if same (to_ascii_lowercase s) (to_string qcow2)
    then ok qcow2
    else err unknown_format

pub from_str-to_string : (f : DiskFormat) → from_str (to_string f) ≡ ok f
unfolding from_str
from_str-to_string raw = refl
from_str-to_string qcow2 = refl
