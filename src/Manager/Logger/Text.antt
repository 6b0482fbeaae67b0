-- ===== src/Manager/Logger/Text.antt =====
-- The text of a level in the table of logs (oathgate/src/logger.rs).
use oathgate.Common.{ℕ, ◌≡◌, refl, List, [], ◌∷◌, if◌then◌else◌, Option, none, some}
use oathgate.Manager.Database.Table.{same}
use oathgate.Manager.Logger.{LogLevel, error, warn, info, debug, trace}

unfoldable pub to_string : LogLevel → List ℕ
to_string error = 101 ∷ 114 ∷ 114 ∷ 111 ∷ 114 ∷ []
to_string warn = 119 ∷ 97 ∷ 114 ∷ 110 ∷ []
to_string info = 105 ∷ 110 ∷ 102 ∷ 111 ∷ []
to_string debug = 100 ∷ 101 ∷ 98 ∷ 117 ∷ 103 ∷ []
to_string trace = 116 ∷ 114 ∷ 97 ∷ 99 ∷ 101 ∷ []

unfoldable pub from_str : List ℕ → Option LogLevel
unfolding to_string same
from_str s =
    if same s (to_string error)
    then some error
    else if same s (to_string warn)
    then some warn
    else if same s (to_string info)
    then some info
    else if same s (to_string debug)
    then some debug
    else if same s (to_string trace)
    then some trace
    else none

pub from_str-to_string : (l : LogLevel) → from_str (to_string l) ≡ some l
unfolding from_str
from_str-to_string error = refl
from_str-to_string warn = refl
from_str-to_string info = refl
from_str-to_string debug = refl
from_str-to_string trace = refl
