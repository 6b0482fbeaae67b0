-- ===== src/Manager/Logger/Tests.antt =====
-- The theorem about the table of logs at a concrete table, with JSON of one field at most.
use oathgate.Common.{ℕ, ◌≡◌, ◌≢◌, refl, arith, List, [], ◌∷◌, ◌++◌, Option, none, some, ok}
use oathgate.Manager.Logger.{DataType, str, Data, OathgateEvent, warn}
use oathgate.Manager.Logger.Entries.{Json, LogRow, to_row, save, get}
use oathgate.Manager.Logger.Entries.Log.{IsExtended, save-get}

abbrev letter : List ℕ → DataType → Option (List ℕ)
letter (k ∷ []) (str s) = some (k ∷ s)
letter _ _ = none

abbrev write_json : Data → Option (List ℕ)
write_json [] = some []
write_json ((k, v) ∷ []) = letter k v
write_json _ = none

abbrev read_json : List ℕ → Option Data
read_json [] = some []
read_json (k ∷ s) = some ((k ∷ [], str s) ∷ [])

abbrev json : Json
json = record { to_value = write_json; from_value = read_json }

abbrev message : ℕ → OathgateEvent
message ts = record {
  target = 111 ∷ [];
  line = some 7;
  module' = none;
  level = warn;
  data' = (109 ∷ [], str (104 ∷ 105 ∷ [])) ∷ [];
  ts = ts;
}

abbrev old_rows : List LogRow
old_rows =
    to_row 1 (some 5) (message 100) (109 ∷ 104 ∷ 105 ∷ [])
    ∷ to_row 2 (some 6) (message 101) (109 ∷ 104 ∷ 105 ∷ [])
    ∷ []

abbrev new_rows : List LogRow
new_rows = old_rows ++ to_row 3 (some 5) (message 102) (109 ∷ 104 ∷ 105 ∷ []) ∷ []

other-differs : ◌≢◌ {A = ℕ} 6 5
other-differs e = absurd (omega (arith, e))

saves : save json 3 (some 5) (message 102) old_rows ≡ ok new_rows
unfolding save to_row
saves = refl

old_log : get json 5 old_rows ≡ ok (message 100 ∷ [])
unfolding get to_row
old_log = refl

save-get_example :
    (text : List ℕ) × (write_json (message 102).data' ≡ some text)
    × IsExtended json 5 new_rows (message 100 ∷ []) (message 102) (read_json text)
    × (get json 6 new_rows ≡ get json 6 old_rows)
save-get_example =
    save-get json 3 5 6 (message 102) old_rows new_rows (message 100 ∷ []) other-differs saves
      old_log
