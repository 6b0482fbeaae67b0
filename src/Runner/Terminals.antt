-- ===== src/Runner/Terminals.antt =====
-- oathgate-runner/src/hypervisor/terminal.rs: the terminals of a virtual machine by their tokens. Of a
-- terminal, the sizes it was given, the last first, and what was written to it; whether it could do so
-- is a parameter.
use oathgate.Common.{
  ℕ, ◌||◌, not, List, ◌∷◌, map, ◌==◌, if◌then◌else◌, Option, none, some, Outcome, ok, err,
  ℕ_discrete,
}
use oathgate.Common.HashMap.{HashMap}
use oathgate.Common.HashMap

pub record Pty : Type 0 where
  pub sizes : List (ℕ × ℕ)
  pub written : List (List ℕ)

pub record TerminalMap : Type 0 where
  pub terminals : HashMap ℕ Pty
  pub winsz : ℕ × ℕ
  pub active : Option ℕ

unfoldable pub default : TerminalMap
default = record { terminals = HashMap.empty; winsz = (24, 80); active = none }

-- An error is only logged, so that the call alone is kept.
unfoldable pub resize_pty : ℕ × ℕ → Pty → Pty
resize_pty size p = record p { sizes = size ∷ p.sizes }

unfoldable pub get_size : TerminalMap → ℕ × ℕ
get_size m = m.winsz

unfoldable pub insert : ℕ → Pty → TerminalMap → TerminalMap
unfolding get_size resize_pty HashMap.insert
insert token pty m = record m {
  terminals = HashMap.insert ℕ_discrete m.terminals token (resize_pty (get_size m) pty);
}

unfoldable pub get : TerminalMap → ℕ → Option Pty
unfolding HashMap.get
get m token = HashMap.get ℕ_discrete m.terminals token

unfoldable pub get_active : TerminalMap → Option Pty
unfolding get
get_active m = elim m.active [ none ↦ none | some id ↦ get m id ]

unfoldable pub set_active : ℕ → TerminalMap → TerminalMap
set_active token m = record m { active = some token }

-- The bytes go to the active terminal, or nowhere; `answer` is what the system says of the write.
unfoldable pub write_to_pty :
    (ℕ → List ℕ → Option ℕ) → List ℕ → TerminalMap → TerminalMap × Outcome ℕ (Unit {0})
unfolding get HashMap.insert
write_to_pty answer bytes m = elim m.active [
  | none ↦ (m, ok tt)
  | some id ↦ elim (get m id) [
    | none ↦ (m, ok tt)
    | some p ↦ elim (answer id bytes) [
      | none ↦ (
        record m {
          terminals =
              HashMap.insert ℕ_discrete m.terminals id (record p { written = bytes ∷ p.written });
        },
        ok tt,
      )
      | some e ↦ (m, err e)
    ]
  ]
]

unfoldable pub resize_entry : ℕ × ℕ → ℕ × Pty → ℕ × Pty
unfolding resize_pty
resize_entry size (token, p) = (token, resize_pty size p)

unfoldable pub set_size : (rows cols : ℕ) → TerminalMap → TerminalMap
unfolding resize_entry
set_size rows cols m =
    let (old_rows, old_cols) = m.winsz in
    if not (rows == old_rows) || not (cols == old_cols)
    then record m {
      winsz = (rows, cols);
      terminals = record { entries = map (resize_entry (rows, cols)) m.terminals.entries };
    }
    else m
