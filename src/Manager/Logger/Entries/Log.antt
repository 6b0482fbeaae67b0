-- ===== src/Manager/Logger/Entries/Log.antt =====
-- The table of logs is a list of events for each device, to which a saved event is appended
-- (oathgate/src/database/log.rs).
use mathlib.Core.List.{Perm, perm_append_comm}
use oathgate.Common.{
  ℕ, ◌≡◌, ◌≢◌, refl, sym, ap, ◌∙◌, arith, Bool, true, false, List, [], ◌∷◌, ◌++◌, if◌then◌else◌,
  Option, none, some, Outcome, ok, err, panic, unwrap, ◌>>=◌,
}
use oathgate.Manager.Database.{Error, unique}
use oathgate.Manager.Database.Table.{has_id}
use oathgate.Manager.Logger.{Data, OathgateEvent}
use oathgate.Manager.Logger.Text.{from_str-to_string}
use oathgate.Manager.Logger.Entries.{
  Json, LogRow, id_of, to_row, from_row, is_of, cons_event, save, get,
}

-- The event as it comes back from its row, where its data is read as something.
abbrev pub read_as : OathgateEvent → Data → OathgateEvent
read_as e d = record e { data' = d }

from_row-to_row :
    (js : Json) (id : ℕ) (device : Option ℕ) (e : OathgateEvent) (json : List ℕ) (o : Option Data)
    → js.from_value json ≡ o
    → from_row js (to_row id device e json) ≡ elim o [ some d ↦ ok (read_as e d) | none ↦ panic ]
unfolding from_row to_row
from_row-to_row js id device e json (some d) h = ground (arith, from_str-to_string e.level, h)
from_row-to_row js id device e json none h = ground (arith, from_str-to_string e.level, h)

is_of_self :
    (id device : ℕ) (e : OathgateEvent) (json : List ℕ)
    → is_of device (to_row id (some device) e json) ≡ true
unfolding is_of to_row
is_of_self id device e json = ground arith

is_of_other :
    (id device other : ℕ) (e : OathgateEvent) (json : List ℕ)
    → other ≢ device
    → is_of other (to_row id (some device) e json) ≡ false
unfolding is_of to_row
is_of_other id device other e json ne = ground (arith, ne)

cons_event-ok :
    (r : Outcome Error OathgateEvent) (rest : Outcome Error (List OathgateEvent))
    (es : List OathgateEvent)
    → cons_event r rest ≡ ok es
    → (e : OathgateEvent) × (tail : List OathgateEvent) × (r ≡ ok e)
      × (rest ≡ ok tail)
      × (es ≡ e ∷ tail)
unfolding cons_event
cons_event-ok (ok e) (ok tail) es h = (e, tail, refl, refl, ground (arith, h))
cons_event-ok (ok e) (err x) es h = absurd (ground (arith, h))
cons_event-ok (ok e) panic es h = absurd (ground (arith, h))
cons_event-ok (err x) rest es h = absurd (ground (arith, h))
cons_event-ok panic rest es h = absurd (ground (arith, h))

-- The log behind which one more row is read.
abbrev extended :
    Outcome Error OathgateEvent → List OathgateEvent → Outcome Error (List OathgateEvent)
extended o es = o >>= λ e. ok (es ++ e ∷ [])

cons_event-extended :
    (y : OathgateEvent) (o : Outcome Error OathgateEvent) (tail : List OathgateEvent)
    → cons_event (ok y) (extended o tail) ≡ extended o (y ∷ tail)
unfolding cons_event
cons_event-extended y (ok e) tail = refl
cons_event-extended y (err x) tail = refl
cons_event-extended y panic tail = refl

-- The first row in front of one that is appended.
cons_event-append :
    (r o : Outcome Error OathgateEvent) (rest rest' : Outcome Error (List OathgateEvent))
    (es : List OathgateEvent)
    → ((tail : List OathgateEvent) → rest ≡ ok tail → rest' ≡ extended o tail)
    → cons_event r rest ≡ ok es
    → cons_event r rest' ≡ extended o es
cons_event-append r o rest rest' es f h =
    let (y, tail, hr, ht, he) = cons_event-ok r rest es h in
    ap (λ q. cons_event q rest') hr
    ∙ ap (cons_event (ok y)) (f tail ht)
    ∙ cons_event-extended y o tail
    ∙ ap (extended o) (sym he)

get-append :
    (js : Json) (device : ℕ) (rows : List LogRow) (r : LogRow) (o : Outcome Error OathgateEvent)
    (es : List OathgateEvent)
    → get js device rows ≡ ok es
    → is_of device r ≡ true
    → from_row js r ≡ o
    → get js device (rows ++ r ∷ []) ≡ extended o es
unfolding get cons_event
get-append js device [] r o es h mine from =
    let none : es ≡ [] = ground (arith, h) in
    ap (λ b. if b then cons_event (from_row js r) (ok []) else ok []) mine
    ∙ ap (λ q. cons_event q (ok [])) from
    ∙ ap (extended o) (sym none)
get-append js device (x ∷ rows) r o es h mine from =
    elim (is_of device x)
        as (λ b.
          (if b then cons_event (from_row js x) (get js device rows) else get js device rows)
            ≡ ok es
          → (if b
              then cons_event (from_row js x) (get js device (rows ++ r ∷ []))
              else get js device (rows ++ r ∷ []))
            ≡ extended o es) [
              | true ↦
                  cons_event-append (from_row js x) o (get js device rows)
                    (get js device (rows ++ r ∷ [])) es
                    (λ tail t. get-append js device rows r o tail t mine from)
              | false ↦ λ k. get-append js device rows r o es k mine from
            ]
      h

get-append_other :
    (js : Json) (device : ℕ) (rows : List LogRow) (r : LogRow)
    → is_of device r ≡ false
    → get js device (rows ++ r ∷ []) ≡ get js device rows
unfolding get
get-append_other js device [] r other = ground (arith, other)
get-append_other js device (x ∷ rows) r other =
    ap (λ q. if is_of device x then cons_event (from_row js x) q else q)
      (get-append_other js device rows r other)

save-rows :
    (js : Json) (id : ℕ) (device : Option ℕ) (e : OathgateEvent) (rows rows' : List LogRow)
    → save js id device e rows ≡ ok rows'
    → (json : List ℕ) × (js.to_value e.data' ≡ some json)
      × (rows' ≡ rows ++ to_row id device e json ∷ [])
unfolding save
save-rows js id device e rows rows' h = by_json (js.to_value e.data') refl h
  where
    by_id :
        (json : List ℕ) (b : Bool)
        → (if b then err unique else ok (rows ++ to_row id device e json ∷ [])) ≡ ok rows'
        → rows' ≡ rows ++ to_row id device e json ∷ []
    by_id json true q = absurd (ground (arith, q))
    by_id json false q = ground (arith, q)

    by_json :
        (o : Option (List ℕ))
        → js.to_value e.data' ≡ o
        → (unwrap o >>= λ json.
            if has_id id_of id rows then err unique else ok (rows ++ to_row id device e json ∷ []))
          ≡ ok rows'
        → (json : List ℕ) × (js.to_value e.data' ≡ some json)
          × (rows' ≡ rows ++ to_row id device e json ∷ [])
    by_json none hj q = absurd (ground (arith, q))
    by_json (some json) hj q = (json, hj, by_id json (has_id id_of id rows) q)

-- What the log of a device is once an event was saved for it: a permutation of the old log and the
-- event, with the data that its JSON is read as; a panic if it is not read.
abbrev pub IsExtended :
    Json → ℕ → List LogRow → List OathgateEvent → OathgateEvent → Option Data → Type 0
IsExtended js device rows es e (some d) =
    (log : List OathgateEvent) × (get js device rows ≡ ok log) × Perm log (read_as e d ∷ es)
IsExtended js device rows es e none = get js device rows ≡ panic

extended-IsExtended :
    (js : Json) (device : ℕ) (rows : List LogRow) (es : List OathgateEvent) (e : OathgateEvent)
    (o : Option Data)
    → get js device rows ≡ extended (elim o [ some d ↦ ok (read_as e d) | none ↦ panic ]) es
    → IsExtended js device rows es e o
extended-IsExtended js device rows es e (some d) h =
    (es ++ read_as e d ∷ [], h, perm_append_comm es (read_as e d ∷ []))
extended-IsExtended js device rows es e none h = h

-- When an event of a device is saved, and its log could be read before, its data was written as JSON,
-- and the device's log is, up to the order, the old one and the event, with the data that this JSON
-- is read as. If it is not read as any data, reading the device's log panics. The log of another
-- device is the same.
pub save-get :
    (js : Json) (id device other : ℕ) (e : OathgateEvent) (rows rows' : List LogRow)
    (es : List OathgateEvent)
    → other ≢ device
    → save js id (some device) e rows ≡ ok rows'
    → get js device rows ≡ ok es
    → (json : List ℕ) × (js.to_value e.data' ≡ some json)
      × IsExtended js device rows' es e (js.from_value json)
      × (get js other rows' ≡ get js other rows)
save-get js id device other e rows rows' es ne h log =
    let (json, written, left) = save-rows js id (some device) e rows rows' h in
    let r = to_row id (some device) e json in
    let back = from_row-to_row js id (some device) e json (js.from_value json) refl in
    (
      json,
      written,
      extended-IsExtended js device rows' es e (js.from_value json) (
          ap (get js device) left
          ∙ get-append js device rows r _ es log (is_of_self id device e json) back),
      ap (get js other) left
          ∙ get-append_other js other rows r (is_of_other id device other e json ne),
    )
