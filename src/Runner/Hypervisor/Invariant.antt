-- ===== src/Runner/Hypervisor/Invariant.antt =====
-- What the loop of oathgate-runner/src/hypervisor.rs keeps of its terminals, and how it ends.
use oathgate.Common.{
  ℕ, ◌+◌, ◌<◌, ◌≡◌, refl, sym, ap, subst, ◌∙◌, arith, Bool, true, false, ◌||◌, not, List, [], ◌∷◌,
  map, ◌==◌, if◌then◌else◌, Option, none, some, Outcome, ok, err, panic, All, ℕ_discrete, ite,
}
use oathgate.Common.HashMap.{HashMap, get_entry, insert_entry, get-insert_self, get-insert_ne}
use oathgate.Common.HashMap
use oathgate.Runner.Terminals.{
  Pty, TerminalMap, default, resize_pty, resize_entry, insert, get, get_active, set_active,
  set_size,
}
use oathgate.Runner.Hypervisor.{
  Connection, refused, registered, not_registered, Event, stderr, signal, hypervisor, token,
  unpolled, go_on, stop, Running, Step, checked, handle_signal, new_pty, connect, read_terminal,
  handle_event, then_loop, poll_loop, start,
}

-- The last size that a terminal was given.
abbrev pub IsSized : ℕ × ℕ → Pty → Type 0
IsSized size p = (older : List (ℕ × ℕ)) × (p.sizes ≡ size ∷ older)

-- Every terminal has a token below `next` and was last given the size of the map.
abbrev pub IsTerminals : ℕ → TerminalMap → Type 0
IsTerminals next m = All (λ (e : ℕ × Pty). (e.0 < next) × IsSized m.winsz e.1) m.terminals.entries

-- The next token is new, all terminals have the size of the map, and one of them is active.
pub record IsRunning (h : Running) : Type 0 where
  pub tokens : IsTerminals h.poller_next_id h.terminals
  pub active : (p : Pty) × (get_active h.terminals ≡ some p)

insert_entry-All :
    (P : ℕ × Pty → Type 0) (k : ℕ) (p : Pty) (es : List (ℕ × Pty))
    → P (k, p)
    → All P es
    → All P (insert_entry ℕ_discrete k p es)
unfolding insert_entry
insert_entry-All P k p [] h all = (h, tt)
insert_entry-All P k p ((j, q) ∷ es) h all =
    elim (ℕ_discrete j k)
      as (λ d. All P (ite d ((k, p) ∷ es) ((j, q) ∷ insert_entry ℕ_discrete k p es))) [
        | yes e ↦ (h, all.1)
        | no ne ↦ (all.0, insert_entry-All P k p es h all.1)
      ]

older-tokens :
    (next : ℕ) (size : ℕ × ℕ) (es : List (ℕ × Pty))
    → All (λ (e : ℕ × Pty). (e.0 < next) × IsSized size e.1) es
    → All (λ (e : ℕ × Pty). (e.0 < next + 1) × IsSized size e.1) es
older-tokens next size [] all = tt
older-tokens next size (e ∷ es) all =
    ((omega (arith, all.0.0), all.0.1), older-tokens next size es all.1)

get_active-insert :
    (k : ℕ) (p : Pty) (m : TerminalMap)
    → get_active (set_active k (insert k p m)) ≡ some (resize_pty m.winsz p)
unfolding get_active set_active insert get
get_active-insert k p m = get-insert_self ℕ_discrete m.terminals k (resize_pty m.winsz p)

start-IsRunning : IsRunning (start default)
unfolding start default set_active insert HashMap.insert insert_entry resize_pty
start-IsRunning = record {
  tokens = ((omega arith, ([], refl)), tt);
  active = (resize_pty (24, 80) new_pty, get_active-insert 1 new_pty default);
}

connect-IsRunning :
    (got : Outcome ℕ Connection) (h : Running) → IsRunning h → IsRunning (connect got h).0
unfolding connect insert set_active HashMap.insert resize_pty
connect-IsRunning (ok refused) h r = r
connect-IsRunning (ok registered) h r = record {
  tokens =
      insert_entry-All
        (λ (e : ℕ × Pty). (e.0 < h.poller_next_id + 1) × IsSized h.terminals.winsz e.1)
        h.poller_next_id (resize_pty h.terminals.winsz new_pty) h.terminals.terminals.entries
        (omega arith, ([], refl))
        (older-tokens h.poller_next_id h.terminals.winsz h.terminals.terminals.entries r.tokens);
  active = (
    resize_pty h.terminals.winsz new_pty,
    get_active-insert h.poller_next_id new_pty h.terminals,
  );
}
connect-IsRunning (ok (not_registered e)) h r = r
connect-IsRunning (err e) h r = r
connect-IsRunning panic h r = r

-- Nothing but a connection changes the state.
checked-same : (answer : Option ℕ) (h : Running) → (checked answer h).0 ≡ h
unfolding checked
checked-same none h = refl
checked-same (some e) h = refl

handle_signal-same : (got : Outcome ℕ (Option ℕ)) (h : Running) → (handle_signal got h).0 ≡ h
unfolding handle_signal
handle_signal-same (ok none) h = refl
handle_signal-same (ok (some sig)) h = ground arith
handle_signal-same (err e) h = refl
handle_signal-same panic h = refl

read_terminal-same : (t : ℕ) (answer : Option ℕ) (h : Running) → (read_terminal t answer h).0 ≡ h
unfolding read_terminal
read_terminal-same t answer h = ground (arith, checked-same answer h)

handle_event-IsRunning : (e : Event) (h : Running) → IsRunning h → IsRunning (handle_event e h).0
unfolding handle_event
handle_event-IsRunning (stderr answer) h r = subst IsRunning (sym (checked-same answer h)) r
handle_event-IsRunning (signal got) h r = subst IsRunning (sym (handle_signal-same got h)) r
handle_event-IsRunning (hypervisor got) h r = connect-IsRunning got h r
handle_event-IsRunning (token t answer) h r =
    subst IsRunning (sym (read_terminal-same t answer h)) r
handle_event-IsRunning (unpolled e) h r = r

then_loop-IsRunning :
    (rest : Running → Step) (s : Step)
    → ((h : Running) → IsRunning h → IsRunning (rest h).0)
    → IsRunning s.0
    → IsRunning (then_loop rest s).0
unfolding then_loop
then_loop-IsRunning rest (h, ok go_on) f r = f h r
then_loop-IsRunning rest (h, ok stop) f r = r
then_loop-IsRunning rest (h, err e) f r = r
then_loop-IsRunning rest (h, panic) f r = r

poll_loop-IsRunning : (es : List Event) (h : Running) → IsRunning h → IsRunning (poll_loop es h).0
unfolding poll_loop
poll_loop-IsRunning [] h r = r
poll_loop-IsRunning (e ∷ es) h r =
    then_loop-IsRunning (poll_loop es) (handle_event e h) (poll_loop-IsRunning es)
      (handle_event-IsRunning e h r)

-- Whatever events come, and whether the loop goes on, stops or fails: all tokens of terminals are below
-- the next one, all terminals were last given the size of the map, and one of them is active.
pub run-IsRunning : (es : List Event) → IsRunning (poll_loop es (start default)).0
run-IsRunning es = poll_loop-IsRunning es (start default) start-IsRunning

get_entry-token :
    (next t : ℕ) (size : ℕ × ℕ) (p : Pty) (es : List (ℕ × Pty))
    → All (λ (e : ℕ × Pty). (e.0 < next) × IsSized size e.1) es
    → get_entry ℕ_discrete t es ≡ some p
    → t < next
unfolding get_entry
get_entry-token next t size p [] all e = absurd (ground (arith, e))
get_entry-token next t size p ((j, q) ∷ es) all e =
    elim (ℕ_discrete j t) as (λ d. ite d (some q) (get_entry ℕ_discrete t es) ≡ some p → t < next) [
      | yes same ↦ λ h. omega (arith, all.0.0, same)
      | no ne ↦ λ h. get_entry-token next t size p es all.1 h
    ]
      e

-- No event loses a terminal: a new connection has a token of its own.
pub handle_event-get :
    (e : Event) (h : Running) (t : ℕ) (p : Pty)
    → IsRunning h
    → get h.terminals t ≡ some p
    → get (handle_event e h).0.terminals t ≡ some p
unfolding handle_event get HashMap.get connect insert set_active
handle_event-get (stderr answer) h t p r e =
    ap (λ (x : Running). get x.terminals t) (checked-same answer h) ∙ e
handle_event-get (signal got) h t p r e =
    ap (λ (x : Running). get x.terminals t) (handle_signal-same got h) ∙ e
handle_event-get (hypervisor (ok refused)) h t p r e = e
handle_event-get (hypervisor (ok registered)) h t p r e =
    let lt =
      get_entry-token h.poller_next_id t h.terminals.winsz p h.terminals.terminals.entries r.tokens
        e in
    get-insert_ne ℕ_discrete h.terminals.terminals h.poller_next_id t
      (resize_pty h.terminals.winsz new_pty) (λ q. absurd (omega (arith, lt, q)))
    ∙ e
handle_event-get (hypervisor (ok (not_registered x))) h t p r e = e
handle_event-get (hypervisor (err x)) h t p r e = e
handle_event-get (hypervisor panic) h t p r e = e
handle_event-get (token t' answer) h t p r e =
    ap (λ (x : Running). get x.terminals t) (read_terminal-same t' answer h) ∙ e
handle_event-get (unpolled x) h t p r e = e

resize_entry-All :
    (next : ℕ) (old size : ℕ × ℕ) (es : List (ℕ × Pty))
    → All (λ (e : ℕ × Pty). (e.0 < next) × IsSized old e.1) es
    → All (λ (e : ℕ × Pty). (e.0 < next) × IsSized size e.1) (map (resize_entry size) es)
unfolding resize_entry resize_pty
resize_entry-All next old size [] all = tt
resize_entry-All next old size ((t, p) ∷ es) all =
    ((all.0.0, (p.sizes, refl)), resize_entry-All next old size es all.1)

-- After a size was set, every terminal was last given that size, if each was given the one before.
pub set_size-IsTerminals :
    (rows cols next : ℕ) (m : TerminalMap)
    → IsTerminals next m
    → IsTerminals next (set_size rows cols m) × ((set_size rows cols m).winsz ≡ (rows, cols))
unfolding set_size
set_size-IsTerminals rows cols next m all =
    by_change (not (rows == m.winsz.0) || not (cols == m.winsz.1)) refl
  where
    new : TerminalMap
    new = record m {
      winsz = (rows, cols);
      terminals = record { entries = map (resize_entry (rows, cols)) m.terminals.entries };
    }

    by_change :
        (b : Bool)
        → (not (rows == m.winsz.0) || not (cols == m.winsz.1)) ≡ b
        → IsTerminals next (if b then new else m) × ((if b then new else m).winsz ≡ (rows, cols))
    by_change true e = (resize_entry-All next m.winsz (rows, cols) m.terminals.entries all, refl)
    by_change false e =
        let r : m.winsz.0 ≡ rows = ground (arith, e) in
        let c : m.winsz.1 ≡ cols = ground (arith, e) in (all, λ i. (r i, c i))
