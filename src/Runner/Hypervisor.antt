-- ===== src/Runner/Hypervisor.antt =====
-- oathgate-runner/src/hypervisor.rs: the loop of the process that runs a virtual machine. The events
-- come with the answers of the system; numbers are those of its errors, and of signals. What the
-- terminals show is not modelled.
pub mod Invariant
pub mod Failure
use oathgate.Common.{
  ℕ, ◌+◌, Bool, true, false, ◌||◌, List, [], ◌∷◌, ◌==◌, if◌then◌else◌, Option, none, some, Outcome,
  ok, err, panic,
}
use oathgate.Runner.Terminals.{Pty, TerminalMap, default, insert, get, set_active}

-- What became of the connection to the agent in the guest: it was refused, or registered, or it could
-- not be registered.
pub data Connection : Type 0 where
  refused registered : Connection
  not_registered : ℕ → Connection

-- An event by its token, with what its handler is answered: reading from the error stream, reading
-- the signal, the agent that says that it starts, and reading from a terminal; or waiting for events
-- fails.
pub data Event : Type 0 where
  stderr : Option ℕ → Event
  signal : Outcome ℕ (Option ℕ) → Event
  hypervisor : Outcome ℕ Connection → Event
  token : ℕ → Option ℕ → Event
  unpolled : ℕ → Event

pub data Flow : Type 0 where
  go_on stop : Flow

-- `signalled` is whether the virtual machine was sent a signal to end.
pub record Running : Type 0 where
  pub terminals : TerminalMap
  pub poller_next_id : ℕ
  pub signalled : Bool

abbrev pub Step : Type 0
Step = Running × Outcome ℕ Flow

-- A system call, and what follows it unless it failed.
unfoldable pub checked : Option ℕ → Running → Step
checked none h = (h, ok go_on)
checked (some e) h = (h, err e)

-- `Ok(Signal::SIGINT) | Ok(Signal::SIGTERM)`
unfoldable pub ends : ℕ → Bool
ends sig = sig == 2 || sig == 15

unfoldable pub handle_signal : Outcome ℕ (Option ℕ) → Running → Step
unfolding ends
handle_signal (ok none) h = (h, ok go_on)
handle_signal (ok (some sig)) h = if ends sig then (h, ok stop) else (h, ok go_on)
handle_signal (err e) h = (h, err e)
handle_signal panic h = (h, panic)

abbrev pub new_pty : Pty
new_pty = record { sizes = []; written = [] }

unfoldable pub connect : Outcome ℕ Connection → Running → Step
unfolding insert set_active
connect (ok refused) h = (h, ok go_on)
connect (ok registered) h = (
  record h {
    terminals = set_active h.poller_next_id (insert h.poller_next_id new_pty h.terminals);
    poller_next_id = h.poller_next_id + 1;
  },
  ok go_on,
)
connect (ok (not_registered e)) h = (h, err e)
connect (err e) h = (h, err e)
connect panic h = (h, panic)

unfoldable pub read_terminal : ℕ → Option ℕ → Running → Step
unfolding get checked
read_terminal t answer h = elim (get h.terminals t) [
  | none ↦ (h, ok go_on)
  | some p ↦ checked answer h
]

unfoldable pub handle_event : Event → Running → Step
unfolding checked handle_signal connect read_terminal
handle_event (stderr answer) h = checked answer h
handle_event (signal got) h = handle_signal got h
handle_event (hypervisor got) h = connect got h
handle_event (token t answer) h = read_terminal t answer h
handle_event (unpolled e) h = (h, err e)

unfoldable pub then_loop : (Running → Step) → Step → Step
then_loop rest (h, ok go_on) = rest h
then_loop rest (h, ok stop) = (h, ok stop)
then_loop rest (h, err e) = (h, err e)
then_loop rest (h, panic) = (h, panic)

-- The loop over the events that come.
unfoldable pub poll_loop : List Event → Running → Step
unfolding handle_event then_loop
poll_loop [] h = (h, ok go_on)
poll_loop (e ∷ es) h = then_loop (poll_loop es) (handle_event e h)

-- The end of the virtual machine: a signal, and waiting for it.
unfoldable pub shut_down : (kill wait : Option ℕ) → Step → Step
shut_down none none (h, ok stop) = (record h { signalled = true }, ok stop)
shut_down none (some e) (h, ok stop) = (record h { signalled = true }, err e)
shut_down (some e) wait (h, ok stop) = (h, err e)
shut_down kill wait (h, ok go_on) = (h, ok go_on)
shut_down kill wait (h, err e) = (h, err e)
shut_down kill wait (h, panic) = (h, panic)

-- The loop starts with the terminal of the standard streams, which is active.
unfoldable pub start : TerminalMap → Running
unfolding insert set_active
start terminals = record {
  terminals = set_active 1 (insert 1 new_pty terminals);
  poller_next_id = 10;
  signalled = false;
}

unfoldable pub run : (kill wait : Option ℕ) → List Event → Step
unfolding start default poll_loop shut_down
run kill wait es = shut_down kill wait (poll_loop es (start default))
