-- ===== src/Runner/Hypervisor/Failure.antt =====
-- How the loop of oathgate-runner/src/hypervisor.rs ends when a terminal cannot be read, and when a
-- signal comes.
use oathgate.Common.{
  ℕ, ◌≡◌, refl, ap, ◌∙◌, arith, Bool, false, List, [], ◌∷◌, ◌++◌, Option, none, some, Outcome, ok,
  err, panic,
}
use oathgate.Runner.Terminals.{Pty, default, get}
use oathgate.Runner.Hypervisor.{
  Connection, refused, registered, not_registered, Event, stderr, signal, hypervisor, token,
  unpolled, go_on, stop, Running, Step, checked, handle_signal, connect, read_terminal,
  handle_event, then_loop, poll_loop, shut_down, start, run,
}

then_loop-append :
    (s : Step) (before after : List Event)
    → ((h : Running)
        → poll_loop (before ++ after) h ≡ then_loop (poll_loop after) (poll_loop before h))
    → then_loop (poll_loop (before ++ after)) s
      ≡ then_loop (poll_loop after) (then_loop (poll_loop before) s)
unfolding then_loop
then_loop-append (h, ok go_on) before after f = f h
then_loop-append (h, ok stop) before after f = refl
then_loop-append (h, err e) before after f = refl
then_loop-append (h, panic) before after f = refl

poll_loop-append :
    (before after : List Event) (h : Running)
    → poll_loop (before ++ after) h ≡ then_loop (poll_loop after) (poll_loop before h)
unfolding poll_loop then_loop
poll_loop-append [] after h = refl
poll_loop-append (e ∷ es) after h =
    then_loop-append (handle_event e h) es after (poll_loop-append es after)

-- No event sends the virtual machine a signal.
connect-signalled :
    (got : Outcome ℕ Connection) (h : Running) → (connect got h).0.signalled ≡ h.signalled
unfolding connect
connect-signalled (ok refused) h = refl
connect-signalled (ok registered) h = refl
connect-signalled (ok (not_registered e)) h = refl
connect-signalled (err e) h = refl
connect-signalled panic h = refl

checked-signalled : (answer : Option ℕ) (h : Running) → (checked answer h).0.signalled ≡ h.signalled
unfolding checked
checked-signalled none h = refl
checked-signalled (some e) h = refl

handle_event-signalled : (e : Event) (h : Running) → (handle_event e h).0.signalled ≡ h.signalled
unfolding handle_event handle_signal read_terminal
handle_event-signalled (stderr answer) h = checked-signalled answer h
handle_event-signalled (signal (ok none)) h = refl
handle_event-signalled (signal (ok (some sig))) h = ground arith
handle_event-signalled (signal (err e)) h = refl
handle_event-signalled (signal panic) h = refl
handle_event-signalled (hypervisor got) h = connect-signalled got h
handle_event-signalled (token t answer) h = ground (arith, checked-signalled answer h)
handle_event-signalled (unpolled e) h = refl

then_loop-signalled :
    (b : Bool) (rest : Running → Step) (s : Step)
    → ((h : Running) → h.signalled ≡ b → (rest h).0.signalled ≡ b)
    → s.0.signalled ≡ b
    → (then_loop rest s).0.signalled ≡ b
unfolding then_loop
then_loop-signalled b rest (h, ok go_on) f e = f h e
then_loop-signalled b rest (h, ok stop) f e = e
then_loop-signalled b rest (h, err x) f e = e
then_loop-signalled b rest (h, panic) f e = e

poll_loop-signalled :
    (b : Bool) (es : List Event) (h : Running) → h.signalled ≡ b → (poll_loop es h).0.signalled ≡ b
unfolding poll_loop
poll_loop-signalled b [] h e = e
poll_loop-signalled b (x ∷ es) h e =
    then_loop-signalled b (poll_loop es) (handle_event x h) (poll_loop-signalled b es)
      (handle_event-signalled x h ∙ e)

failed_after :
    (kill wait : Option ℕ) (s : Step) (t e : ℕ) (after : List Event) (p : Pty)
    → s.1 ≡ ok go_on
    → get s.0.terminals t ≡ some p
    → shut_down kill wait (then_loop (poll_loop (token t (some e) ∷ after)) s) ≡ (s.0, err e)
unfolding shut_down then_loop poll_loop handle_event read_terminal checked
failed_after kill wait (h, ok go_on) t e after p q g = ground (arith, g)
failed_after kill wait (h, ok stop) t e after p q g = absurd (ground (arith, q))
failed_after kill wait (h, err x) t e after p q g = absurd (ground (arith, q))
failed_after kill wait (h, panic) t e after p q g = absurd (ground (arith, q))

-- When a terminal that is there cannot be read, after events that the loop went on after, the
-- hypervisor ends with that error, and the virtual machine has not been sent a signal to end.
pub run_failed :
    (kill wait : Option ℕ) (before after : List Event) (t e : ℕ) (p : Pty)
    → (poll_loop before (start default)).1 ≡ ok go_on
    → get (poll_loop before (start default)).0.terminals t ≡ some p
    → (run kill wait (before ++ token t (some e) ∷ after)
        ≡ ((poll_loop before (start default)).0, err e))
      × ((poll_loop before (start default)).0.signalled ≡ false)
unfolding run start
run_failed kill wait before after t e p went_on there = (
  ap (shut_down kill wait) (poll_loop-append before (token t (some e) ∷ after) (start default))
      ∙ failed_after kill wait (poll_loop before (start default)) t e after p went_on there,
  poll_loop-signalled false before (start default) refl,
)
