-- ===== src/Terminal/Session.antt =====
-- What the agent makes of a sequence of messages of the runner (oathgate-fabrial/src/tty.rs, `run`).
use mathlib.Core.List.{append_assoc, append-nil}
use oathgate.Common.{
  ℕ, zero, suc, ◌^◌, ◌≤◌, ◌<◌, ◌≡◌, refl, sym, ap, ◌∙◌, arith, List, [], ◌∷◌, ◌++◌, map, length,
  length-append, none, ok, err, All,
}
use oathgate.Common.Bytes.{from_le, to_le}
use oathgate.Terminal.Client.{Message, write, resize, send, send_all, write_pty, resize_pty}
use oathgate.Terminal.Agent.{
  length_missing, Output, written, resized, System, SockTty, call, non_blocking_recv,
  handle_socket_data, handle_type, read_type, read_from_socket, write_to_tty_fd, act, sock_loop,
  Event, sock, handle_event, run,
}
use oathgate.Terminal.Messages.{read_from_socket_whole, read_from_socket-resize_pty}

-- A message that the agent understands: some input, fewer than 2 ^ 16 bytes, or a size of 16 bits
-- that is not zero either way. The system calls that it leads to succeed.
pub data IsMessage (sys : System) : Message → Type 0 where
  input :
      (body : List ℕ)
      → 0 < length body
      → length body < 2 ^ 16
      → sys.tty_write body ≡ none
      → IsMessage sys (write body)
  size :
      (rows cols : ℕ)
      → 0 < rows
      → rows < 2 ^ 16
      → 0 < cols
      → cols < 2 ^ 16
      → sys.set_size rows cols ≡ none
      → IsMessage sys (resize rows cols)

-- What a message is to do.
unfoldable pub effect : Message → Output
effect (write body) = written body
effect (resize rows cols) = resized rows cols

-- The terminal when all messages were handled.
abbrev pub finished : List Message → SockTty → SockTty
finished ms t = record t { input = []; msg = []; out = t.out ++ map effect ms }

-- One message in front of what follows.
sock_loop-message :
    (sys : System) (rounds : ℕ) (m : Message) (more : List ℕ) (t : SockTty)
    → IsMessage sys m
    → t.input ≡ send m ++ more
    → (msg : List ℕ) × (sock_loop sys (suc rounds) t
        ≡ sock_loop sys rounds (record t { input = more; msg = msg; out = t.out ++ effect m ∷ [] }))
unfolding sock_loop act write_to_tty_fd call send effect
sock_loop-message sys rounds _ more t (input body h lt wrote) e =
    (body, ground (arith, read_from_socket_whole sys body more t h lt e, wrote))
sock_loop-message sys rounds _ more t (size rows cols pr hr pc hc set) e =
    ([], ground (arith, read_from_socket-resize_pty sys rows cols more t pr hr pc hc set e))

-- With nothing in the socket the loop ends.
sock_loop-empty :
    (sys : System) (rounds : ℕ) (t : SockTty)
    → t.input ≡ []
    → t.broken ≡ none
    → sock_loop sys (suc rounds) t ≡ (record t { msg = [] }, ok tt)
unfolding sock_loop act read_from_socket handle_type non_blocking_recv read_type
sock_loop-empty sys rounds t e b = ground (arith, e, b)

sock_loop_lem :
    (sys : System) (rounds : ℕ) (ms : List Message) (t : SockTty)
    → All (IsMessage sys) ms
    → length ms < rounds
    → t.input ≡ send_all ms
    → t.broken ≡ none
    → sock_loop sys rounds t ≡ (finished ms t, ok tt)
unfolding send_all
sock_loop_lem sys zero ms t all h e b = absurd (omega arith)
sock_loop_lem sys (suc rounds) [] t all h e b =
    sock_loop-empty sys rounds t e b
    ∙ (λ i. (record t { input = e i; msg = []; out = sym (append-nil t.out) i }, ok tt))
sock_loop_lem sys (suc rounds) (m ∷ ms) t (one, all) h e b =
    let (msg, step) = sock_loop-message sys rounds m (send_all ms) t one e in
    let t' : SockTty = record t { input = send_all ms; msg = msg; out = t.out ++ effect m ∷ [] } in
    step
    ∙ sock_loop_lem sys rounds ms t' all (omega arith) refl b
    ∙ ap (λ (xs : List Output). (record t { input = []; msg = []; out = xs }, ok tt))
        (append_assoc t.out (effect m ∷ []) (map effect ms))

-- Each message has a byte at least.
length-send_all :
    (sys : System) (ms : List Message) → All (IsMessage sys) ms → length ms ≤ length (send_all ms)
unfolding send_all send write_pty resize_pty to_le
length-send_all sys [] all = omega arith
length-send_all sys (_ ∷ ms) (input body h lt wrote, all) =
    omega (arith, length-send_all sys ms all, length-append {0} body (send_all ms))
length-send_all sys (_ ∷ ms) (size rows cols pr hr pc hc set, all) =
    omega (arith, length-send_all sys ms all)

-- Messages of the runner that arrive together have their effects in the order they were sent, each
-- once and nothing else, and leave nothing in the socket: input is written to the terminal byte for
-- byte, a new size is set. This for messages that the agent understands, whose system calls succeed,
-- on a socket that was empty and is not broken.
pub handle_event-send_all :
    (sys : System) (ms : List Message) (t : SockTty)
    → All (IsMessage sys) ms
    → t.input ≡ []
    → t.broken ≡ none
    → handle_event sys (sock (send_all ms)) t ≡ (finished ms t, ok tt)
unfolding handle_event
handle_event-send_all sys ms t all e b =
    let arrived : t.input ++ send_all ms ≡ send_all ms = ap (λ xs. xs ++ send_all ms) e in
    sock_loop_lem sys (suc (length (t.input ++ send_all ms))) ms
      (record t { input = t.input ++ send_all ms }) all
      (omega (arith, length-send_all sys ms all, ap length arrived)) arrived b

-- A message of input whose first byte arrives alone ends the thread, and the terminal with it: the
-- length that is not there yet is taken for zero.
pub run-split :
    (sys : System) (events : List Event) (t : SockTty)
    → t.input ≡ []
    → t.broken ≡ none
    → run sys (sock (1 ∷ []) ∷ events) t ≡ (record t { input = []; msg = [] }, err length_missing)
unfolding run handle_event sock_loop read_from_socket handle_type handle_socket_data
    non_blocking_recv read_type from_le
run-split sys events t e b = ground (arith, e, b)
