-- ===== src/Terminal/Tests.antt =====
-- The theorems about terminals at concrete messages.
use oathgate.Common.{◌≡◌, refl, arith, List, [], ◌∷◌, ◌++◌, none, ok}
use oathgate.Terminal.Client.{
  Message, write, resize, send_all, write_pty, bytes, read_pty, read_pty-closed,
}
use oathgate.Terminal.Agent.{sock_loop, System, SockTty, sock, written, handle_event}
use oathgate.Terminal.Messages.{sock_loop-write_pty}
use oathgate.Terminal.Session.{input, size, finished, handle_event-send_all}
use oathgate.Terminal.Attach.{key, char, empty, shift, ui_loop}
use oathgate.Terminal.Attach
use oathgate.Terminal.Attach.Keys.{
  sends, ascii_message, buffer, ui_loop_shifted, handle_event_typed,
}

abbrev granting : System
granting = record { tty_write = λ bs. none; set_size = λ rows cols. none; sock_send = λ bs. none }

abbrev fresh : SockTty
fresh = record { input = []; broken = none; msg = []; out = [] }

abbrev messages : List Message
messages = write (108 ∷ 115 ∷ []) ∷ resize 24 80 ∷ write (13 ∷ []) ∷ []

handle_event-send_all_example :
    handle_event granting (sock (send_all messages)) fresh ≡ (finished messages fresh, ok tt)
handle_event-send_all_example =
    handle_event-send_all granting messages fresh
      (
        input (108 ∷ 115 ∷ []) (omega arith) (omega arith) refl,
        (
          size 24 80 (omega arith) (omega arith) (omega arith) (omega arith) refl,
          (input (13 ∷ []) (omega arith) (omega arith) refl, tt),
        ),
      )
      refl refl

abbrev pasted : SockTty
pasted = record {
  input = write_pty (108 ∷ 115 ∷ []) ++ 9 ∷ [];
  broken = none;
  msg = 5 ∷ [];
  out = [];
}

sock_loop-write_pty_example :
    sock_loop granting 9 pasted
    ≡ sock_loop granting 8 (record pasted {
      input = 9 ∷ [];
      msg = 108 ∷ 115 ∷ [];
      out = written (108 ∷ 115 ∷ []) ∷ [];
    })
sock_loop-write_pty_example =
    sock_loop-write_pty granting 8 (108 ∷ 115 ∷ []) (9 ∷ []) pasted (λ e. absurd (omega (arith, e)))
      refl

read_pty-closed_example : read_pty 7 0 (λ j. bytes []) (1 ∷ []) ≡ none
read_pty-closed_example = read_pty-closed 7 0 (1 ∷ [])

-- `a`, and then B
ui_loop_shifted_example :
    (ui_loop sends (key empty (char 97) ∷ key shift (char 66) ∷ []) (buffer 2 24 0 80 0 0 [])).1
    ≡ ascii_message 97 ∷ ascii_message 97 ∷ []
ui_loop_shifted_example = ui_loop_shifted 97 66 2 24 0 80 0 0 [] (omega arith) (omega arith)

handle_event_typed_example :
    ((Attach.handle_event sends (key empty (char 97)) (buffer 2 24 0 80 0 0 [])).1
      ≡ ascii_message 97 ∷ [])
    × (handle_event granting (sock (ascii_message 97)) fresh
        ≡ (record fresh { input = 97 ∷ []; out = written (0 ∷ []) ∷ [] }, ok tt))
handle_event_typed_example =
    handle_event_typed granting fresh 97 2 24 0 80 0 0 [] (omega arith) refl refl
