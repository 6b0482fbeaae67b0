-- ===== src/Terminal/Attach/Keys.antt =====
-- What the agent in the guest (oathgate-fabrial/src/tty.rs) makes of the keys that the attached
-- terminal sends (oathgate/src/cmd/shard/fabrial.rs).
use oathgate.Common.{
  ℕ, suc, ◌<◌, ◌≡◌, ap, ◌∙◌, arith, List, [], ◌∷◌, ◌++◌, length, Option, none, ok,
}
use oathgate.Common.Bytes.{from_le}
use oathgate.Terminal.Agent.{Output, written, System, SockTty}
use oathgate.Terminal.Agent
use oathgate.Terminal.Attach.{key, char, empty, shift, encode_utf8, handle_event, ui_loop, after}

abbrev pub sends : List ℕ → Option ℕ
sends message = none

-- The message for a character of one byte.
abbrev pub ascii_message : ℕ → List ℕ
ascii_message c = 1 ∷ 1 ∷ 0 ∷ 0 ∷ 0 ∷ c ∷ []

encode_utf8-ascii : (c : ℕ) → c < 128 → encode_utf8 c ≡ c ∷ []
unfolding encode_utf8
encode_utf8-ascii c h = ground (arith, h)

-- A buffer by its first bytes.
abbrev pub buffer : (b0 b1 b2 b3 b4 b5 : ℕ) → List ℕ → List ℕ
buffer b0 b1 b2 b3 b4 b5 rest = b0 ∷ b1 ∷ b2 ∷ b3 ∷ b4 ∷ b5 ∷ rest

handle_event-ascii :
    (c b0 b1 b2 b3 b4 b5 : ℕ) (rest : List ℕ)
    → c < 128
    → handle_event sends (key empty (char c)) (buffer b0 b1 b2 b3 b4 b5 rest)
      ≡ (buffer 1 1 0 0 0 c rest, ascii_message c ∷ [], none)
unfolding handle_event
handle_event-ascii c b0 b1 b2 b3 b4 b5 rest h = ground (arith, encode_utf8-ascii c h)

handle_event-shift :
    (c b0 b1 b2 b3 b4 b5 : ℕ) (rest : List ℕ)
    → c < 128
    → handle_event sends (key shift (char c)) (buffer b0 b1 b2 b3 b4 b5 rest)
      ≡ (buffer 1 1 0 0 0 b5 rest, ascii_message b5 ∷ [], none)
unfolding handle_event
handle_event-shift c b0 b1 b2 b3 b4 b5 rest h = ground (arith, encode_utf8-ascii c h)

-- When a shifted character of one byte follows a plain one, with all sent without an error, the
-- message of the plain character is sent twice, whatever the shifted one is.
pub ui_loop_shifted :
    (a c b0 b1 b2 b3 b4 b5 : ℕ) (rest : List ℕ)
    → a < 128
    → c < 128
    → (ui_loop sends
        (key empty (char a) ∷ key shift (char c) ∷ [])
        (buffer b0 b1 b2 b3 b4 b5 rest)).1
      ≡ ascii_message a ∷ ascii_message a ∷ []
unfolding ui_loop after
ui_loop_shifted a c b0 b1 b2 b3 b4 b5 rest ha hc = ground (
  arith,
  handle_event-ascii a b0 b1 b2 b3 b4 b5 rest ha,
  handle_event-shift c 1 1 0 0 0 a rest hc,
)

-- A character of one byte that is typed is sent as one message, of which an agent with nothing left
-- to read writes a zero byte to its terminal instead of the character, which is left on the socket.
-- This if writing to the terminal succeeds.
pub handle_event_typed :
    (sys : System) (t : SockTty) (c b0 b1 b2 b3 b4 b5 : ℕ) (rest : List ℕ)
    → c < 128
    → t.input ≡ []
    → sys.tty_write (0 ∷ []) ≡ none
    → ((handle_event sends (key empty (char c)) (buffer b0 b1 b2 b3 b4 b5 rest)).1
        ≡ ascii_message c ∷ [])
      × (Agent.handle_event sys (Agent.sock (ascii_message c)) t
          ≡ (record t { input = c ∷ []; msg = []; out = t.out ++ written (0 ∷ []) ∷ [] }, ok tt))
unfolding Agent.handle_event Agent.sock_loop Agent.act Agent.write_to_tty_fd Agent.call
    Agent.read_from_socket Agent.non_blocking_recv Agent.handle_type Agent.read_type
    Agent.handle_socket_data Agent.read_loop Agent.read_more Agent.add_msg from_le
handle_event_typed sys t c b0 b1 b2 b3 b4 b5 rest h e wrote = (
  ground (arith, handle_event-ascii c b0 b1 b2 b3 b4 b5 rest h),
  ap
        (λ input.
          let all = input ++ ascii_message c in
          Agent.sock_loop sys (suc (length all)) (record t { input = all }))
        e
      ∙ ground (arith, wrote),
)
