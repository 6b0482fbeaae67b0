-- ===== src/Terminal/Attach.antt =====
-- oathgate/src/cmd/shard/fabrial.rs: the terminal of the command line that is attached to the agent in
-- a guest. The keys and the answers of the system are parameters; opening the socket, the thread and
-- the raw mode of the terminal are not modelled.
pub mod Keys
use oathgate.Common.{
  ℕ, ◌+◌, ◌/◌, ◌%◌, ltb, List, [], ◌∷◌, ◌++◌, length, take, drop, ◌==◌, if◌then◌else◌, Option, none,
  some, Outcome, ok, err, panic, ◌>>=◌,
}
use oathgate.Common.Bytes.{to_le}

-- A character is its number.
pub data KeyCode : Type 0 where
  char f : ℕ → KeyCode
  backspace tab enter up down right left other : KeyCode

pub data KeyModifiers : Type 0 where
  empty control shift other : KeyModifiers

pub data Event : Type 0 where
  key : KeyModifiers → KeyCode → Event
  resize : (cols rows : ℕ) → Event
  other : Event

-- `char::encode_utf8`
unfoldable pub encode_utf8 : ℕ → List ℕ
encode_utf8 c =
    if ltb c 128
    then c ∷ []
    else if ltb c 2048
    then (192 + c / 64) ∷ (128 + c % 64) ∷ []
    else if ltb c 65536
    then (224 + c / 4096) ∷ (128 + c / 64 % 64) ∷ (128 + c % 64) ∷ []
    else (240 + c / 262144) ∷ (128 + c / 4096 % 64) ∷ (128 + c / 64 % 64) ∷ (128 + c % 64) ∷ []

-- What is written over a buffer at an offset.
unfoldable pub put : ℕ → List ℕ → List ℕ → List ℕ
put at xs bytes = take at bytes ++ xs ++ drop (at + length xs) bytes

-- The escape sequence of a function key.
unfoldable pub encode_f : ℕ → List ℕ
encode_f n =
    if n == 1
    then 27 ∷ 79 ∷ 80 ∷ []
    else if n == 2
    then 27 ∷ 79 ∷ 81 ∷ []
    else if n == 3
    then 27 ∷ 79 ∷ 82 ∷ []
    else if n == 4
    then 27 ∷ 79 ∷ 83 ∷ []
    else if n == 5
    then 27 ∷ 91 ∷ 49 ∷ 53 ∷ 126 ∷ []
    else if n == 6
    then 27 ∷ 91 ∷ 49 ∷ 55 ∷ 126 ∷ []
    else if n == 7
    then 27 ∷ 91 ∷ 49 ∷ 56 ∷ 126 ∷ []
    else if n == 8
    then 27 ∷ 91 ∷ 49 ∷ 57 ∷ 126 ∷ []
    else if n == 9
    then 27 ∷ 91 ∷ 50 ∷ 48 ∷ 126 ∷ []
    else if n == 10
    then 27 ∷ 91 ∷ 50 ∷ 49 ∷ 126 ∷ []
    else if n == 11
    then 27 ∷ 91 ∷ 50 ∷ 51 ∷ 126 ∷ []
    else if n == 12
    then 27 ∷ 91 ∷ 50 ∷ 52 ∷ 126 ∷ []
    else []

unfoldable pub encode_empty : KeyCode → List ℕ
unfolding encode_utf8 encode_f
encode_empty (char c) = encode_utf8 c
encode_empty (f n) = encode_f n
encode_empty backspace = 8 ∷ []
encode_empty tab = 9 ∷ []
encode_empty enter = 10 ∷ []
encode_empty up = 27 ∷ 79 ∷ 65 ∷ []
encode_empty down = 27 ∷ 79 ∷ 66 ∷ []
encode_empty right = 27 ∷ 79 ∷ 67 ∷ []
encode_empty left = 27 ∷ 79 ∷ 68 ∷ []
encode_empty KeyCode.other = []

-- The letters c, d, r, u and z.
unfoldable pub encode_ctrl : KeyCode → List ℕ
encode_ctrl (char c) =
    if c == 99
    then 3 ∷ []
    else if c == 100
    then 4 ∷ []
    else if c == 114
    then 18 ∷ []
    else if c == 117
    then 21 ∷ []
    else if c == 122
    then 26 ∷ []
    else []
encode_ctrl _ = []

unfoldable pub encode_shift : KeyCode → List ℕ
unfolding encode_utf8
encode_shift (char c) = encode_utf8 c
encode_shift _ = []

-- The buffer and the size; a shifted character is written at 3, and all else at 5.
unfoldable pub encode_key : KeyModifiers → KeyCode → List ℕ → List ℕ × ℕ
unfolding put encode_empty encode_ctrl encode_shift
encode_key empty code bytes = (put 5 (encode_empty code) bytes, length (encode_empty code))
encode_key control code bytes = (put 5 (encode_ctrl code) bytes, length (encode_ctrl code))
encode_key shift code bytes = (put 3 (encode_shift code) bytes, length (encode_shift code))
encode_key KeyModifiers.other code bytes = (bytes, 0)

-- The bytes 0, 1, 2 and 4 of the size, behind the type of the message.
unfoldable pub header : ℕ → List ℕ
unfolding to_le
header sz = 1 ∷ take 3 (to_le 8 sz) ++ take 1 (drop 4 (to_le 8 sz))

-- The buffer that is left, and what was sent before an error, if there is one.
abbrev pub Sent : Type 0
Sent = List ℕ × List (List ℕ) × Option ℕ

unfoldable pub send : (List ℕ → Option ℕ) → List ℕ → List ℕ → Sent
send answer message bytes = elim (answer message) [
  | none ↦ (bytes, message ∷ [], none)
  | some e ↦ (bytes, [], some e)
]

unfoldable pub resize_pty : (List ℕ → Option ℕ) → (rows cols : ℕ) → List ℕ → Sent
unfolding put send to_le
resize_pty answer rows cols bytes =
    let filled = put 0 (2 ∷ to_le 2 rows ++ to_le 2 cols) bytes in
    send answer (take 5 filled) filled

-- A key whose code has a size is sent.
unfoldable pub send_key : (List ℕ → Option ℕ) → List ℕ × ℕ → Sent
unfolding put header send
send_key answer (bytes, sz) =
    let filled = put 0 (header sz) bytes in
    if sz == 0 then (bytes, [], none) else send answer (take (sz + 5) filled) filled

unfoldable pub handle_event : (List ℕ → Option ℕ) → Event → List ℕ → Sent
unfolding encode_key send_key resize_pty
handle_event answer (key modifiers code) bytes = send_key answer (encode_key modifiers code bytes)
handle_event answer (resize cols rows) bytes = resize_pty answer rows cols bytes
handle_event answer Event.other bytes = (bytes, [], none)

-- What follows an event unless it failed.
unfoldable pub after : (List ℕ → Sent) → Sent → Sent
after rest (bytes, sent, some e) = (bytes, sent, some e)
after rest (bytes, sent, none) = let (bytes', more, e) = rest bytes in (bytes', sent ++ more, e)

-- The loop over the events that come.
unfoldable pub ui_loop : (List ℕ → Option ℕ) → List Event → List ℕ → Sent
unfolding handle_event after
ui_loop answer [] bytes = (bytes, [], none)
ui_loop answer (e ∷ es) bytes = after (ui_loop answer es) (handle_event answer e bytes)

-- An error of the first size is ignored.
unfoldable pub forgive : Sent → Sent
forgive (bytes, sent, e) = (bytes, sent, none)

-- `size` is that of the terminal, columns first, if it is known.
unfoldable pub run_ui : (List ℕ → Option ℕ) → Option (ℕ × ℕ) → List Event → Sent
unfolding ui_loop after forgive resize_pty
run_ui answer none es = ui_loop answer es (0 ∷ 0 ∷ 0 ∷ 0 ∷ 0 ∷ 0 ∷ 0 ∷ 0 ∷ 0 ∷ 0 ∷ [])
run_ui answer (some (cols, rows)) es =
    after (ui_loop answer es)
      (forgive (resize_pty answer rows cols (0 ∷ 0 ∷ 0 ∷ 0 ∷ 0 ∷ 0 ∷ 0 ∷ 0 ∷ 0 ∷ 0 ∷ [])))

-- An answer of `recv`.
pub data Received : Type 0 where
  got : List ℕ → Received
  would_block : Received
  errno : ℕ → Received

-- An event of the socket: readable, with the answers until one would block, or another one; or an
-- event with a token that is not known.
pub data Polled : Type 0 where
  readable : List Received → Polled
  closed unknown : Polled

-- Whether the outer loop goes on.
pub data Flow : Type 0 where
  go_on stop : Flow

-- What is printed, and how the loop goes on. An answer of no bytes closes the connection.
unfoldable pub read_socket : List Received → List ℕ × Outcome ℕ Flow
read_socket [] = ([], ok go_on)
read_socket (would_block ∷ rs) = ([], ok go_on)
read_socket (errno e ∷ rs) = ([], err e)
read_socket (got [] ∷ rs) = ([], ok stop)
read_socket (got (b ∷ bs) ∷ rs) = let (out, r) = read_socket rs in ((b ∷ bs) ++ out, r)

unfoldable pub handle_polled : Polled → List ℕ × Outcome ℕ Flow
unfolding read_socket
handle_polled (readable rs) = read_socket rs
handle_polled closed = ([], ok stop)
handle_polled unknown = ([], ok go_on)

unfoldable pub continue :
    (List ℕ × Outcome ℕ Flow) → List ℕ × Outcome ℕ Flow → List ℕ × Outcome ℕ Flow
continue rest (out, ok go_on) = (out ++ rest.0, rest.1)
continue rest (out, ok stop) = (out, ok stop)
continue rest (out, err e) = (out, err e)
continue rest (out, panic) = (out, panic)

-- The loop over the events of the socket, up to where it is shut down.
unfoldable pub run_socket : List Polled → List ℕ × Outcome ℕ Flow
unfolding handle_polled continue
run_socket [] = ([], ok go_on)
run_socket (p ∷ ps) = continue (run_socket ps) (handle_polled p)
