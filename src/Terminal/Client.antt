-- ===== src/Terminal/Client.antt =====
-- oathgate-runner/src/pty/fabrial.rs: the messages of the runner to a terminal in the guest, as the
-- bytes that are sent, and what is read back. The terminal emulator (crate vt100) is not modelled:
-- the bytes that it processes are.
use oathgate.Common.{
  ℕ, zero, suc, ◌/◌, ◌%◌, List, [], ◌∷◌, ◌++◌, length, Option, none, some, ◌≡◌, refl, Outcome, ok,
  err,
}
use oathgate.Common.Bytes.{to_le}

-- A user's input, or a new size in rows and columns.
pub data Message : Type 0 where
  write : List ℕ → Message
  resize : ℕ → ℕ → Message

-- The two low bytes of the length, which is a `usize`.
unfoldable pub write_pty : List ℕ → List ℕ
write_pty payload = 1 ∷ length payload % 256 ∷ length payload / 256 % 256 ∷ payload

unfoldable pub resize_pty : ℕ → ℕ → List ℕ
unfolding to_le
resize_pty rows cols = 2 ∷ to_le 2 rows ++ to_le 2 cols

unfoldable pub send : Message → List ℕ
unfolding write_pty resize_pty
send (write payload) = write_pty payload
send (resize rows cols) = resize_pty rows cols

unfoldable pub send_all : List Message → List ℕ
unfolding send
send_all [] = []
send_all (m ∷ ms) = send m ++ send_all ms

-- What a `recv` gives: bytes, none of them if the peer has closed the connection, or an error.
pub data Received : Type 0 where
  bytes : List ℕ → Received
  would_block : Received
  failed : ℕ → Received

-- The loop of `read_pty`: `recv` gives what the calls give, by their number; nothing is the result
-- if the rounds are used up.
unfoldable pub read_pty : ℕ → ℕ → (ℕ → Received) → List ℕ → Option (Outcome ℕ (List ℕ))
read_pty zero i recv processed = none
read_pty (suc rounds) i recv processed = elim (recv i) [
  | would_block ↦ some (ok processed)
  | failed e ↦ some (err e)
  | bytes more ↦ read_pty rounds (suc i) recv (processed ++ more)
]

-- Once the runner's peer has closed the connection, so that every call gives no bytes, the loop does
-- not end.
pub read_pty-closed :
    (rounds i : ℕ) (processed : List ℕ) → read_pty rounds i (λ j. bytes []) processed ≡ none
unfolding read_pty
read_pty-closed zero i processed = refl
read_pty-closed (suc rounds) i processed = read_pty-closed rounds (suc i) (processed ++ [])
