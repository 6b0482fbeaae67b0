-- ===== src/Terminal/Messages.antt =====
-- What the agent makes of one message of the runner (oathgate-fabrial/src/tty.rs,
-- `read_from_socket`, with oathgate-runner/src/pty/fabrial.rs, `write_pty` and `resize_pty`).
use mathlib.Core.List.{append_assoc, append-nil}
use oathgate.Common.{
  ℕ, zero, suc, ◌+◌, ◌-◌, ◌/◌, ◌%◌, ◌^◌, ◌≤◌, ◌<◌, ◌≡◌, ◌≢◌, refl, sym, ap, ◌∙◌, arith, min, List,
  [], ◌∷◌, ◌++◌, length, take, drop, length-take, length-drop, drop-drop, take-append-take,
  length-append, take-append, drop-append, none, some, ok, err,
}
use oathgate.Common.Bytes.{from_le, to_le}
use oathgate.Terminal.Client.{write_pty, resize_pty}
use oathgate.Terminal.Agent.{
  length_missing, resized, write_to_tty, continue, buffer_size, System, SockTty, Step, proceed,
  call, non_blocking_recv, fill, add_msg, read_more, read_loop, handle_socket_data, resize_to,
  handle_tty_resize, handle_type, read_type, read_from_socket, write_to_tty_fd, act, sock_loop,
  written, errno,
}

-- The terminal after so many bytes of input became part of the message.
abbrev pub moved : ℕ → SockTty → SockTty
moved n t = record t { input = drop n t.input; msg = t.msg ++ take n t.input }

moved_twice : (k m : ℕ) (t : SockTty) → moved m (moved k t) ≡ moved (k + m) t
moved_twice k m t = λ i. record t {
  input = drop-drop m k t.input i;
  msg =
      (append_assoc t.msg (take k t.input) (take m (drop k t.input))
          ∙ ap (λ xs. t.msg ++ xs) (take-append-take k m t.input))
        i;
}

-- One round takes as much as the buffer holds.
read_round_at :
    (rest : ℕ → Step (Unit {0})) (len k : ℕ) (input : List ℕ) (t : SockTty)
    → 0 < k
    → k ≤ length input
    → proceed
        (non_blocking_recv k (record t { input = input }))
        (λ got. read_more (rest (len - length got)) got)
      ≡ rest (len - k) (moved k (record t { input = input }))
unfolding non_blocking_recv read_more add_msg
read_round_at rest len zero input t h le = absurd (omega arith)
read_round_at rest len (suc k) [] t h le = absurd (omega arith)
read_round_at rest len (suc k) (b ∷ bs) t h le =
    let e : length (b ∷ take k bs) ≡ suc k = omega (arith, length-take k bs) in
    ap (λ n. rest (len - n) (moved (suc k) (record t { input = b ∷ bs }))) e

-- The loop reads exactly the data of the message, if it has arrived, and ends within as many rounds
-- as there are bytes and one.
read_loop_lem :
    (rounds len : ℕ) (t : SockTty)
    → len < rounds
    → len ≤ length t.input
    → read_loop rounds len t ≡ (moved len t, ok tt)
unfolding read_loop
read_loop_lem zero len t h le = absurd (omega arith)
read_loop_lem (suc rounds) zero t h le =
    ap (λ xs. (record t { msg = xs }, ok tt)) (sym (append-nil t.msg))
read_loop_lem (suc rounds) (suc len) t h le =
    let k = min (suc len) buffer_size in
    let e : k + (suc len - k) ≡ suc len = omega arith in
    read_round_at (read_loop rounds) (suc len) k t.input t (omega arith) (omega arith)
    ∙ read_loop_lem rounds (suc len - k) (moved k t) (omega arith)
        (omega (arith, length-drop k t.input))
    ∙ ap (λ u. (u, ok tt)) (moved_twice k (suc len - k) t ∙ ap (λ n. moved n t) e)

-- The number that the two bytes of the length make.
length_bytes : (n : ℕ) → from_le (fill 2 (n % 256 ∷ n / 256 % 256 ∷ [])) ≡ n % 2 ^ 16
unfolding from_le
length_bytes n = omega arith

handle_socket_data_lem :
    (n : ℕ) (rest : List ℕ) (t : SockTty)
    → n % 2 ^ 16 ≢ 0
    → n % 2 ^ 16 ≤ length rest
    → t.input ≡ n % 256 ∷ n / 256 % 256 ∷ rest
    → handle_socket_data t ≡ (moved (n % 2 ^ 16) (record t { input = rest }), ok tt)
unfolding handle_socket_data non_blocking_recv
handle_socket_data_lem n rest t ne le e = ground (
  arith,
  e,
  length_bytes n,
  read_loop_lem (suc (n % 2 ^ 16)) (n % 2 ^ 16) (record t { input = rest }) (omega arith) le,
)

handle_socket_data-missing :
    (n : ℕ) (rest : List ℕ) (t : SockTty)
    → n % 2 ^ 16 ≡ 0
    → t.input ≡ n % 256 ∷ n / 256 % 256 ∷ rest
    → handle_socket_data t ≡ (record t { input = rest }, err length_missing)
unfolding handle_socket_data non_blocking_recv
handle_socket_data-missing n rest t z e = ground (arith, e, length_bytes n)

-- What is read of the runner's message of so much input.
read_from_socket-write_pty :
    (sys : System) (body more : List ℕ) (t : SockTty)
    → length body % 2 ^ 16 ≢ 0
    → t.input ≡ write_pty body ++ more
    → read_from_socket sys t ≡ (
      record t {
        input = drop (length body % 2 ^ 16) (body ++ more);
        msg = take (length body % 2 ^ 16) (body ++ more);
      },
      ok write_to_tty,
    )
unfolding read_from_socket handle_type non_blocking_recv read_type write_pty
read_from_socket-write_pty sys body more t ne e = ground (
  arith,
  e,
  handle_socket_data_lem (length body) (body ++ more)
      (record t { input = length body % 256 ∷ length body / 256 % 256 ∷ body ++ more; msg = [] }) ne
      (omega (arith, length-append {0} body more)) refl,
)

-- The runner's message of so much input leads the agent to write once to the terminal, as many of the
-- bytes that follow as the length says that was sent, which is the number of bytes modulo 2 ^ 16, and
-- then to go on with what follows in the socket; if the terminal refuses the bytes, its error ends
-- the loop with nothing written. This for a length that is not zero modulo 2 ^ 16.
pub sock_loop-write_pty :
    (sys : System) (rounds : ℕ) (body more : List ℕ) (t : SockTty)
    → length body % 2 ^ 16 ≢ 0
    → t.input ≡ write_pty body ++ more
    → let bytes : List ℕ = take (length body % 2 ^ 16) (body ++ more) in
      let t' : SockTty = record t {
        input = drop (length body % 2 ^ 16) (body ++ more);
        msg = bytes;
      } in
      sock_loop sys (suc rounds) t ≡ elim (sys.tty_write bytes) [
        | none ↦ sock_loop sys rounds (record t' { out = t.out ++ written bytes ∷ [] })
        | some e ↦ (t', err (errno e))
      ]
unfolding sock_loop act write_to_tty_fd call
sock_loop-write_pty sys rounds body more t ne e =
    rw (read_from_socket-write_pty sys body more t ne e) (ground arith)

-- Input of no bytes, or of a multiple of 2 ^ 16 bytes, is an error.
read_from_socket-missing :
    (sys : System) (body more : List ℕ) (t : SockTty)
    → length body % 2 ^ 16 ≡ 0
    → t.input ≡ write_pty body ++ more
    → read_from_socket sys t ≡ (record t { input = body ++ more; msg = [] }, err length_missing)
unfolding read_from_socket handle_type non_blocking_recv read_type write_pty
read_from_socket-missing sys body more t z e = ground (
  arith,
  e,
  handle_socket_data-missing (length body) (body ++ more)
      (record t { input = length body % 256 ∷ length body / 256 % 256 ∷ body ++ more; msg = [] }) z
      refl,
)

-- Two bytes make the number that was written as two bytes.
two_bytes : (n : ℕ) → n < 2 ^ 16 → from_le (n % 256 ∷ n / 256 % 256 ∷ []) ≡ n
unfolding from_le
two_bytes n h = omega arith

-- The runner's message of a new size sets the size, if neither number is zero, both have 16 bits and
-- the system call succeeds; what follows stays in the socket.
pub read_from_socket-resize_pty :
    (sys : System) (rows cols : ℕ) (more : List ℕ) (t : SockTty)
    → 0 < rows
    → rows < 2 ^ 16
    → 0 < cols
    → cols < 2 ^ 16
    → sys.set_size rows cols ≡ none
    → t.input ≡ resize_pty rows cols ++ more
    → read_from_socket sys t
      ≡ (record t { input = more; msg = []; out = t.out ++ resized rows cols ∷ [] }, ok continue)
unfolding read_from_socket handle_type non_blocking_recv read_type resize_pty to_le
    handle_tty_resize resize_to call
read_from_socket-resize_pty sys rows cols more t pr hr pc hc set e =
    ground (arith, e, two_bytes rows hr, two_bytes cols hc, set)

-- Input of fewer than 2 ^ 16 bytes, and of some, is written to the terminal as it is.
pub read_from_socket_whole :
    (sys : System) (body more : List ℕ) (t : SockTty)
    → 0 < length body
    → length body < 2 ^ 16
    → t.input ≡ write_pty body ++ more
    → read_from_socket sys t ≡ (record t { input = more; msg = body }, ok write_to_tty)
read_from_socket_whole sys body more t h lt e =
    let small : length body % 2 ^ 16 ≡ length body = omega arith in
    read_from_socket-write_pty sys body more t (λ z. absurd (omega (arith, z))) e
    ∙ ap
        (λ n. (
          record t { input = drop n (body ++ more); msg = take n (body ++ more) },
          ok write_to_tty,
        ))
        small
    ∙ (λ i. (
      record t { input = drop-append body more i; msg = take-append body more i },
      ok write_to_tty,
    ))
