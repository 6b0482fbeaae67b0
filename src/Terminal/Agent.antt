-- ===== src/Terminal/Agent.antt =====
-- oathgate-fabrial/src/tty.rs: a terminal in the guest over a socket. What has arrived on the socket is
-- a list of bytes; `recv` takes from it, and gives nothing when it is empty, whether more may come or
-- the peer has closed. What the terminal and the socket are given is kept in a list. Starting the
-- child process is not modelled.
use oathgate.Common.{
  ℕ, zero, suc, ◌-◌, min, ◌||◌, List, [], ◌∷◌, ◌++◌, length, take, drop, replicate, ◌==◌,
  if◌then◌else◌, Option, none, some, Outcome, ok, err, panic,
}
use oathgate.Common.Bytes.{from_le}

pub data Error : Type 0 where
  errno : ℕ → Error
  length_missing : Error
  invalid_resize : Error

-- What the agent does: a write to the terminal, a new size, bytes sent to the runner.
pub data Output : Type 0 where
  written : List ℕ → Output
  resized : ℕ → ℕ → Output
  sent : List ℕ → Output

pub data SocketAction : Type 0 where
  write_to_tty would_block continue : SocketAction

abbrev pub buffer_size : ℕ
buffer_size = 2048

-- The system calls on the terminal and the socket: an error number, or none.
pub record System : Type 0 where
  pub tty_write : List ℕ → Option ℕ
  pub set_size : ℕ → ℕ → Option ℕ
  pub sock_send : List ℕ → Option ℕ

pub record SockTty : Type 0 where
  pub input : List ℕ
  pub broken : Option ℕ
  pub msg : List ℕ
  pub out : List Output

abbrev pub Step : Type 0 → Type 0
Step A = SockTty → SockTty × Outcome Error A

abbrev pub proceed :
    {A B : Type 0} → SockTty × Outcome Error A → (A → Step B) → SockTty × Outcome Error B
proceed (t, ok a) f = f a t
proceed (t, err e) f = (t, err e)
proceed (t, panic) f = (t, panic)

infixl 5 ◌>>=◌ ◌>>◌
abbrev pub ◌>>=◌ : {A B : Type 0} → Step A → (A → Step B) → Step B
◌>>=◌ m f t = proceed (m t) f

abbrev pub ◌>>◌ : {B : Type 0} → Step (Unit {0}) → Step B → Step B
m >> k = m >>= λ _. k

abbrev pub lift : {A : Type 0} → Outcome Error A → Step A
lift r t = (t, r)

-- A call that gives an error number, and what is noted if it does not.
unfoldable pub call : Option ℕ → Output → Step (Unit {0})
call none o t = (record t { out = t.out ++ o ∷ [] }, ok tt)
call (some e) o t = (t, err (errno e))

-- `non_blocking_recv!` into a buffer of `n` bytes.
unfoldable pub non_blocking_recv : ℕ → Step (List ℕ)
non_blocking_recv n t = elim t.input [
  | [] ↦ (t, elim t.broken [ none ↦ ok [] | some e ↦ err (errno e) ])
  | b ∷ bs ↦ (record t { input = drop n (b ∷ bs) }, ok (take n (b ∷ bs)))
]

-- A buffer of `n` zeros over which the bytes were written.
abbrev pub fill : ℕ → List ℕ → List ℕ
fill n bytes = take n (bytes ++ replicate n 0)

unfoldable pub add_msg : List ℕ → Step (Unit {0})
add_msg bytes t = (record t { msg = t.msg ++ bytes }, ok tt)

-- What was received is kept, and the rest of the loop follows; nothing received ends it.
unfoldable pub read_more : Step (Unit {0}) → List ℕ → Step (Unit {0})
unfolding add_msg
read_more rest [] = lift (ok tt)
read_more rest (b ∷ bs) = add_msg (b ∷ bs) >> rest

-- The loop that reads the data of a message, by the number of rounds.
unfoldable pub read_loop : ℕ → ℕ → Step (Unit {0})
unfolding non_blocking_recv read_more
read_loop zero len = lift panic
read_loop (suc rounds) zero = lift (ok tt)
read_loop (suc rounds) (suc len) = non_blocking_recv (min (suc len) buffer_size) >>= λ got.
    let rest = read_loop rounds (suc len - length got) in read_more rest got

unfoldable pub handle_socket_data : Step (Unit {0})
unfolding non_blocking_recv read_loop from_le
handle_socket_data = non_blocking_recv 2 >>= λ got.
    let len = from_le (fill 2 got) in
    let rest = read_loop (suc len) len in if len == 0 then lift (err length_missing) else rest

unfoldable pub resize_to : System → ℕ → ℕ → Step (Unit {0})
unfolding call
resize_to sys rows cols =
    if rows == 0 || cols == 0
    then lift (err invalid_resize)
    else call (sys.set_size rows cols) (resized rows cols)

unfoldable pub handle_tty_resize : System → Step (Unit {0})
unfolding non_blocking_recv resize_to from_le
handle_tty_resize sys = non_blocking_recv 4 >>= λ got.
    let buf = fill 4 got in resize_to sys (from_le (take 2 buf)) (from_le (drop 2 buf))

-- `match msg_type[0]`
unfoldable pub handle_type : System → ℕ → Step SocketAction
unfolding handle_socket_data handle_tty_resize
handle_type sys ty =
    if ty == 0
    then lift (ok would_block)
    else if ty == 1
    then handle_socket_data >> lift (ok write_to_tty)
    else if ty == 2
    then handle_tty_resize sys >> lift (ok continue)
    else lift (ok continue)

unfoldable pub read_type : List ℕ → ℕ
read_type [] = 0
read_type (b ∷ bs) = b

unfoldable pub read_from_socket : System → Step SocketAction
unfolding non_blocking_recv handle_type read_type
read_from_socket sys t =
    (non_blocking_recv 1 >>= λ got. handle_type sys (read_type got)) (record t { msg = [] })

unfoldable pub write_to_tty_fd : System → Step (Unit {0})
unfolding call
write_to_tty_fd sys t = call (sys.tty_write t.msg) (written t.msg) t

-- What an action is followed by; `again` is the rest of the loop.
unfoldable pub act : System → Step (Unit {0}) → SocketAction → Step (Unit {0})
unfolding write_to_tty_fd
act sys again would_block = lift (ok tt)
act sys again continue = again
act sys again write_to_tty = write_to_tty_fd sys >> again

-- The loop over the messages that have arrived, by the number of rounds.
unfoldable pub sock_loop : System → ℕ → Step (Unit {0})
unfolding read_from_socket act
sock_loop sys zero = lift panic
sock_loop sys (suc rounds) = read_from_socket sys >>= act sys (sock_loop sys rounds)

-- What the terminal shows is sent on, as much as one read gives.
unfoldable pub tty_to_socket : System → Outcome ℕ (List ℕ) → Step (Unit {0})
unfolding call
tty_to_socket sys (ok bytes) t =
    call (sys.sock_send (take buffer_size bytes)) (sent (take buffer_size bytes))
      (record t { msg = take buffer_size bytes })
tty_to_socket sys (err e) t = (record t { msg = [] }, err (errno e))
tty_to_socket sys panic t = (t, panic)

-- Bytes arrive on the socket, or the terminal can be read.
pub data Event : Type 0 where
  sock : List ℕ → Event
  tty : Outcome ℕ (List ℕ) → Event

unfoldable pub handle_event : System → Event → Step (Unit {0})
unfolding sock_loop tty_to_socket
handle_event sys (sock bytes) t =
    let input = t.input ++ bytes in sock_loop sys (suc (length input)) (record t { input = input })
handle_event sys (tty got) t = tty_to_socket sys got t

-- The thread over a sequence of events: an error ends it.
unfoldable pub run : System → List Event → Step (Unit {0})
unfolding handle_event
run sys [] = lift (ok tt)
run sys (event ∷ events) = handle_event sys event >> run sys events
