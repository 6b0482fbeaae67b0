-- ===== src/Manager/Process.antt =====
-- oathgate/src/process.rs: whether a process runs, and stopping it. What the system answers to the
-- signals is a parameter: an error number, or none.
pub mod Stopping
use oathgate.Common.{
  ℕ, zero, suc, Bool, true, false, List, [], ◌∷◌, ◌++◌, ◌==◌, if◌then◌else◌, Option, none, some,
  Outcome, ok, err, panic,
}

-- A process by its number.
pub data ProcessState : Type 0 where
  running permission_denied dead : ℕ → ProcessState
  stopped : ProcessState

pub data Signal : Type 0 where
  sigterm sigkill : Signal

pub data Error : Type 0 where
  errno : ℕ → Error
  permission no_response : Error

-- The answers to the checks, by the number of the check, and to the signals.
pub record System : Type 0 where
  pub probe : ℕ → Option ℕ
  pub kill : ℕ → Signal → Option ℕ

abbrev pub eperm : ℕ
eperm = 1

abbrev pub esrch : ℕ
esrch = 3

unfoldable pub check : ℕ → Option ℕ → Outcome Error ProcessState
check pid none = ok (running pid)
check pid (some e) =
    if e == esrch
    then ok (dead pid)
    else if e == eperm
    then ok (permission_denied pid)
    else err (errno e)

unfoldable pub optional : ProcessState → Option ℕ
optional (running pid) = some pid
optional (permission_denied pid) = some pid
optional (dead pid) = none
optional stopped = none

-- The signal of a round.
unfoldable pub signal_of : ℕ → Signal
signal_of i = if i == 3 then sigkill else sigterm

-- What is done: the signals sent so far, and the result.
abbrev pub Stop : Type 0
Stop = List Signal × Outcome Error (Unit {0})

-- A signal, and the rest of the loop if it was sent.
unfoldable pub signalled : (List Signal → Stop) → Signal → Option ℕ → List Signal → Stop
signalled again s none sent = again (sent ++ s ∷ [])
signalled again s (some e) sent = (sent, err (errno e))

-- A round by the state of the process; the fifth gives up.
unfoldable pub stop_round :
    System → (List Signal → Stop) → ℕ → List Signal → Outcome Error ProcessState → Stop
unfolding signalled signal_of
stop_round sys again i sent (ok (running pid)) =
    if i == 4
    then (sent, err no_response)
    else signalled again (signal_of i) (sys.kill i (signal_of i)) sent
stop_round sys again i sent (ok (permission_denied pid)) = (sent, err permission)
stop_round sys again i sent (ok (dead pid)) = (sent, ok tt)
stop_round sys again i sent (ok stopped) = (sent, ok tt)
stop_round sys again i sent (err e) = (sent, err e)
stop_round sys again i sent panic = (sent, panic)

-- The loop, by the number of rounds.
unfoldable pub stop_from : System → ℕ → ℕ → ℕ → List Signal → Stop
unfolding stop_round check
stop_from sys pid zero i sent = (sent, panic)
stop_from sys pid (suc rounds) i sent =
    stop_round sys (stop_from sys pid rounds (suc i)) i sent (check pid (sys.probe i))

unfoldable pub stop : System → ℕ → Stop
unfolding stop_from
stop sys pid = stop_from sys pid 5 0 []
