-- ===== src/Runner/Tests.antt =====
-- The theorems about the runner at concrete events.
use oathgate.Common.{◌≡◌, refl, List, [], ◌∷◌, ◌++◌, none, some, ok, err, false, ℕ_discrete}
use oathgate.Runner.Terminals.{Pty, default, get}
use oathgate.Runner.Hypervisor.{
  Event, token, hypervisor, registered, signal, go_on, start, poll_loop, run,
}
use oathgate.Runner.Hypervisor.Invariant.{IsRunning, run-IsRunning}
use oathgate.Runner.Hypervisor.Failure.{run_failed}

-- The agent connects twice, and the second connection can be read.
abbrev connects : List Event
connects = hypervisor (ok registered) ∷ hypervisor (ok registered) ∷ token 11 none ∷ []

abbrev shown : Pty
shown = record { sizes = (24, 80) ∷ []; written = [] }

run-IsRunning_example : IsRunning (poll_loop connects (start default)).0
run-IsRunning_example = run-IsRunning connects

went_on : (poll_loop connects (start default)).1 ≡ ok go_on
unfolding poll_loop start default ℕ_discrete
went_on = refl

second : get (poll_loop connects (start default)).0.terminals 11 ≡ some shown
unfolding poll_loop start default get ℕ_discrete
second = refl

run_failed_example :
    (run none none (connects ++ token 11 (some 104) ∷ signal (ok (some 15)) ∷ [])
      ≡ ((poll_loop connects (start default)).0, err 104))
    × ((poll_loop connects (start default)).0.signalled ≡ false)
run_failed_example =
    run_failed none none connects (signal (ok (some 15)) ∷ []) 11 104 shown went_on second
