-- ===== src/Manager/Process/Stopping.antt =====
-- How a process is stopped (oathgate/src/process.rs, `stop`).
use oathgate.Common.{
  ℕ, zero, suc, ◌+◌, ◌≤◌, ◌<◌, ◌≡◌, ◌≢◌, refl, ap, ◌∙◌, arith, List, [], ◌∷◌, ◌++◌, take, subst,
  ℕ_discrete, Option, none, some, Outcome, ok, err, panic,
}
use oathgate.Manager.Process.{
  ProcessState, running, permission_denied, dead, stopped, Signal, sigterm, sigkill, Error,
  permission, no_response, System, esrch, check, signal_of, signalled, stop_round, Stop, stop_from,
  stop,
}

-- The signals in the order they are sent: three requests, and then no choice.
abbrev pub escalation : List Signal
escalation = sigterm ∷ sigterm ∷ sigterm ∷ sigkill ∷ []

-- What stopping comes to: the first signals of the order, an end of the loop before its rounds are
-- used up, and success only when a check found no such process.
pub record IsStop (sys : System) (r : Stop) : Type 0 where
  pub sent : ℕ
  pub at_most : sent ≤ 4
  pub in_order : r.0 ≡ take sent escalation
  pub no_panic : r.1 ≢ panic
  pub found_dead : r.1 ≡ ok tt → (i : ℕ) × (i ≤ 4) × (sys.probe i ≡ some esrch)

-- The next signal of the order.
next_signal : (i : ℕ) → i < 4 → take i escalation ++ signal_of i ∷ [] ≡ take (suc i) escalation
unfolding signal_of
next_signal zero h = refl
next_signal (suc zero) h = refl
next_signal (suc (suc zero)) h = refl
next_signal (suc (suc (suc zero))) h = refl
next_signal (suc (suc (suc (suc i)))) h = absurd (omega arith)

check-dead : (pid p : ℕ) (o : Option ℕ) → check pid o ≡ ok (dead p) → o ≡ some esrch
unfolding check
check-dead pid p o e = ground (arith, e)

check-stopped : (pid : ℕ) (o : Option ℕ) → check pid o ≢ ok stopped
unfolding check
check-stopped pid o e = ground (arith, e)

check-panic : (pid : ℕ) (o : Option ℕ) → check pid o ≢ panic
unfolding check
check-panic pid o e = ground (arith, e)

module _ (sys : System) (pid : ℕ) where
  -- A loop that ends without success at the given number of signals.
  failed-IsStop :
      (i : ℕ) (sent : List Signal) (e : Error)
      → i ≤ 4
      → sent ≡ take i escalation
      → IsStop sys (sent, err e)
  failed-IsStop i sent e h order = record {
    sent = i;
    at_most = h;
    in_order = order;
    no_panic = λ x. absurd (ground (arith, x));
    found_dead = λ x. absurd (ground (arith, x));
  }

  signalled-IsStop :
      (again : List Signal → Stop) (i : ℕ) (o : Option ℕ) (sent : List Signal)
      → i < 4
      → sent ≡ take i escalation
      → ((sent' : List Signal) → sent' ≡ take (suc i) escalation → IsStop sys (again sent'))
      → IsStop sys (signalled again (signal_of i) o sent)
  unfolding signalled
  signalled-IsStop again i none sent h order ih =
      ih (sent ++ signal_of i ∷ []) (ap (λ xs. xs ++ signal_of i ∷ []) order ∙ next_signal i h)
  signalled-IsStop again i (some e) sent h order ih = failed-IsStop i sent _ (omega arith) order

  stop_round-IsStop :
      (again : List Signal → Stop) (i : ℕ) (sent : List Signal) (r : Outcome Error ProcessState)
      → i ≤ 4
      → sent ≡ take i escalation
      → check pid (sys.probe i) ≡ r
      → (i < 4 → (sent' : List Signal) → sent' ≡ take (suc i) escalation → IsStop sys (again sent'))
      → IsStop sys (stop_round sys again i sent r)
  unfolding stop_round
  stop_round-IsStop again i sent (ok (running p)) h order e ih = elim (ℕ_discrete i 4) [
    | yes last ↦ subst (IsStop sys) (ground arith) (failed-IsStop i sent no_response h order)
    | no before ↦ subst (IsStop sys) (ground arith) (
        signalled-IsStop again i (sys.kill i (signal_of i)) sent (omega arith) order
          (ih (omega arith)))
  ]
  stop_round-IsStop again i sent (ok (permission_denied p)) h order e ih =
      failed-IsStop i sent permission h order
  stop_round-IsStop again i sent (ok (dead p)) h order e ih = record {
    sent = i;
    at_most = h;
    in_order = order;
    no_panic = λ x. absurd (ground (arith, x));
    found_dead = λ x. (i, h, check-dead pid p (sys.probe i) e);
  }
  stop_round-IsStop again i sent (ok stopped) h order e ih =
      absurd (check-stopped pid (sys.probe i) e)
  stop_round-IsStop again i sent (err x) h order e ih = failed-IsStop i sent x h order
  stop_round-IsStop again i sent panic h order e ih = absurd (check-panic pid (sys.probe i) e)

  stop_from-IsStop :
      (rounds i : ℕ) (sent : List Signal)
      → i + rounds ≡ 5
      → i ≤ 4
      → sent ≡ take i escalation
      → IsStop sys (stop_from sys pid rounds i sent)
  unfolding stop_from
  stop_from-IsStop zero i sent five h order = absurd (omega arith)
  stop_from-IsStop (suc rounds) i sent five h order =
      stop_round-IsStop (stop_from sys pid rounds (suc i)) i sent (check pid (sys.probe i)) h order
        refl
        (λ before sent' order'.
          stop_from-IsStop rounds (suc i) sent' (omega (arith, five)) before order')

  -- Stopping a process ends within five checks: it sends at most three requests to terminate and then
  -- one signal that cannot be refused, in this order, and it succeeds only if a check found that
  -- there is no such process.
  pub stop-IsStop : IsStop sys (stop sys pid)
  unfolding stop
  stop-IsStop = stop_from-IsStop 5 0 [] refl (omega arith) refl
