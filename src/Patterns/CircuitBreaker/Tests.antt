-- ===== src/Patterns/CircuitBreaker/Tests.antt =====
-- The circuit breaker at concrete histories.
use agent_studio.Base.{ℕ, ◌≡◌, refl, Option, some, List, [], ◌∷◌, arith}
use agent_studio.Patterns.CircuitBreaker.{
  Breaker, Event, Entry, closed, admitted, default_config, init, enter, step, run,
}
use agent_studio.Patterns.CircuitBreaker.Invariant.{IsValid, run-IsValid, half_open_unlimited}
use agent_studio.Patterns.CircuitBreaker.Counting.{failures_at, successes}
use agent_studio.Patterns.CircuitBreaker.Window.{tripped, tripped_recovers}

abbrev fresh : Breaker
fresh = init default_config

abbrev outage : List Event
outage =
    Event.fails 10
    ∷ Event.fails 20
    ∷ Event.fails 30
    ∷ Event.fails 40
    ∷ Event.fails 50
    ∷ Event.enters 30050 30051
    ∷ Event.succeeds
    ∷ []

-- A call that was in flight when the breaker opened fails later, and pushes the window back.
late_failure :
    enter (run fresh (failures_at (1 ∷ 2 ∷ 3 ∷ 4 ∷ 5 ∷ 20000 ∷ []))) 30005 30005
    ≡ (Entry.refused 50000, run fresh (failures_at (1 ∷ 2 ∷ 3 ∷ 4 ∷ 5 ∷ 20000 ∷ [])))
unfolding run enter init
late_failure = refl

run-IsValid_example : IsValid (run fresh outage)
run-IsValid_example = run-IsValid default_config outage (omega arith)

half_open_unlimited_example : enter (run fresh outage) 30060 30061 ≡ (admitted, run fresh outage)
unfolding run init enter
half_open_unlimited_example =
    half_open_unlimited default_config outage 30060 30061 (omega arith) (omega arith) refl

abbrev three : Option ℕ
three = some 3

abbrev trial : Breaker
trial = step (run fresh (failures_at (1 ∷ 2 ∷ 3 ∷ 4 ∷ 5 ∷ []))) (Event.enters 40000 40000)

tripped_recovers_example :
    (run
      (step (tripped fresh (1 ∷ 2 ∷ 3 ∷ 4 ∷ []) 5) (Event.enters 30005 30006))
      (successes 2)).state
    ≡ closed
unfolding init
tripped_recovers_example =
    (tripped_recovers fresh (1 ∷ 2 ∷ 3 ∷ 4 ∷ []) 5 30005 30006 refl (omega arith) (omega arith)
      (omega arith) (omega arith)).1
