-- ===== src/Patterns/CircuitBreaker/Invariant.antt =====
-- What holds of a circuit breaker between two locked blocks, whatever the tasks do.
use agent_studio.Base.{ℕ, ◌<◌, ◌≡◌, refl, List, [], ◌∷◌, arith}
use agent_studio.Patterns.CircuitBreaker.{
  Breaker, Config, Event, admitted, closed, half_open, init, enter, record_success, record_failure,
  step, run,
}

pub record IsValid (b : Breaker) : Type 0 where
  pub closed_below : b.state ≡ closed → b.failure_count < b.config.failure_threshold
  pub trial_below : b.state ≡ half_open → b.success_count < b.config.consecutive_successes_to_close
  pub no_calls_counted : b.half_open_calls ≡ 0

-- A configuration whose thresholds are not 0.
pub record IsPositive (c : Config) : Type 0 where
  pub failures : 0 < c.failure_threshold
  pub successes : 0 < c.consecutive_successes_to_close

pub config-step : (b : Breaker) (e : Event) → (step b e).config ≡ b.config
unfolding step enter record_success record_failure
config-step b (Event.enters now later) = ground arith
config-step b Event.succeeds = ground arith
config-step b (Event.fails now) = ground arith

pub step-IsValid : (b : Breaker) (e : Event) → IsPositive b.config → IsValid b → IsValid (step b e)
unfolding step enter record_success record_failure
step-IsValid b (Event.enters now later) p v = ground arith
step-IsValid b Event.succeeds p v = ground arith
step-IsValid b (Event.fails now) p v = ground arith

run_from-IsValid :
    (b : Breaker) (es : List Event) → IsPositive b.config → IsValid b → IsValid (run b es)
unfolding run
run_from-IsValid b [] p v = v
run_from-IsValid b (e ∷ es) p v =
    run_from-IsValid (step b e) es (rw config-step p) (step-IsValid b e p v)

init-IsValid : (c : Config) → IsPositive c → IsValid (init c)
unfolding init
init-IsValid c p = ground arith

-- After any interleaving of entries, successes and failures: a closed breaker has counted fewer
-- failures than its threshold, a half-open one fewer successes than it needs to close, and no
-- half-open call has been counted. Both thresholds must be positive.
pub run-IsValid : (c : Config) (es : List Event) → IsPositive c → IsValid (run (init c) es)
run-IsValid c es p = run_from-IsValid (init c) es (unfold init in p) (init-IsValid c p)

config-run : (b : Breaker) (es : List Event) → (run b es).config ≡ b.config
unfolding run
config-run b [] = refl
config-run b (e ∷ es) = rw (config-run (step b e) es) (config-step b e)

-- `half_open_max_calls` never limits anything: after any history a half-open breaker admits every
-- call, at any time and however many are already in flight, if the limit is positive at all.
pub half_open_unlimited :
    (c : Config) (es : List Event) (now later : ℕ)
    → IsPositive c
    → 0 < c.half_open_max_calls
    → (run (init c) es).state ≡ half_open
    → enter (run (init c) es) now later ≡ (admitted, run (init c) es)
unfolding enter init
half_open_unlimited c es now later p h s =
    ground (arith, run-IsValid c es p, config-run (init c) es)
