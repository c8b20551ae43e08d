-- ===== src/Patterns/CircuitBreaker/Window.antt =====
-- When an open breaker refuses, and how it comes back.
use agent_studio.Base.{ℕ, ◌+◌, ◌<◌, ◌≤◌, ◌≡◌, Option, List, [], ◌∷◌, arith, length}
use agent_studio.Patterns.CircuitBreaker.{
  Breaker, Event, rejected, closed, open_state, half_open, enter, record_failure, call, step, run,
}
use agent_studio.Patterns.CircuitBreaker.Counting.{
  failures_at, failures_open, successes, successes_close,
}

config-failures : (b : Breaker) (ts : List ℕ) → (run b (failures_at ts)).config ≡ b.config
unfolding run step record_failure
config-failures b [] = ground arith
config-failures b (t ∷ ts) = ground (arith, config-failures (record_failure b t) ts)

-- The breaker after failures at `ts` and a last one at `t`.
abbrev pub tripped : Breaker → List ℕ → ℕ → Breaker
tripped b ts t = step (run b (failures_at ts)) (Event.fails t)

tripped_state :
    (b : Breaker) (ts : List ℕ) (t : ℕ)
    → b.state ≡ closed
    → b.failure_count < b.config.failure_threshold
    → b.config.failure_threshold ≤ b.failure_count + length ts + 1
    → ((tripped b ts t).state ≡ open_state)
      × ((tripped b ts t).last_failure_time ≡ t)
      × ((tripped b ts t).config ≡ b.config)
unfolding step record_failure
tripped_state b ts t s h k = ground (arith, failures_open b ts s h, config-failures b ts)

-- Once failures have reached the threshold, the last of them at `t`, a call before
-- `t + recovery_timeout` is rejected until that time, its function is not run, and the breaker
-- does not change.
pub tripped_rejects {ℓ} :
    {A : Type ℓ} (b : Breaker) (ts : List ℕ) (t : ℕ) (r : Option A) (now later ended : ℕ)
    → b.state ≡ closed
    → b.failure_count < b.config.failure_threshold
    → b.config.failure_threshold ≤ b.failure_count + length ts + 1
    → now < t + b.config.recovery_timeout
    → call (tripped b ts t) r now later ended
      ≡ (rejected (t + b.config.recovery_timeout), tripped b ts t)
unfolding call enter
tripped_rejects b ts t r now later ended s h k early = ground (arith, tripped_state b ts t s h k)

enter_trial :
    (b : Breaker) (now later : ℕ)
    → b.state ≡ open_state
    → b.last_failure_time + b.config.recovery_timeout ≤ now
    → let b' = step b (Event.enters now later) in
      (b'.state ≡ half_open) × (b'.success_count ≡ 0) × (b'.config ≡ b.config)
unfolding step enter
enter_trial b now later s h = ground arith

-- Once recovery_timeout has passed since the last of the failures that opened the breaker, one entry and as many successes as the configuration asks for close
-- the breaker again, and its failures are forgotten.
pub tripped_recovers :
    (b : Breaker) (ts : List ℕ) (t now later : ℕ)
    → b.state ≡ closed
    → b.failure_count < b.config.failure_threshold
    → b.config.failure_threshold ≤ b.failure_count + length ts + 1
    → 0 < b.config.consecutive_successes_to_close
    → t + b.config.recovery_timeout ≤ now
    → let trial = step (tripped b ts t) (Event.enters now later) in
      let b' = run trial (successes b.config.consecutive_successes_to_close) in
      (trial.state ≡ half_open) × (b'.state ≡ closed) × (b'.failure_count ≡ 0)
tripped_recovers b ts t now later s h k positive due =
    let trial = step (tripped b ts t) (Event.enters now later) in
    ground (
      arith,
      tripped_state b ts t s h k,
      enter_trial (tripped b ts t) now later,
      successes_close trial b.config.consecutive_successes_to_close,
    )
