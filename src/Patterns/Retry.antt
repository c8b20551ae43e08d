-- ===== src/Patterns/Retry.antt =====
-- `retry_async` and `ExponentialBackoff` of backend/app/infrastructure/patterns/retry.py.
-- The coroutine is a function from the number of the call to how that call ends. The sleeps are
-- listed by their attempt, since what they wait is up to `random`.
pub mod Outcomes
mod Tests
use agent_studio.Base.{
  ℕ, zero, suc, ◌+◌, ◌-◌, ◌*◌, ◌^◌, Option, none, some, List, [], ◌∷◌, min, ◌==◌, if◌then◌else◌,
}

-- How one call of `fn` ends, by the `except` clause that takes it.
pub data Attempt {ℓ} (A E : Type ℓ) : Type ℓ where
  returned : A → Attempt A E
  non_retryable : E → Attempt A E
  retryable : E → Attempt A E
  other : E → Attempt A E

-- `exhausted n last` is `RetryExhaustedError(n, last)`
pub data Result {ℓ} (A E : Type ℓ) : Type ℓ where
  ok : A → Result A E
  raised : E → Result A E
  exhausted : ℕ → Option E → Result A E

-- `ExponentialBackoff`, times in milliseconds and the jitter in hundredths.
pub record Backoff : Type 0 where
  pub min_delay : ℕ
  pub max_delay : ℕ
  pub jitter : ℕ
  pub multiplier : ℕ

-- The delay before jitter.
unfoldable pub base_delay : Backoff → ℕ → ℕ
base_delay b attempt = min (b.min_delay * b.multiplier ^ attempt) b.max_delay

-- `delay`, in hundredths of a millisecond. `draw`, at most twice the jitter's amount, stands for
-- `random.uniform(-jitter_amount, jitter_amount) + jitter_amount`.
unfoldable pub delay : Backoff → ℕ → ℕ → ℕ
unfolding base_delay
delay b attempt draw = let d = base_delay b attempt in (d * 100 - d * b.jitter) + draw

-- What `retry_async` did: its result, the calls of `fn`, and the arguments of `on_retry`.
pub record Trace {ℓ} (A E : Type ℓ) : Type ℓ where
  pub result : Result A E
  pub calls : ℕ
  pub notices : List (ℕ × E)

abbrev stop {ℓ} : {A E : Type ℓ} → Result A E → Trace A E
stop r = record { result = r; calls = 1; notices = [] }

-- one more failed call in front of a trace
abbrev again {ℓ} : {A E : Type ℓ} → ℕ → E → Trace A E → Trace A E
again n e t = record t { calls = t.calls + 1; notices = (n, e) ∷ t.notices }

-- `last_error` after a call
last_error {ℓ} : {A E : Type ℓ} → Attempt A E → Option E → Option E
last_error (retryable e) old = some e
last_error _ old = old

module _ {ℓ} {A E : Type ℓ} (fn : ℕ → Attempt A E) (max_attempts : ℕ) where
  -- The body of the loop at `attempt`; `rest` is the remainder of the loop.
  attempt_once : Attempt A E → ℕ → Trace A E → Trace A E
  attempt_once (returned a) attempt rest = stop (ok a)
  attempt_once (non_retryable e) attempt rest = stop (raised e)
  attempt_once (retryable e) attempt rest =
      if attempt == max_attempts - 1
      then stop (exhausted max_attempts (some e))
      else again (attempt + 1) e rest
  attempt_once (other e) attempt rest = stop (raised e)

  -- `for attempt in range(max_attempts)` with `left` rounds to go
  retry_from : ℕ → ℕ → Option E → Trace A E
  unfolding attempt_once last_error
  retry_from zero attempt last = record {
    result = exhausted max_attempts last;
    calls = 0;
    notices = [];
  }
  retry_from (suc left) attempt last =
      let rest = retry_from left (attempt + 1) (last_error (fn attempt) last) in
      attempt_once (fn attempt) attempt rest

  unfoldable pub retry_async : Trace A E
  unfolding retry_from
  retry_async = retry_from max_attempts 0 none
