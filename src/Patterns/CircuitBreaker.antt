-- ===== src/Patterns/CircuitBreaker.antt =====
-- `class CircuitBreaker` of backend/app/infrastructure/patterns/circuit_breaker.py.
-- Times are milliseconds of `time.monotonic()`, an argument of each step. `call` holds its lock
-- only while it enters and while it records, so the two halves are separate steps here, and a
-- history of steps interleaves the calls of several tasks.
pub mod Invariant
pub mod Counting
pub mod Window
mod Tests
use agent_studio.Base.{
  ℕ, ◌+◌, String, Bool, true, false, ◌&&◌, Option, none, some, List, [], ◌∷◌, leb, if◌then◌else◌,
}

pub data CircuitState : Type 0 where
  closed open_state half_open : CircuitState

pub record Config : Type 0 where
  pub name : String
  pub failure_threshold : ℕ
  pub recovery_timeout : ℕ
  pub half_open_max_calls : ℕ
  pub consecutive_successes_to_close : ℕ

-- the defaults of `CircuitBreakerConfig`
abbrev pub default_config : Config
default_config = record {
  name = "default";
  failure_threshold = 5;
  recovery_timeout = 30000;
  half_open_max_calls = 3;
  consecutive_successes_to_close = 2;
}

pub record Breaker : Type 0 where
  pub config : Config
  pub state : CircuitState
  pub failure_count : ℕ
  pub success_count : ℕ
  pub half_open_calls : ℕ
  pub last_failure_time : ℕ

pub init : Config → Breaker
init c = record {
  config = c;
  state = closed;
  failure_count = 0;
  success_count = 0;
  half_open_calls = 0;
  last_failure_time = 0;
}

-- `refused until` is `CircuitBreakerOpenError(name, until)`
pub data Entry : Type 0 where
  admitted : Entry
  refused : ℕ → Entry

abbrev pub is_half_open : CircuitState → Bool
is_half_open half_open = true
is_half_open _ = false

-- the second test of the locked block, on the state that the first one left
check_budget : Breaker → ℕ → Entry × Breaker
check_budget b later =
    if is_half_open b.state && leb b.config.half_open_max_calls b.half_open_calls
    then (refused (later + 5000), b)
    else (admitted, b)

-- The locked block at the head of `call`; `now` and `later` are its two readings of the clock.
-- `monotonic() - last_failure_time >= recovery_timeout` is written without a difference.
enter_at : CircuitState → Breaker → ℕ → ℕ → Entry × Breaker
unfolding check_budget
enter_at open_state b now later =
    if leb (b.last_failure_time + b.config.recovery_timeout) now
    then check_budget (record b { state = half_open; half_open_calls = 0; success_count = 0 }) later
    else (refused (b.last_failure_time + b.config.recovery_timeout), b)
enter_at _ b now later = check_budget b later

unfoldable pub enter : Breaker → ℕ → ℕ → Entry × Breaker
unfolding enter_at
enter b now later = enter_at b.state b now later

-- `_record_success`
success_at : CircuitState → Breaker → Breaker
success_at half_open b =
    let b' = record b { success_count = b.success_count + 1 } in
    if leb b.config.consecutive_successes_to_close b'.success_count
    then record b' { state = closed; failure_count = 0; success_count = 0; half_open_calls = 0 }
    else b'
success_at closed b = record b { failure_count = 0 }
success_at _ b = b

unfoldable pub record_success : Breaker → Breaker
unfolding success_at
record_success b = success_at b.state b

-- `_record_failure`
failure_at : CircuitState → Breaker → Breaker
failure_at half_open b = record b { state = open_state; half_open_calls = 0; success_count = 0 }
failure_at closed b =
    let b' = record b { failure_count = b.failure_count + 1 } in
    if leb b.config.failure_threshold b'.failure_count then record b' { state = open_state } else b'
failure_at _ b = b

unfoldable pub record_failure : Breaker → ℕ → Breaker
unfolding failure_at
record_failure b now = failure_at b.state (record b { last_failure_time = now })

-- How the wrapped coroutine ended, and what `call` gives its caller.
pub data Outcome {ℓ} (A : Type ℓ) : Type ℓ where
  returned : A → Outcome A
  raised : Outcome A
  rejected : ℕ → Outcome A

-- `call`, with no other task between its two locked blocks. `fn` gives `none` when it raises.
after_enter {ℓ} : {A : Type ℓ} → Entry × Breaker → Option A → ℕ → Outcome A × Breaker
after_enter (refused until, b) r ended = (rejected until, b)
after_enter (admitted, b) (some a) ended = (returned a, record_success b)
after_enter (admitted, b) none ended = (raised, record_failure b ended)

unfoldable pub call {ℓ} : {A : Type ℓ} → Breaker → Option A → ℕ → ℕ → ℕ → Outcome A × Breaker
unfolding after_enter
call b r now later ended = after_enter (enter b now later) r ended

-- One locked block of some task.
pub data Event : Type 0 where
  enters : ℕ → ℕ → Event
  succeeds : Event
  fails : ℕ → Event

unfoldable pub step : Breaker → Event → Breaker
unfolding enter record_success record_failure
step b (enters now later) = (enter b now later).1
step b succeeds = record_success b
step b (fails now) = record_failure b now

unfoldable pub run : Breaker → List Event → Breaker
unfolding step
run b [] = b
run b (e ∷ es) = run (step b e) es
