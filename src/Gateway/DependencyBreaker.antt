-- ===== src/Gateway/DependencyBreaker.antt =====
-- `class RedisDependencyBreaker` of backend/app/gateway/cooldown.py: the breaker that keeps the
-- gateway off a failing Redis. Times are milliseconds of `time.monotonic()`, arguments of each
-- step; each step holds the lock, or has no `await` but the ping in it, which is an outcome here.
pub mod History
mod Tests
use agent_studio.Base.{
  ℕ, ◌+◌, Bool, true, false, not, ◌&&◌, Option, none, some, List, [], ◌∷◌, leb, ltb, if◌then◌else◌,
}

pub record Config : Type 0 where
  pub failure_threshold : ℕ
  pub recovery_timeout : ℕ

-- `DependencyBreakerConfig`
abbrev pub default_config : Config
default_config = record { failure_threshold = 5; recovery_timeout = 60000 }

pub record Breaker : Type 0 where
  pub config : Config
  pub consecutive_failures : ℕ
  pub open_since : ℕ
  pub probe_ok : Option Bool

pub init : Config → Breaker
init c = record { config = c; consecutive_failures = 0; open_since = 0; probe_ok = none }

-- Python's truth of `bool | None`
abbrev pub truthy : Option Bool → Bool
truthy none = false
truthy (some b) = b

-- `is_open`, and so `fast_fail`; `monotonic() - open_since < recovery` without a difference
unfoldable pub is_open : Breaker → ℕ → Bool
is_open b now =
    if ltb b.consecutive_failures b.config.failure_threshold
    then false
    else if ltb now (b.open_since + b.config.recovery_timeout)
    then true
    else not (truthy b.probe_ok)

-- `record_redis_failure`; `now` and `later` are its readings of the clock.
unfoldable pub record_redis_failure : Breaker → ℕ → ℕ → Breaker
unfolding is_open
record_redis_failure b now later =
    let was_open = is_open b now in
    let b' = record b { consecutive_failures = b.consecutive_failures + 1; probe_ok = none } in
    if leb b.config.failure_threshold b'.consecutive_failures && not was_open
    then record b' { open_since = later }
    else b'

unfoldable pub record_redis_success : Breaker → Breaker
record_redis_success b = record b { consecutive_failures = 0; probe_ok = none; open_since = 0 }

-- `probe`; `answered` says whether the ping returned.
unfoldable pub probe : Breaker → Bool → ℕ → Bool × Breaker
unfolding record_redis_success
probe b answered now =
    if answered
    then (true, record_redis_success b)
    else (false, record b { probe_ok = some false; open_since = now })

pub data Event : Type 0 where
  fails : ℕ → ℕ → Event
  succeeds : Event
  probes : Bool → ℕ → Event

unfoldable pub step : Breaker → Event → Breaker
unfolding record_redis_failure record_redis_success probe
step b (fails now later) = record_redis_failure b now later
step b succeeds = record_redis_success b
step b (probes answered now) = (probe b answered now).1

unfoldable pub run : Breaker → List Event → Breaker
unfolding step
run b [] = b
run b (e ∷ es) = run (step b e) es
