-- ===== src/Compaction/Breaker.antt =====
-- `class CompactionBreaker` of backend/app/application/compaction/breaker.py: a gate for each
-- thread that trips after consecutive failures. Times are milliseconds of `time.monotonic()`.
-- Each method holds the lock throughout.
pub mod Trip
pub mod Isolation
mod Tests
use agent_studio.Base.{
  ℕ, ◌+◌, String, Bool, true, false, Option, none, some, List, [], ◌∷◌, map, leb, is_some,
  if◌then◌else◌,
}
use agent_studio.Base.Eq.{string_eq}
use agent_studio.Base.Dict.{Dict, lookup, insert, remove}

pub record Config : Type 0 where
  pub max_failures : ℕ
  pub recovery_timeout : ℕ

-- `CompactionBreakerConfig`
abbrev pub default_config : Config
default_config = record { max_failures = 3; recovery_timeout = 300000 }

-- the list `[consecutive_failures, tripped_at]`
pub record Gate : Type 0 where
  pub failures : ℕ
  pub tripped_at : Option ℕ

pub record Breaker : Type 0 where
  pub config : Config
  pub state : Dict String Gate

pub init : Config → Breaker
init c = record { config = c; state = [] }

abbrev pub fresh_gate : Gate
fresh_gate = record { failures = 0; tripped_at = none }

-- `self._state.get(key, [0, None])`
abbrev pub or_fresh : Option Gate → Gate
or_fresh none = fresh_gate
or_fresh (some g) = g

-- one more failure, which trips the gate at the limit and else clears its time
abbrev pub failed_gate : Config → ℕ → Gate → Gate
failed_gate c now g = record {
  failures = g.failures + 1;
  tripped_at = if leb c.max_failures (g.failures + 1) then some now else none;
}

-- `record_failure`: the new count, and the new state
unfoldable pub record_failure : Breaker → String → ℕ → ℕ × Breaker
record_failure b key now =
    let g = failed_gate b.config now (or_fresh (lookup key b.state)) in
    (g.failures, record b { state = insert key g b.state })

unfoldable pub record_success : Breaker → String → Breaker
record_success b key = record b { state = remove key b.state }

tripped_gate : Option Gate → Option ℕ
tripped_gate none = none
tripped_gate (some g) = g.tripped_at

-- `is_tripped`, which forgets a thread whose time has come
unfoldable pub is_tripped : Breaker → String → ℕ → Bool × Breaker
unfolding tripped_gate
is_tripped b key now = elim (tripped_gate (lookup key b.state)) [
  | none ↦ (false, b)
  | some t ↦
      if leb (t + b.config.recovery_timeout) now
      then (false, record b { state = remove key b.state })
      else (true, b)
]

pub record Summary : Type 0 where
  pub key : String
  pub consecutive_failures : ℕ
  pub tripped : Bool

abbrev summarise : String → Gate → Summary
summarise key g = record {
  key = key;
  consecutive_failures = g.failures;
  tripped = is_some g.tripped_at;
}

-- `state_summary` of one key, and of all
unfoldable pub state_summary : Breaker → String → Summary
state_summary b key = summarise key (or_fresh (lookup key b.state))

unfoldable pub state_summaries : Breaker → List Summary
state_summaries b = map (λ (k, g). summarise k g) b.state

pub data Event : Type 0 where
  fails : String → ℕ → Event
  succeeds : String → Event
  asks : String → ℕ → Event

unfoldable pub step : Breaker → Event → Breaker
unfolding record_failure record_success is_tripped
step b (fails key now) = (record_failure b key now).1
step b (succeeds key) = record_success b key
step b (asks key now) = (is_tripped b key now).1

unfoldable pub run : Breaker → List Event → Breaker
unfolding step
run b [] = b
run b (e ∷ es) = run (step b e) es
