-- ===== src/Patterns/CircuitBreaker/Counting.antt =====
-- How many results it takes to open and to close a circuit breaker.
use agent_studio.Base.{
  ℕ, zero, suc, ◌+◌, ◌<◌, ◌≡◌, List, [], ◌∷◌, arith, length, leb, if◌then◌else◌,
}
use agent_studio.Patterns.CircuitBreaker.{
  Breaker, Event, closed, open_state, half_open, record_success, record_failure, step, run,
}

abbrev pub failures_at : List ℕ → List Event
failures_at [] = []
failures_at (t ∷ ts) = Event.fails t ∷ failures_at ts

stays_open :
    (b : Breaker) (ts : List ℕ) → b.state ≡ open_state → (run b (failures_at ts)).state ≡ open_state
unfolding run step record_failure
stays_open b [] s = s
stays_open b (t ∷ ts) s = stays_open (record_failure b t) ts (ground arith)

-- A closed breaker is open after a row of failures exactly if these and the failures that it had
-- counted reach the threshold together; else it is still closed and has counted them all.
pub failures_open :
    (b : Breaker) (ts : List ℕ)
    → b.state ≡ closed
    → b.failure_count < b.config.failure_threshold
    → let b' = run b (failures_at ts) in
      (b'.state ≡ (
        if leb b.config.failure_threshold (b.failure_count + length ts)
        then open_state
        else closed))
      × (b'.state ≡ closed → b'.failure_count ≡ b.failure_count + length ts)
unfolding run step record_failure
failures_open b [] s h = ground arith
failures_open b (t ∷ ts) s h =
    ground (arith, failures_open (record_failure b t) ts, stays_open (record_failure b t) ts)

abbrev pub successes : ℕ → List Event
successes zero = []
successes (suc n) = Event.succeeds ∷ successes n

stays_closed :
    (b : Breaker) (n : ℕ)
    → b.state ≡ closed
    → b.failure_count ≡ 0
    → ((run b (successes n)).state ≡ closed) × ((run b (successes n)).failure_count ≡ 0)
unfolding run step record_success
stays_closed b zero s f = (s, f)
stays_closed b (suc n) s f = ground (arith, stays_closed (record_success b) n)

-- A half-open breaker is closed after `n` successes in a row exactly if these and the successes
-- that it had counted reach the number needed; it has then forgotten its failures. Else it is
-- still half-open.
pub successes_close :
    (b : Breaker) (n : ℕ)
    → b.state ≡ half_open
    → b.success_count < b.config.consecutive_successes_to_close
    → let b' = run b (successes n) in
      (b'.state ≡ (
        if leb b.config.consecutive_successes_to_close (b.success_count + n)
        then closed
        else half_open))
      × (b'.state ≡ closed → b'.failure_count ≡ 0)
unfolding run step record_success
successes_close b zero s h = ground arith
successes_close b (suc n) s h =
    ground (arith, successes_close (record_success b) n, stays_closed (record_success b) n)
