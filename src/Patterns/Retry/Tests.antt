-- ===== src/Patterns/Retry/Tests.antt =====
-- Retries at concrete outcomes.
use agent_studio.Base.{ℕ, zero, suc, ◌≡◌, refl, arith}
use agent_studio.Patterns.Retry.{Attempt, returned, retryable, ok, Backoff, retry_async}
use agent_studio.Patterns.Retry.Outcomes.{retry_async-settles, AllRetried, HasTold}

-- Two timeouts, then an answer.
abbrev flaky : ℕ → Attempt ℕ ℕ
flaky zero = retryable 408
flaky (suc zero) = retryable 504
flaky (suc (suc n)) = returned 7

flaky_retried : AllRetried flaky 0 2
flaky_retried zero lo hi = refl
flaky_retried (suc zero) lo hi = refl
flaky_retried (suc (suc i)) lo hi = absurd (omega arith)

abbrev seven : ℕ
seven = 7

retry_async-settles_example :
    let t = retry_async flaky 3 in
    (t.result ≡ ok seven) × (t.calls ≡ 3) × HasTold flaky 0 2 t.notices
retry_async-settles_example =
    retry_async-settles flaky 3 2 (ok seven) (omega arith) flaky_retried refl

flaky_once : AllRetried flaky 0 1
flaky_once zero lo hi = refl
flaky_once (suc i) lo hi = absurd (omega arith)

abbrev timeout : ℕ
timeout = 504

abbrev backoff : Backoff
backoff = record { min_delay = 1000; max_delay = 60000; jitter = 10; multiplier = 2 }
