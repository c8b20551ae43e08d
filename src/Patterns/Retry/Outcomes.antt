-- ===== src/Patterns/Retry/Outcomes.antt =====
-- Which call of the coroutine decides the result of `retry_async`.
use agent_studio.Base.{
  ℕ, zero, suc, ◌+◌, ◌-◌, ◌*◌, ◌<◌, ◌≤◌, ◌≡◌, refl, Option, none, some, List, [], ◌∷◌, ◌∙◌, ap, sym,
  map, arith, length, ℕ_discrete,
}
use agent_studio.Patterns.Retry.{
  Attempt, Result, Backoff, returned, non_retryable, retryable, other, ok, raised, exhausted,
  retry_from, retry_async, base_delay, delay,
}

-- The result that a call fixes, whatever is left of the attempts.
abbrev pub settles {ℓ} : {A E : Type ℓ} → Attempt A E → Option (Result A E)
settles (returned a) = some (ok a)
settles (non_retryable e) = some (raised e)
settles (retryable e) = none
settles (other e) = some (raised e)

-- Every call from `start` up to, and not with, `m` is one that is tried again.
abbrev pub AllRetried {ℓ} : {A E : Type ℓ} → (ℕ → Attempt A E) → ℕ → ℕ → Type ℓ
AllRetried fn start m = (i : ℕ) → start ≤ i → i < m → settles (fn i) ≡ none

retried {ℓ} : {A E : Type ℓ} (a : Attempt A E) → settles a ≡ none → (e : E) × (a ≡ retryable e)
retried a h = ground arith

-- The calls from `start` on, as many as `n`, each with its number, which counts from 1.
abbrev pub told {ℓ} : {A E : Type ℓ} → (ℕ → Attempt A E) → ℕ → ℕ → List (ℕ × Attempt A E)
told fn start zero = []
told fn start (suc n) = (start + 1, fn start) ∷ told fn (start + 1) n

abbrev pub notice {ℓ} : {A E : Type ℓ} → ℕ × E → ℕ × Attempt A E
notice (n, e) = (n, retryable e)

-- What `on_retry` was told are these calls, each with its number and its exception.
abbrev pub HasTold {ℓ} : {A E : Type ℓ} → (ℕ → Attempt A E) → ℕ → ℕ → List (ℕ × E) → Type ℓ
HasTold fn start n notices = map notice notices ≡ told fn start n

told-suc {ℓ} :
    {A E : Type ℓ} (fn : ℕ → Attempt A E) (start n m : ℕ)
    → m ≡ suc n
    → told fn start m ≡ (start + 1, fn start) ∷ told fn (start + 1) n
told-suc fn start n m p = rw p refl

module _ {ℓ} {A E : Type ℓ} (fn : ℕ → Attempt A E) (max_attempts : ℕ) where
  step_settled :
      (left attempt : ℕ) (last : Option E) (r : Result A E)
      → settles (fn attempt) ≡ some r
      → retry_from fn max_attempts (suc left) attempt last
        ≡ record { result = r; calls = 1; notices = [] }
  unfolding retry_from
  step_settled left attempt last r e = ground arith

  step_retried :
      (left attempt : ℕ) (last : Option E) (e : E)
      → fn attempt ≡ retryable e
      → attempt + suc left ≡ max_attempts
      → 0 < left
      → let t = retry_from fn max_attempts left (attempt + 1) (some e) in
        retry_from fn max_attempts (suc left) attempt last
        ≡ record t { calls = t.calls + 1; notices = (attempt + 1, e) ∷ t.notices }
  unfolding retry_from
  step_retried left attempt last e h k p = rw h (ground arith)

  settles_from :
      (left attempt m : ℕ) (last : Option E) (r : Result A E)
      → attempt + left ≡ max_attempts
      → attempt ≤ m
      → m < max_attempts
      → AllRetried fn attempt m
      → settles (fn m) ≡ some r
      → let t = retry_from fn max_attempts left attempt last in
        (t.result ≡ r) × (t.calls + attempt ≡ m + 1) × HasTold fn attempt (m - attempt) t.notices
  settles_from zero attempt m last r k lo hi earlier e = absurd (omega arith)
  settles_from (suc left) attempt m last r k lo hi earlier e = elim (ℕ_discrete attempt m) [
    | yes p ↦
        rw (step_settled left attempt last r (rw p e))
          (refl, omega arith, (let z : m - attempt ≡ 0 = omega arith in rw z refl))
    | no p ↦
        let (x, hx) = retried (fn attempt) (earlier attempt (omega arith) (omega arith)) in
        let (a, b, c) =
          settles_from left (attempt + 1) m (some x) r (omega arith) (omega arith) hi
            (λ i j. earlier i (omega arith)) e in
        let z : m - attempt ≡ suc (m - (attempt + 1)) = omega arith in
        rw (step_retried left attempt last x hx k (omega arith)) (
          a,
          omega arith,
          ap (λ ns. (attempt + 1, retryable x) ∷ ns) c
              ∙ sym (told-suc fn attempt (m - (attempt + 1)) (m - attempt) z ∙ rw hx refl),
        )
  ]

  -- The first call that is not one to retry decides the result, if it is among the first
  -- `max_attempts`: the result is what that call returned or raised, no call is made after it,
  -- and `on_retry` has been told of each call before it, in order, with its number and its exception.
  pub retry_async-settles :
      (m : ℕ) (r : Result A E)
      → m < max_attempts
      → AllRetried fn 0 m
      → settles (fn m) ≡ some r
      → let t = retry_async fn max_attempts in
        (t.result ≡ r) × (t.calls ≡ m + 1) × HasTold fn 0 m t.notices
  unfolding retry_async
  retry_async-settles m r hi earlier e =
      let (a, b, c) =
        settles_from max_attempts 0 m none r (omega arith) (omega arith) hi earlier e in
      let z : m - 0 ≡ m = omega arith in (a, omega arith, rw z at c)

  step_last :
      (attempt : ℕ) (last : Option E) (e : E)
      → fn attempt ≡ retryable e
      → attempt + 1 ≡ max_attempts
      → retry_from fn max_attempts 1 attempt last
        ≡ record { result = exhausted max_attempts (some e); calls = 1; notices = [] }
  unfolding retry_from
  step_last attempt last e h k = rw h (ground arith)

  exhausts_from :
      (left attempt m : ℕ) (last : Option E) (e : E)
      → attempt + left ≡ m
      → m + 1 ≡ max_attempts
      → AllRetried fn attempt m
      → fn m ≡ retryable e
      → let t = retry_from fn max_attempts (suc left) attempt last in
        (t.result ≡ exhausted max_attempts (some e))
        × (t.calls ≡ suc left)
        × (length t.notices ≡ left)
  exhausts_from zero attempt m last e k n earlier h =
      let p : attempt ≡ m = omega arith in
      rw (step_last attempt last e (rw p h) (omega arith)) (refl, refl, refl)
  exhausts_from (suc left) attempt m last e k n earlier h =
      let (x, hx) = retried (fn attempt) (earlier attempt (omega arith) (omega arith)) in
      let (a, b, c) =
        exhausts_from left (attempt + 1) m (some x) e (omega arith) n
          (λ i j. earlier i (omega arith)) h in
      rw (step_retried (suc left) attempt last x hx (omega arith) (omega arith))
        (a, omega arith, omega arith)

-- When each of the `n + 1` attempts ends in a retryable exception, all of them are made, the
-- error raised is `RetryExhaustedError` with the last exception, and `on_retry` has been told of
-- every call but the last.
pub retry_async_exhausts {ℓ} :
    {A E : Type ℓ} (fn : ℕ → Attempt A E) (n : ℕ) (e : E)
    → AllRetried fn 0 n
    → fn n ≡ retryable e
    → let t = retry_async fn (suc n) in
      (t.result ≡ exhausted (suc n) (some e)) × (t.calls ≡ suc n) × (length t.notices ≡ n)
unfolding retry_async
retry_async_exhausts fn n e earlier last =
    exhausts_from fn (suc n) n 0 n none e (omega arith) (omega arith) earlier last

jitter_bounds :
    (d j m draw : ℕ)
    → d ≤ m
    → j ≤ 100
    → draw ≤ 2 * (d * j)
    → ((d * 100 - d * j) + draw ≤ m * (100 + j)) × (d * 100 ≤ (d * 100 - d * j) + draw + d * j)
jitter_bounds d j m draw hd hj hw = (omega (arith, fits, wide, tall), omega arith)
  where
    fits : d * j ≤ d * 100
    fits = grind arith

    wide : d * j ≤ m * j
    wide = grind arith

    tall : d * 100 ≤ m * 100
    tall = omega arith

-- The delay before an attempt lies within the jitter's share of the largest delay and of its own
-- base delay, for a jitter of at most 100 hundredths and a draw in its range.
pub delay_bounds :
    (b : Backoff) (attempt draw : ℕ)
    → b.jitter ≤ 100
    → draw ≤ 2 * (base_delay b attempt * b.jitter)
    → (delay b attempt draw ≤ b.max_delay * (100 + b.jitter))
      × (base_delay b attempt * 100 ≤ delay b attempt draw + base_delay b attempt * b.jitter)
unfolding delay
delay_bounds b attempt draw hj hd =
    jitter_bounds (base_delay b attempt) b.jitter b.max_delay draw (omega arith) hj hd
