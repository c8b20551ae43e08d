-- ===== src/Patterns/RateLimiter/Rate.antt =====
-- How much a bucket grants over a row of calls.
use agent_studio.Base.{
  ℕ, ◌+◌, ◌-◌, ◌*◌, ◌≤◌, ◌≡◌, Bool, true, Option, some, inl, inr, List, [], ◌∷◌, arith, leb,
  if◌then◌else◌, Bool-cases,
}
use native.Mathlib.Nat.{mul_comm, add-mul, mul-le-mul_left}
use agent_studio.Patterns.RateLimiter.{
  Config, Bucket, refilled, token_bucket_script, memory_refilled, memory_bucket, take_cost,
}

-- The two kinds of bucket: how much one millisecond adds is `max_requests` for both.
abbrev pub Step : Type 0
Step = Option Bucket → ℕ → ℕ → Bucket × Bool

-- A call after a wait: the milliseconds since the last one, and the cost.
abbrev pub Call : Type 0
Call = ℕ × ℕ

-- The time, the bucket and the total granted after calls.
unfoldable pub granted : Step → ℕ → Bucket → List Call → Bucket × ℕ
granted step unit b [] = (b, 0)
granted step unit b ((wait, cost) ∷ cs) =
    let (b1, ok) = step (some b) cost (b.last_refill + wait) in
    let (b2, total) = granted step unit b1 cs in (b2, (if ok then cost * unit else 0) + total)

unfoldable pub elapsed : List Call → ℕ
elapsed [] = 0
elapsed ((wait, cost) ∷ cs) = wait + elapsed cs

-- A step grants no more than the bucket had and what the wait added.
abbrev IsFair : Config → Step → ℕ → Type 0
IsFair c step unit =
    (b : Bucket) (wait cost : ℕ)
    → let (b1, ok) = step (some b) cost (b.last_refill + wait) in
      (b1.last_refill ≡ b.last_refill + wait)
      × ((if ok then cost * unit else 0) + b1.tokens ≤ b.tokens + wait * c.max_requests)

granted-IsFair :
    (c : Config) (step : Step) (unit : ℕ)
    → IsFair c step unit
    → (b : Bucket) (cs : List Call)
    → (granted step unit b cs).1 + (granted step unit b cs).0.tokens
      ≤ b.tokens + elapsed cs * c.max_requests
unfolding granted elapsed
granted-IsFair c step unit fair b [] = omega arith
granted-IsFair c step unit fair b ((wait, cost) ∷ cs) =
    let (b1, ok) = step (some b) cost (b.last_refill + wait) in
    omega (
      arith,
      (fair b wait cost).1,
      granted-IsFair c step unit fair b1 cs,
      add-mul wait (elapsed cs) c.max_requests,
    )

take_cost_lem :
    (have cost now : ℕ)
    → let (b, ok) = take_cost have cost now in
      (b.last_refill ≡ now) × ((if ok then cost else 0) + b.tokens ≡ have)
take_cost_lem have cost now = ground arith

since : (a wait : ℕ) → a + wait - a ≡ wait
since a wait = omega arith

le_of_leb : (a b : ℕ) → leb a b ≡ true → a ≤ b
le_of_leb a b h = ground arith

refilled-le :
    (c : Config) (b : Bucket) (wait : ℕ)
    → refilled c (some b) (b.last_refill + wait) ≤ b.tokens + wait * c.max_requests
unfolding refilled
refilled-le c b wait =
    rw (since b.last_refill wait) (elim (Bool-cases (leb c.window_seconds wait)) [
      | inl p ↦ rw p (
          omega (
            arith,
            mul-le-mul_left {m = c.window_seconds} {n = wait} c.max_requests
                (le_of_leb c.window_seconds wait p),
            mul_comm c.max_requests wait,
          ))
      | inr p ↦ rw p (omega arith)
    ])

memory_refilled-le :
    (c : Config) (b : Bucket) (wait : ℕ)
    → memory_refilled c (some b) (b.last_refill + wait) ≤ b.tokens + wait * c.max_requests
unfolding memory_refilled
memory_refilled-le c b wait = rw (since b.last_refill wait) (omega arith)

script-IsFair : (c : Config) → IsFair c (token_bucket_script c) c.window_seconds
unfolding token_bucket_script
script-IsFair c b wait cost =
    let now = b.last_refill + wait in
    ground (
      arith,
      take_cost_lem (refilled c (some b) now) (cost * c.window_seconds) now,
      refilled-le c b wait,
    )

memory-IsFair : (c : Config) → IsFair c (memory_bucket c) (1000 * c.window_seconds)
unfolding memory_bucket
memory-IsFair c b wait cost =
    let now = b.last_refill + wait in
    ground (
      arith,
      take_cost_lem (memory_refilled c (some b) now) (cost * (1000 * c.window_seconds)) now,
      memory_refilled-le c b wait,
    )

-- Over a row of calls with waits between them, a bucket grants no more than what it held and
-- max_requests parts of a token for each millisecond. A part is 1 / window_seconds of a token for
-- the bucket in Redis, so that this one gives out max_requests in window_seconds milliseconds, and
-- 1 / (1000 * window_seconds) for the bucket of the process, which takes window_seconds seconds.
pub granted-le :
    (c : Config) (b : Bucket) (cs : List Call)
    → ((granted (token_bucket_script c) c.window_seconds b cs).1
        ≤ b.tokens + elapsed cs * c.max_requests)
      × ((granted (memory_bucket c) (1000 * c.window_seconds) b cs).1
          ≤ b.tokens + elapsed cs * c.max_requests)
granted-le c b cs = (
  omega (arith, granted-IsFair c (token_bucket_script c) c.window_seconds (script-IsFair c) b cs),
  omega
      (arith, granted-IsFair c (memory_bucket c) (1000 * c.window_seconds) (memory-IsFair c) b cs),
)
