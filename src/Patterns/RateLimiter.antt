-- ===== src/Patterns/RateLimiter.antt =====
-- backend/app/infrastructure/patterns/rate_limiter.py: a token bucket in Redis, with a bucket of the
-- process for when Redis fails. Times are in milliseconds, the window is in whole seconds. Tokens
-- are exact: a bucket in Redis counts them in parts of 1 / window, one of the process in parts of
-- 1 / (1000 * window). A hash that has expired reads as absent, which the script treats as it
-- treats one of that age.
pub mod Rate
pub mod Fallback
mod Tests
use agent_studio.Base.{
  ℕ, zero, suc, ◌+◌, ◌-◌, ◌*◌, ◌≡◌, min, Bool, true, false, not, ◌&&◌, Option, none, some, List, [],
  ◌∷◌, ltb, leb, if◌then◌else◌,
}
use agent_studio.Base.Eq.{Eq, nat_eq, list_eq, list_beq}
use agent_studio.Base.Dict.{Dict, lookup, insert, remove}
use agent_studio.Base.Text.{Text}

pub record Config : Type 0 where
  pub max_requests : ℕ
  pub window_seconds : ℕ
  pub burst_percent : ℕ

abbrev pub default_config : Config
default_config = record { max_requests = 100; window_seconds = 60; burst_percent = 150 }

pub record Bucket : Type 0 where
  pub tokens : ℕ
  pub last_refill : ℕ

-- The tokens of the script before the cost is taken.
unfoldable pub refilled : Config → Option Bucket → ℕ → ℕ
refilled c none now = c.max_requests * c.window_seconds
refilled c (some b) now =
    if leb c.window_seconds (now - b.last_refill)
    then c.max_requests * c.window_seconds
    else min (c.max_requests * c.window_seconds) (b.tokens + (now - b.last_refill) * c.max_requests)

-- The end of the script: take the cost if the tokens suffice.
abbrev pub take_cost : ℕ → ℕ → ℕ → Bucket × Bool
take_cost tokens cost now =
    if leb cost tokens
    then (record { tokens = tokens - cost; last_refill = now }, true)
    else (record { tokens = tokens; last_refill = now }, false)

-- `_TOKEN_BUCKET_LUA`
unfoldable pub token_bucket_script : Config → Option Bucket → ℕ → ℕ → Bucket × Bool
unfolding refilled
token_bucket_script c b cost now = take_cost (refilled c b now) (cost * c.window_seconds) now

-- The tokens of a bucket of the process before the cost is taken.
unfoldable pub memory_refilled : Config → Option Bucket → ℕ → ℕ
memory_refilled c none now =
    min (c.max_requests * (1000 * c.window_seconds))
      (c.max_requests * (c.burst_percent * (10 * c.window_seconds)))
memory_refilled c (some b) now =
    min (b.tokens + (now - b.last_refill) * c.max_requests)
      (c.max_requests * (c.burst_percent * (10 * c.window_seconds)))

-- `_memory_acquire` at one key
unfoldable pub memory_bucket : Config → Option Bucket → ℕ → ℕ → Bucket × Bool
unfolding memory_refilled
memory_bucket c b cost now =
    take_cost (memory_refilled c b now) (cost * (1000 * c.window_seconds)) now

-- What the limiter uses of Redis.
pub record BucketStore (S : Type 0) : Type 0 where
  pub hmget : Text → S → Option Bucket
  pub hmset : Text → Bucket → S → S
  pub hmget-hmset :
      (k j : Text) (b : Bucket) (s : S)
      → hmget j (hmset k b s) ≡ (if list_beq k j then some b else hmget j s)

-- `_degraded` and `_buckets`
pub record Limiter : Type 0 where
  pub degraded : Bool
  pub buckets : Dict Text Bucket

unfoldable pub memory_acquire : Config → Text → ℕ → ℕ → Limiter → Limiter × Bool
unfolding memory_bucket lookup insert
memory_acquire c key cost now l =
    let (b, allowed) = memory_bucket c (lookup key l.buckets) cost now in
    (record l { buckets = insert key b l.buckets }, allowed)

-- `_try_redis_reconnect`
unfoldable pub try_redis_reconnect : Bool → Limiter → Limiter
try_redis_reconnect ping l = record l { degraded = l.degraded && not ping }

-- What a call meets: whether a Redis client was set up, whether it answers the ping and the script,
-- and the two clocks.
pub record Moment : Type 0 where
  pub connected : Bool
  pub ping : Bool
  pub answers : Bool
  pub wall : ℕ
  pub monotonic : ℕ

module _ {S : Type 0} (redis : BucketStore S) (c : Config) where
  abbrev pub beside : S → Limiter × Bool → (Limiter × S) × Bool
  beside s (l, ok) = ((l, s), ok)

  abbrev pub answer : Text → Limiter → S → Bucket × Bool → (Limiter × S) × Bool
  answer key l s (b, allowed) = ((l, redis.hmset key b s), allowed)

  unfoldable pub acquire : Moment → Text → ℕ → Limiter × S → (Limiter × S) × Bool
  unfolding try_redis_reconnect token_bucket_script memory_acquire
  acquire m key cost (l, s) =
      if not m.connected
      then beside s (memory_acquire c key cost m.monotonic l)
      else if m.answers
      then answer key (try_redis_reconnect m.ping l) s
          (token_bucket_script c (redis.hmget key s) cost m.wall)
      else beside s (
          memory_acquire c key cost m.monotonic
            (record (try_redis_reconnect m.ping l) { degraded = true }))

  -- `acquire_multi_or_raise`: the first key that fails, if there is one
  unfoldable pub acquire_multi : Moment → List Text → ℕ → Limiter × S → (Limiter × S) × Option Text
  unfolding acquire
  acquire_multi m [] cost w = (w, none)
  acquire_multi m (k ∷ ks) cost w =
      let (next, ok) = acquire m k cost w in
      let rest = acquire_multi m ks cost next in if ok then rest else (next, some k)

  -- `get_remaining` where Redis answers, in the units of the script's bucket
  unfoldable pub get_remaining : Moment → Text → S → ℕ
  get_remaining m key s = elim (redis.hmget key s) [
    | none ↦ c.max_requests * c.window_seconds
    | some b ↦
        if leb (1000 * c.window_seconds) (m.wall - b.last_refill)
        then c.max_requests * c.window_seconds
        else min (c.max_requests * c.window_seconds) b.tokens
  ]
