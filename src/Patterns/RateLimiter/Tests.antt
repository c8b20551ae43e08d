-- ===== src/Patterns/RateLimiter/Tests.antt =====
-- The limiter with ten requests in a window of two seconds.
use agent_studio.Base.{
  List, ◌+◌, ◌*◌, ◌≤◌, ◌≡◌, refl, true, false, Option, none, some, [], ◌∷◌, if◌then◌else◌,
}
use agent_studio.Base.Eq.{nat_eq, list_eq, list_beq}
use agent_studio.Base.Text.{Text, codes}
use agent_studio.Patterns.RateLimiter.{
  Config, Bucket, BucketStore, Moment, token_bucket_script, memory_bucket, acquire_multi,
  get_remaining,
}
use agent_studio.Patterns.RateLimiter.Rate.{Call, granted, elapsed, granted-le}

abbrev ten : Config
ten = record { max_requests = 10; window_seconds = 2; burst_percent = 150 }

abbrev spent_bucket : Bucket
spent_bucket = record { tokens = 0; last_refill = 5000 }

abbrev Store : Type 0
Store = Text → Option Bucket

abbrev functions : BucketStore Store
functions = record {
  hmget = λ j s. s j;
  hmset = λ k b s j. if list_beq k j then some b else s j;
  hmget-hmset = λ k j b s. refl;
}

abbrev failing : Moment
failing = record { connected = true; ping = true; answers = false; wall = 0; monotonic = 0 }

-- Two milliseconds after everything was spent, the bucket is full again.
full_again : (token_bucket_script ten (some spent_bucket) 10 5002).1 ≡ true
unfolding token_bucket_script
full_again = refl

abbrev calls : List Call
calls = (1, 4) ∷ (1, 10) ∷ (3, 7) ∷ []

granted-le_example :
    ((granted (token_bucket_script ten) 2 spent_bucket calls).1 ≤ 0 + elapsed calls * 10)
    × ((granted (memory_bucket ten) (1000 * 2) spent_bucket calls).1 ≤ 0 + elapsed calls * 10)
granted-le_example = granted-le ten spent_bucket calls

first_refused :
    (acquire_multi functions ten failing
      (codes "a" ∷ codes "a" ∷ [])
      6
      (record { degraded = false; buckets = [] }, λ j. none)).1
    ≡ some (codes "a")
unfolding acquire_multi
first_refused = refl

full_for_two_seconds : get_remaining functions ten failing (codes "a") (λ j. some spent_bucket) ≡ 0
unfolding get_remaining
full_for_two_seconds = refl
