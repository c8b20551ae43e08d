-- ===== src/Patterns/RateLimiter/Fallback.antt =====
-- Which bucket decides a call, and what the call leaves alone.
use agent_studio.Base.{
  ℕ, ◌≡◌, ◌≢◌, ◌∙◌, ap, refl, true, false, not, ◌&&◌, Option, some, inl, inr, arith, if◌then◌else◌,
  Bool-cases,
}
use agent_studio.Base.Eq.{list_beq_unequal, nat_eq, list_eq, list_beq, list_beq_iff}
use agent_studio.Base.Dict.{lookup, lookup-insert}
use agent_studio.Base.Text.{Text}
use agent_studio.Patterns.RateLimiter.{
  Config, Bucket, BucketStore, Limiter, Moment, acquire, token_bucket_script, memory_bucket,
  memory_acquire, beside, answer, try_redis_reconnect,
}

memory_acquire_lem :
    (c : Config) (key j : Text) (cost now : ℕ) (l : Limiter)
    → let (l1, ok) = memory_acquire c key cost now l in
      let b = memory_bucket c (lookup key l.buckets) cost now in
      (ok ≡ b.1)
      × (lookup key l1.buckets ≡ some b.0)
      × (key ≢ j → lookup j l1.buckets ≡ lookup j l.buckets)
      × (l1.degraded ≡ l.degraded)
unfolding memory_acquire
memory_acquire_lem c key j cost now l =
    let b = memory_bucket c (lookup key l.buckets) cost now in
    (
      refl,
      ground (arith, lookup-insert key key b.0 l.buckets, list_beq_iff key key),
      λ d. ground (arith, d, lookup-insert key j b.0 l.buckets, list_beq_iff key j),
      refl,
    )

own_key {ℓ} : {A : Type ℓ} (key : Text) (x y : A) → (if list_beq key key then x else y) ≡ x
own_key key x y = rw ((list_beq_iff key key).1 refl) refl

other_key {ℓ} :
    {A : Type ℓ} (key j : Text) (x y : A) → key ≢ j → (if list_beq key j then x else y) ≡ y
other_key key j x y d = rw (list_beq_unequal key j d) refl

module _ {S : Type 0} (redis : BucketStore S) (c : Config) where
  -- The buckets of a key, of the process and in Redis.
  abbrev pub bucket_of : Text → Limiter × S → Option Bucket × Option Bucket
  bucket_of j (l, s) = (lookup j l.buckets, redis.hmget j s)

  acquire_offline :
      (m : Moment) (key : Text) (cost : ℕ) (l : Limiter) (s : S)
      → m.connected ≡ false
      → acquire redis c m key cost (l, s)
        ≡ beside redis c s (memory_acquire c key cost m.monotonic l)
  unfolding acquire
  acquire_offline m key cost l s p = rw p refl

  acquire_answered :
      (m : Moment) (key : Text) (cost : ℕ) (l : Limiter) (s : S)
      → m.connected ≡ true
      → m.answers ≡ true
      → acquire redis c m key cost (l, s)
        ≡ answer redis c key
            (try_redis_reconnect m.ping l)
            s
            (token_bucket_script c (redis.hmget key s) cost m.wall)
  unfolding acquire
  acquire_answered m key cost l s p q = rw (p, q) refl

  acquire_failed :
      (m : Moment) (key : Text) (cost : ℕ) (l : Limiter) (s : S)
      → m.connected ≡ true
      → m.answers ≡ false
      → acquire redis c m key cost (l, s)
        ≡ beside redis c s (memory_acquire c key cost m.monotonic (record l { degraded = true }))
  unfolding acquire
  acquire_failed m key cost l s p q = rw (p, q) refl

  by_memory :
      (key j : Text) (cost now : ℕ) (l : Limiter) (s : S)
      → let (l1, ok) = memory_acquire c key cost now l in
        let b = memory_bucket c (lookup key l.buckets) cost now in
        (ok ≡ b.1)
        × (bucket_of key (l1, s) ≡ (some b.0, redis.hmget key s))
        × (key ≢ j → bucket_of j (l1, s) ≡ bucket_of j (l, s))
        × (l1.degraded ≡ l.degraded)
  by_memory key j cost now l s =
      let (a, b, d, e) = memory_acquire_lem c key j cost now l in
      (a, ap (λ x. (x, redis.hmget key s)) b, λ n. ap (λ x. (x, redis.hmget j s)) (d n), e)

  written :
      (key j : Text) (cost now : ℕ) (s : S)
      → let b = (token_bucket_script c (redis.hmget key s) cost now).0 in
        redis.hmget j (redis.hmset key b s) ≡ (if list_beq key j then some b else redis.hmget j s)
  written key j cost now s = redis.hmget-hmset key j _ s

  -- A call is decided by the bucket in Redis exactly if the script is answered, and otherwise by
  -- that of the process; the other one, and both of every other key, stay as they were. The limiter
  -- is degraded after a call whose script failed, and after one that was answered only if it was
  -- before and the ping failed; without a client the flag does not change.
  pub acquire_lem :
      (m : Moment) (key j : Text) (cost : ℕ) (l : Limiter) (s : S)
      → let (w, ok) = acquire redis c m key cost (l, s) in
        let by_script = token_bucket_script c (redis.hmget key s) cost m.wall in
        let by_memory = memory_bucket c (lookup key l.buckets) cost m.monotonic in
        let answered = m.connected && m.answers in
        (ok ≡ (if answered then by_script.1 else by_memory.1))
        × (bucket_of key w ≡ (
            if answered
            then (lookup key l.buckets, some by_script.0)
            else (some by_memory.0, redis.hmget key s)))
        × (key ≢ j → bucket_of j w ≡ bucket_of j (l, s))
        × (w.0.degraded ≡ (
            if not m.connected
            then l.degraded
            else if m.answers
            then l.degraded && not m.ping
            else true))
  unfolding try_redis_reconnect
  acquire_lem m key j cost l s = elim (Bool-cases m.connected) [
    | inr p ↦ rw (acquire_offline m key cost l s p, p) (by_memory key j cost m.monotonic l s)
    | inl p ↦ elim (Bool-cases m.answers) [
      | inl q ↦
          rw (acquire_answered m key cost l s p q, p, q)
            (
              refl,
              (ap (λ b. (lookup key l.buckets, b))
                  (written key key cost m.wall s ∙ own_key key _ _)),
              (λ d.
                  ap (λ b. (lookup j l.buckets, b))
                    (written key j cost m.wall s ∙ other_key key j _ _ d)),
              refl,
            )
      | inr q ↦
          rw (acquire_failed m key cost l s p q, p, q)
            (by_memory key j cost m.monotonic (record l { degraded = true }) s)
    ]
  ]
