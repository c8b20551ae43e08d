-- ===== src/Gateway/Quota/Scripts.antt =====
-- What the two scripts do to every field of every hash.
use agent_studio.Base.{ℕ, ◌+◌, ◌-◌, ◌≡◌, true, ◌&&◌, arith, ◌≤◌, ◌<◌, if◌then◌else◌}
use agent_studio.Base.Eq.{list_eq, nat_eq, list_beq, list_beq_iff}
use agent_studio.Base.Text.{Text}
use agent_studio.Gateway.Quota.{HashStore, reserved, spent, reserve_script, reconcile_script}

module _ {S : Type 0} (redis : HashStore S) where
  pub reserved-reserve_script :
      (k j : Text) (limit est : ℕ) (s : S)
      → redis.hget j reserved (reserve_script redis k limit est s).0
        ≡ redis.hget j reserved s
          + (if list_beq k j && (reserve_script redis k limit est s).1 then est else 0)
  unfolding reserve_script
  reserved-reserve_script k j limit est s = ground (
    arith,
    redis.hget-hset k j reserved reserved (redis.hget k reserved s + est) s,
    list_beq_iff k j,
  )

  pub spent-reserve_script :
      (k j : Text) (limit est : ℕ) (s : S)
      → redis.hget j spent (reserve_script redis k limit est s).0 ≡ redis.hget j spent s
  unfolding reserve_script
  spent-reserve_script k j limit est s =
      ground (arith, redis.hget-hset k j reserved spent (redis.hget k reserved s + est) s)

  pub reserved-reconcile_script :
      (k j : Text) (est actual : ℕ) (s : S)
      → redis.hget j reserved (reconcile_script redis k est actual s)
        ≡ redis.hget j reserved s - (if list_beq k j then est else 0)
  unfolding reconcile_script
  reserved-reconcile_script k j est actual s =
      let less = redis.hget k reserved s - est in
      let s1 = redis.hset k reserved less s in
      ground (
        arith,
        redis.hget-hset k j spent reserved (redis.hget k spent s1 + actual) s1,
        redis.hget-hset k j reserved reserved less s,
        list_beq_iff k j,
      )

  pub spent-reconcile_script :
      (k j : Text) (est actual : ℕ) (s : S)
      → redis.hget j spent (reconcile_script redis k est actual s)
        ≡ redis.hget j spent s + (if list_beq k j then actual else 0)
  unfolding reconcile_script
  spent-reconcile_script k j est actual s =
      let less = redis.hget k reserved s - est in
      let s1 = redis.hset k reserved less s in
      ground (
        arith,
        redis.hget-hset k j spent spent (redis.hget k spent s1 + actual) s1,
        redis.hget-hset k j reserved spent less s,
        redis.hget-hset k k reserved spent less s,
        list_beq_iff k j,
      )

  pub reserve_script_room :
      (k : Text) (limit est : ℕ) (s : S)
      → (reserve_script redis k limit est s).1 ≡ true
      → 0 < limit
      → redis.hget k spent s + redis.hget k reserved s + est ≤ limit
  unfolding reserve_script
  reserve_script_room k limit est s h pos = ground arith
