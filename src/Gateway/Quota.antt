-- ===== src/Gateway/Quota.antt =====
-- backend/app/gateway/quota.py: reservation and reconciliation of money at four levels. Money is
-- in millionths of a dollar. Redis is a parameter: `hget` reads a field of a hash, 0 when it is
-- absent, and `hset` writes one. `up n` is whether the n-th call of a script is answered; a call
-- that raises leaves the store as it is.
mod Scripts
mod Keys
mod Held
pub mod Reserve
pub mod Atomic
mod Ledger
pub mod Tests
use agent_studio.Base.{
  ℕ, zero, suc, ◌+◌, ◌-◌, ◌*◌, ◌/◌, ◌≡◌, Bool, true, false, not, ◌&&◌, List, [], ◌∷◌, ◌++◌, ltb,
  leb, if◌then◌else◌,
}
use agent_studio.Base.Eq.{Eq, nat_eq, list_eq, list_beq}
use agent_studio.Base.Text.{Text, codes}

pub data Field : Type 0 where
  reserved spent : Field

abbrev pub field_beq : Field → Field → Bool
field_beq reserved reserved = true
field_beq spent spent = true
field_beq _ _ = false

-- What the scripts use of Redis.
pub record HashStore (S : Type 0) : Type 0 where
  pub hget : Text → Field → S → ℕ
  pub hset : Text → Field → ℕ → S → S
  pub hget-hset :
      (k j : Text) (f g : Field) (n : ℕ) (s : S)
      → hget j g (hset k f n s) ≡ (if list_beq k j && field_beq f g then n else hget j g s)

pub data Level : Type 0 where
  platform tenant surface end_user : Level

abbrev pub levels : List Level
levels = platform ∷ tenant ∷ surface ∷ end_user ∷ []

-- 0 is an unlimited level.
pub record Limits : Type 0 where
  pub platform_usd : ℕ
  pub tenant_usd : ℕ
  pub surface_usd : ℕ
  pub end_user_usd : ℕ

unfoldable pub level_limit : Limits → Level → ℕ
level_limit l platform = l.platform_usd
level_limit l tenant = l.tenant_usd
level_limit l surface = l.surface_usd
level_limit l end_user = l.end_user_usd

-- Who spends, and in which month.
pub record Payer : Type 0 where
  pub prefix : Text
  pub tenant_id : Text
  pub surface_id : Text
  pub end_user_id : Text
  pub window : Text

unfoldable pub level_key : Payer → Level → Text
level_key p platform = p.prefix ++ (codes "platform:" ++ p.window)
level_key p tenant = p.prefix ++ (codes "t:" ++ (p.tenant_id ++ (codes ":" ++ p.window)))
level_key p surface =
    p.prefix
    ++ (codes "t:" ++ (p.tenant_id ++ (codes ":s:" ++ (p.surface_id ++ (codes ":" ++ p.window)))))
level_key p end_user =
    p.prefix
    ++ (codes "t:" ++ (p.tenant_id ++ (codes ":u:" ++ (p.end_user_id ++ (codes ":" ++ p.window)))))

pub data Result : Type 0 where
  -- `None`: nothing is enforced
  unenforced : Result
  -- the keys of the reservation, and the levels of the soft alerts
  holds : List Text → List Level → Result
  -- `GatewayQuotaExceeded`
  over_budget : Level → ℕ → ℕ → Result

-- Redis turns a number that a script returns into an integer, here of dollars.
abbrev pub whole_usd : ℕ → ℕ
whole_usd usd = usd / 1000000 * 1000000

module _ {S : Type 0} (redis : HashStore S) where
  -- `_RESERVE_LUA`, and the reply that Redis makes of its table
  unfoldable pub reserve_script : Text → ℕ → ℕ → S → S × Bool × ℕ
  reserve_script key limit est s =
      let used = redis.hget key spent s + redis.hget key reserved s in
      if ltb 0 limit && ltb limit (used + est) then (s, false, whole_usd used) else (
        redis.hset key reserved (redis.hget key reserved s + est) s,
        true,
        whole_usd (used + est),
      )

  -- `_RECONCILE_LUA`
  unfoldable pub reconcile_script : Text → ℕ → ℕ → S → S
  reconcile_script key est actual s =
      let s1 = redis.hset key reserved (redis.hget key reserved s - est) s in
      redis.hset key spent (redis.hget key spent s1 + actual) s1

  -- The loop over the keys of a reservation, from the n-th call on; a call that raises ends it.
  unfoldable pub settle_keys : (ℕ → Bool) → ℕ → ℕ → List Text → ℕ → S → S
  unfolding reconcile_script
  settle_keys up est actual [] n s = s
  settle_keys up est actual (k ∷ ks) n s =
      let rest = settle_keys up est actual ks (suc n) (reconcile_script k est actual s) in
      if up n then rest else s

  -- `_rollback`
  abbrev pub rollback : (ℕ → Bool) → ℕ → List Text → ℕ → S → S
  rollback up est keys n s = settle_keys up est 0 keys n s

  -- `reconcile` of a reservation, while Redis is available, and `release`
  unfoldable pub reconcile : (ℕ → Bool) → ℕ → ℕ → List Text → S → S
  unfolding settle_keys
  reconcile up est actual keys s = settle_keys up est actual keys 0 s

  unfoldable pub release : (ℕ → Bool) → ℕ → List Text → S → S
  unfolding reconcile
  release up est keys s = reconcile up est 0 keys s

  module _ (up : ℕ → Bool) (soft_percent : ℕ) (limits : Limits) (key : Level → Text) (est : ℕ) where
    -- The answer of the script at one level; `rest` goes on with the next level.
    abbrev pub at_level :
        Level → List Text → ℕ → S × Bool × ℕ → (S → Bool → S × Result) → S × Result
    at_level l acquired n (s1, false, used) rest =
        (rollback up est acquired (suc n) s1, over_budget l (level_limit limits l) used)
    at_level l acquired n (s1, true, used) rest =
        rest s1 (leb (soft_percent * level_limit limits l) (100 * used))

    -- The loop over the levels.
    unfoldable pub reserve_levels : List Level → List Text → List Level → ℕ → S → S × Result
    unfolding level_limit reserve_script settle_keys
    reserve_levels [] acquired alerts n s = (s, holds acquired alerts)
    reserve_levels (l ∷ ls) acquired alerts n s =
        let skip = reserve_levels ls acquired alerts n s in
        let go =
          at_level l acquired n (reserve_script (key l) (level_limit limits l) est s) (λ s1 soft.
            reserve_levels ls (acquired ++ (key l ∷ []))
              (if soft then alerts ++ (l ∷ []) else alerts) (suc n) s1) in
        if not (ltb 0 (level_limit limits l))
        then skip
        else if up n
        then go
        else (rollback up est acquired (suc n) s, unenforced)

  -- `reserve`; `available` is `_redis_available`
  unfoldable pub reserve : Bool → (ℕ → Bool) → ℕ → Limits → Payer → ℕ → S → S × Result
  unfolding reserve_levels level_key
  reserve available up soft_percent limits p est s =
      if not (ltb 0 est)
      then (s, unenforced)
      else if not available
      then (s, unenforced)
      else reserve_levels up soft_percent limits (level_key p) est levels [] [] 0 s
