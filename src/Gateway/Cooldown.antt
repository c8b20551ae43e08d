-- ===== src/Gateway/Cooldown.antt =====
-- `RedisCooldownCache` of backend/app/gateway/cooldown.py. Redis is a parameter: `entry` is the
-- value of a counter with its deadline, which a command at a later time takes for absent. Times are
-- in milliseconds. `answers` is whether Redis is available and answers.
pub mod Window
mod Tests
use agent_studio.Base.{
  ℕ, zero, suc, ◌+◌, ◌-◌, ◌≡◌, Bool, true, false, not, Option, none, some, List, [], ◌∷◌, ◌++◌, ltb,
  leb, ◌==◌, if◌then◌else◌,
}
use agent_studio.Base.Eq.{nat_eq, list_eq, list_beq}
use agent_studio.Base.Text.{Text, codes, strip, lower}

-- A counter: its value and its deadline.
abbrev pub Entry : Type 0
Entry = ℕ × Option ℕ

-- The entry, unless its deadline has come.
abbrev pub alive_until : ℕ → ℕ → Option ℕ → Option Entry
alive_until now n none = some (n, none)
alive_until now n (some d) = if ltb now d then some (n, some d) else none

abbrev pub alive : ℕ → Option Entry → Option Entry
alive now none = none
alive now (some (n, d)) = alive_until now n d

abbrev pub counted : Option Entry → Entry
counted none = (1, none)
counted (some (n, d)) = (suc n, d)

abbrev pub with_deadline : ℕ → Option Entry → Option Entry
with_deadline d none = none
with_deadline d (some (n, _)) = some (n, some d)

-- INCR, PEXPIRE and DEL of Redis.
pub record CounterStore (S : Type 0) : Type 0 where
  pub entry : Text → S → Option Entry
  pub incr : Text → ℕ → S → S
  pub pexpire : Text → ℕ → S → S
  pub delete : Text → S → S
  pub entry-incr :
      (k j : Text) (now : ℕ) (s : S)
      → entry j (incr k now s)
        ≡ (if list_beq k j then some (counted (alive now (entry k s))) else entry j s)
  pub entry-pexpire :
      (k j : Text) (d : ℕ) (s : S)
      → entry j (pexpire k d s) ≡ (if list_beq k j then with_deadline d (entry k s) else entry j s)
  pub entry-delete :
      (k j : Text) (s : S) → entry j (delete k s) ≡ (if list_beq k j then none else entry j s)

pub record Config : Type 0 where
  pub prefix : Text
  pub allowed_fails : ℕ
  pub cooldown_ms : ℕ

unfoldable pub cooldown_key : Config → Text → Text → Text
unfolding strip lower
cooldown_key c provider model =
    c.prefix ++ (lower (strip provider) ++ (codes ":" ++ lower (strip model)))

abbrev pub value_of : Option Entry → ℕ
value_of none = 0
value_of (some (n, d)) = n

module _ {S : Type 0} (redis : CounterStore S) where
  -- `_COOLDOWN_FAIL_LUA`
  unfoldable pub fail_script : Text → ℕ → ℕ → S → S × ℕ
  fail_script key ms now s =
      let s1 = redis.incr key now s in
      let count = value_of (redis.entry key s1) in
      if count == 1 then (redis.pexpire key (now + ms) s1, count) else (s1, count)

  module _ (c : Config) (answers : Bool) where
    unfoldable pub record_failure : Text → Text → ℕ → S → S × ℕ
    unfolding fail_script cooldown_key
    record_failure provider model now s =
        if answers
        then fail_script (cooldown_key c provider model) c.cooldown_ms now s
        else (s, c.allowed_fails + 1)

    unfoldable pub record_success : Text → Text → S → S
    unfolding cooldown_key
    record_success provider model s =
        if answers then redis.delete (cooldown_key c provider model) s else s

    abbrev below : Option Entry → Bool
    below none = true
    below (some (n, d)) = ltb n c.allowed_fails

    unfoldable pub is_available : Text → Text → ℕ → S → Bool
    unfolding cooldown_key
    is_available provider model now s =
        if answers then below (alive now (redis.entry (cooldown_key c provider model) s)) else true

    -- `cooldown_ttl`, in milliseconds
    abbrev ttl_of : ℕ → Option Entry → Option ℕ
    ttl_of now none = none
    ttl_of now (some (n, none)) = none
    ttl_of now (some (n, some d)) = some (d - now)

    unfoldable pub cooldown_ttl : Text → Text → ℕ → S → Option ℕ
    unfolding cooldown_key
    cooldown_ttl provider model now s =
        if answers
        then ttl_of now (alive now (redis.entry (cooldown_key c provider model) s))
        else none
