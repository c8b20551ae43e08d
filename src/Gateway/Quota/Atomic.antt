-- ===== src/Gateway/Quota/Atomic.antt =====
-- `reserve` as one look at the store, and what its settlement leaves.
use agent_studio.Base.{
  ℕ, suc, ◌+◌, ◌-◌, ◌≡◌, refl, Bool, true, Option, none, some, List, [], ◌∷◌, arith, ltb, ap,
}
use agent_studio.Base.Eq.{list_eq, nat_eq}
use agent_studio.Base.Text.{Text}
use agent_studio.Gateway.Quota.{
  HashStore, reserved, spent, Level, levels, Limits, Payer, level_key, Result, holds, reserve,
  reserve_levels, reconcile, reconcile_script, settle_keys,
}
use agent_studio.Gateway.Quota.Scripts.{reserved-reconcile_script, spent-reconcile_script}
use agent_studio.Gateway.Quota.Held.{held, IsHeld}
use agent_studio.Gateway.Quota.Reserve.{Agrees, first_over, limited_keys, reserve_levels-Agrees}
use agent_studio.Gateway.Quota.Keys.{level_key-IsApart}

module _ {S : Type 0} (redis : HashStore S) (up : ℕ → Bool) where
  reserve-reserve_levels :
      (soft : ℕ) (limits : Limits) (p : Payer) (est : ℕ) (s : S)
      → ltb 0 est ≡ true
      → reserve redis true up soft limits p est s
        ≡ reserve_levels redis up soft limits (level_key p) est levels [] [] 0 s
  unfolding reserve
  reserve-reserve_levels soft limits p est s h = rw h refl

  nothing-IsHeld : (est : ℕ) (s : S) → IsHeld redis est [] s s
  unfolding held
  nothing-IsHeld est s j = (omega arith, refl)

  -- When every call of a script is answered, a reservation decides by the store before it. If each
  -- limited level has room, the keys of these levels are charged once, in order, and nothing else
  -- changes; if not, the first level without room is named with its limit and the whole dollars that
  -- it has used, and every field of every hash reads as before.
  pub reserve-Agrees :
      (soft : ℕ) (limits : Limits) (p : Payer) (est : ℕ) (s : S)
      → ((n : ℕ) → up n ≡ true)
      → ltb 0 est ≡ true
      → Agrees redis limits
          (level_key p)
          est
          s
          (first_over redis limits (level_key p) est s levels)
          (limited_keys redis limits (level_key p) est levels)
          (reserve redis true up soft limits p est s)
  reserve-Agrees soft limits p est s ok h = rw (reserve-reserve_levels soft limits p est s h) (
      reserve_levels-Agrees redis limits (level_key p) est up soft ok levels [] [] 0 s s
        (level_key-IsApart redis limits p est) (nothing-IsHeld est s))

  settle_keys_lem :
      (est actual : ℕ) (keys : List Text) (n : ℕ) (t : S)
      → ((n : ℕ) → up n ≡ true)
      → (j : Text)
      → (redis.hget j reserved (settle_keys redis up est actual keys n t)
          ≡ redis.hget j reserved t - held est j keys)
        × (redis.hget j spent (settle_keys redis up est actual keys n t)
            ≡ redis.hget j spent t + held actual j keys)
  unfolding settle_keys held
  settle_keys_lem est actual [] n t ok j = (omega arith, omega arith)
  settle_keys_lem est actual (k ∷ ks) n t ok j = rw (ok n) (
      ground (
        arith,
        settle_keys_lem est actual ks (suc n) (reconcile_script redis k est actual t) ok j,
        reserved-reconcile_script redis k j est actual t,
        spent-reconcile_script redis k j est actual t,
      ))

  abbrev keys_of : Result → List Text
  keys_of (holds keys alerts) = keys
  keys_of _ = []

  Agrees-IsHeld :
      (limits : Limits) (key : Level → Text) (est : ℕ) (s t : S) (o : Option Level)
      (all keys : List Text) (alerts : List Level)
      → Agrees redis limits key est s o all (t, holds keys alerts)
      → IsHeld redis est keys s t
  Agrees-IsHeld limits key est s t none all keys alerts (al, same, h) = rw (ap keys_of same) h
  Agrees-IsHeld limits key est s t (some l) all keys alerts (same, h) = absurd (cc)

  -- When every call is answered, a reservation that is reconciled with an actual cost leaves what
  -- is reserved as it was before, and adds that cost to what each of its keys has spent; so a
  -- released one, with a cost of 0, leaves every field as it was before.
  pub reconcile-reserve :
      (soft : ℕ) (limits : Limits) (p : Payer) (est actual : ℕ) (s t : S) (keys : List Text)
      (alerts : List Level)
      → ((n : ℕ) → up n ≡ true)
      → ltb 0 est ≡ true
      → reserve redis true up soft limits p est s ≡ (t, holds keys alerts)
      → (j : Text)
      → (redis.hget j reserved (reconcile redis up est actual keys t) ≡ redis.hget j reserved s)
        × (redis.hget j spent (reconcile redis up est actual keys t)
            ≡ redis.hget j spent s + held actual j keys)
  unfolding reconcile
  reconcile-reserve soft limits p est actual s t keys alerts ok h found j =
      let says = rw found at (reserve-Agrees soft limits p est s ok h) in
      ground (
        arith,
        Agrees-IsHeld limits (level_key p) est s t _ _ keys alerts says j,
        settle_keys_lem est actual keys 0 t ok j,
      )
