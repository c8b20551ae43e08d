-- ===== src/Gateway/Quota/Held.antt =====
-- What a reservation holds, and that a rollback gives it back.
use agent_studio.Base.{ℕ, suc, ◌+◌, ◌≡◌, Bool, true, List, [], ◌∷◌, ◌++◌, arith, if◌then◌else◌}
use agent_studio.Base.Eq.{list_eq, nat_eq, list_beq}
use agent_studio.Base.Text.{Text}
use agent_studio.Gateway.Quota.{HashStore, reserved, spent, reconcile_script, settle_keys}
use agent_studio.Gateway.Quota.Scripts.{reserved-reconcile_script, spent-reconcile_script}

-- What the keys hold of the hash `j`, `est` for each time that it is among them.
unfoldable pub held : ℕ → Text → List Text → ℕ
held est j [] = 0
held est j (k ∷ ks) = (if list_beq k j then est else 0) + held est j ks

pub held-append :
    (est : ℕ) (j : Text) (ks ls : List Text) → held est j (ks ++ ls) ≡ held est j ks + held est j ls
unfolding held
held-append est j [] ls = omega arith
held-append est j (k ∷ ks) ls = ground (arith, held-append est j ks ls)

pub held_one : (est : ℕ) (j k : Text) → held est j (k ∷ []) ≡ (if list_beq k j then est else 0)
unfolding held
held_one est j k = ground arith

module _ {S : Type 0} (redis : HashStore S) where
  -- The store `t` is `s` with the money that the keys hold.
  abbrev pub IsHeld : ℕ → List Text → S → S → Type 0
  IsHeld est keys s t =
      (j : Text)
      → (redis.hget j reserved t ≡ redis.hget j reserved s + held est j keys)
        × (redis.hget j spent t ≡ redis.hget j spent s)

  -- Answered calls of a rollback give back what the keys hold.
  pub settle_keys-IsHeld :
      (up : ℕ → Bool) (est : ℕ) (keys : List Text) (n : ℕ) (s t : S)
      → ((m : ℕ) → up m ≡ true)
      → IsHeld est keys s t
      → IsHeld est [] s (settle_keys redis up est 0 keys n t)
  unfolding settle_keys held
  settle_keys-IsHeld up est [] n s t ok h = h
  settle_keys-IsHeld up est (k ∷ ks) n s t ok h = rw (ok n) (
      settle_keys-IsHeld up est ks (suc n) s (reconcile_script redis k est 0 t) ok (λ j. ground (
        arith,
        h j,
        reserved-reconcile_script redis k j est 0 t,
        spent-reconcile_script redis k j est 0 t,
      )))
