-- ===== src/Gateway/Chain/Loop.antt =====
-- The fallback chain ends, and tries no deployment twice.
use agent_studio.Base.{
  ℕ, zero, suc, ◌≡◌, true, false, inl, inr, some, List, [], ◌∷◌, length, Bool-cases,
}
use agent_studio.Base.Eq.{Eq, elem, unseen}
use agent_studio.Gateway.Chain.{
  FailureClass, Attempt, Trace, LastError, exhaust, stuck, attempt_at, chain_loop,
}

module _ {ℓ} {D : Type ℓ} ⦃e : Eq D⦄ (targets : FailureClass → List D) (call : D → Attempt) where
  -- The rule for the loop: a property of traces that holds at its ends and is kept by its steps.
  module _ {κ} (P : ℕ → List D → List D → LastError D → Trace D → Type κ) where
    pub record Rules : Type (ℓ ⊔ κ) where
      pub at_end :
          (fuel : ℕ) (seen : List D) (last : LastError D)
          → P fuel seen [] last (exhaust last (length seen))
      pub at_stuck :
          (seen : List D) (d : D) (ds : List D) (last : LastError D)
          → elem d seen ≡ false
          → P zero seen (d ∷ ds) last stuck
      pub at_seen :
          (fuel : ℕ) (seen : List D) (d : D) (ds : List D) (last : LastError D) (t : Trace D)
          → elem d seen ≡ true
          → P fuel seen ds last t
          → P fuel seen (d ∷ ds) last t
      pub at_new :
          (fuel : ℕ) (seen : List D) (d : D) (ds : List D) (last : LastError D)
          (rest : FailureClass → Trace D)
          → elem d seen ≡ false
          → ((c : FailureClass)
              → P fuel (d ∷ seen) (unseen (d ∷ seen) (targets c)) (some (d, c)) (rest c))
          → P (suc fuel) seen (d ∷ ds) last (attempt_at targets call d (call d) rest)

    pub loop_induction :
        Rules
        → (fuel : ℕ) (seen ds : List D) (last : LastError D)
        → P fuel seen ds last (chain_loop targets call fuel seen ds last)
    unfolding chain_loop
    loop_induction r fuel seen [] last = r.at_end fuel seen last
    loop_induction r zero seen (d ∷ ds) last = elim (Bool-cases (elem d seen)) [
      | inl h ↦ rw h (r.at_seen zero seen d ds last _ h (loop_induction r zero seen ds last))
      | inr h ↦ rw h (r.at_stuck seen d ds last h)
    ]
    loop_induction r (suc fuel) seen (d ∷ ds) last = elim (Bool-cases (elem d seen)) [
      | inl h ↦
          rw h (r.at_seen (suc fuel) seen d ds last _ h (loop_induction r (suc fuel) seen ds last))
      | inr h ↦ rw h (
          r.at_new fuel seen d ds last _ h
            (λ c. loop_induction r fuel (d ∷ seen) (unseen (d ∷ seen) (targets c)) (some (d, c))))
    ]
