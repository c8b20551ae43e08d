-- ===== src/Gateway/Chain/Settlement.antt =====
-- The quota reservation of a request is settled once: by a reconciliation or by a release.
use agent_studio.Base.{ℕ, ◌≡◌, refl, Bool, true, false, none, some, List, [], ◌∷◌, length}
use agent_studio.Base.Eq.{Eq}
use agent_studio.Gateway.Chain.{
  FailureClass, Attempt, answered, failed, over_quota, cancelled, cancelled_late, Effect, Outcome,
  Trace, LastError, exhaust, attempt_at, universe, execute_chain, reserved, KeyLookup, resolved,
  key_missing, generate,
}
use agent_studio.Gateway.Chain.Loop.{Rules, loop_induction}

module _ {ℓ} {D : Type ℓ} where
  -- The calls of the quota among the effects, in order.
  abbrev pub settlements : List (Effect D) → List (Effect D)
  settlements [] = []
  settlements (Effect.record_success d ∷ es) = settlements es
  settlements (Effect.record_failure d ∷ es) = settlements es
  settlements (Effect.reconcile usd ∷ es) = Effect.reconcile usd ∷ settlements es
  settlements (Effect.release ∷ es) = Effect.release ∷ settlements es

  -- What an outcome owes to the quota: the cost of an answer, or the release of the hold. After a
  -- cancellation before the answer is reconciled the code does neither.
  abbrev pub owed : Outcome D → List (Effect D)
  owed (Outcome.result d usd) = Effect.reconcile usd ∷ []
  owed (Outcome.exhausted d c n) = Effect.release ∷ []
  owed Outcome.unconfigured = Effect.release ∷ []
  owed Outcome.quota_exceeded = Effect.release ∷ []
  owed Outcome.from_cache = Effect.release ∷ []
  owed Outcome.was_cancelled = []
  owed (Outcome.was_cancelled_late d usd) = Effect.reconcile usd ∷ []
  owed Outcome.out_of_fuel = []

  abbrev pub IsSettled : Trace D → Type ℓ
  IsSettled t = settlements t.effects ≡ owed t.outcome

module _ {ℓ} {D : Type ℓ} ⦃e : Eq D⦄ (targets : FailureClass → List D) (call : D → Attempt) where
  exhaust-IsSettled : (last : LastError D) (n : ℕ) → IsSettled (exhaust last n)
  exhaust-IsSettled none n = refl
  exhaust-IsSettled (some (d, c)) n = refl

  attempt-IsSettled :
      (d : D) (a : Attempt) (rest : FailureClass → Trace D)
      → ((c : FailureClass) → IsSettled (rest c))
      → IsSettled (attempt_at targets call d a rest)
  attempt-IsSettled d (answered usd) rest h = refl
  attempt-IsSettled d (failed c) rest h = h c
  attempt-IsSettled d over_quota rest h = refl
  attempt-IsSettled d cancelled rest h = refl
  attempt-IsSettled d (cancelled_late usd) rest h = refl

  IsSettled-rules : Rules targets call (λ fuel seen ds last t. IsSettled t)
  IsSettled-rules = record {
    at_end = λ fuel seen last. exhaust-IsSettled last (length seen);
    at_stuck = λ seen d ds last new. refl;
    at_seen = λ fuel seen d ds last t old ih. ih;
    at_new = λ fuel seen d ds last rest new ih. attempt-IsSettled d (call d) rest ih;
  }

  execute_chain-IsSettled : (first : D) → IsSettled (execute_chain targets call first)
  unfolding execute_chain
  execute_chain-IsSettled first =
      loop_induction targets call (λ fuel seen ds last t. IsSettled t) IsSettled-rules
        (length (universe targets first)) [] (first ∷ []) none

  -- What is left of a debt when the request can end before the chain with no answer at hand.
  abbrev pub unless_keyless : Bool → KeyLookup → List (Effect D) → List (Effect D)
  unless_keyless false key_missing es = []
  unless_keyless _ _ es = es

  -- A request that holds a reservation and comes to its chain settles it exactly once: an answer
  -- reconciles its cost, also if the request is cancelled once that has begun, and every other end but
  -- a cancellation releases it; so does a hit in the cache. There are two leaks: a request that is
  -- cancelled in its chain before the chain comes to a settlement settles nothing, and nor does one
  -- that misses the cache and whose key cannot be resolved.
  pub settlements-generate :
      (first : D) (hit : Bool) (key : KeyLookup)
      → let t = generate targets call first reserved hit key in
        settlements t.effects ≡ unless_keyless hit key (owed t.outcome)
  unfolding generate
  settlements-generate first true resolved = refl
  settlements-generate first true key_missing = refl
  settlements-generate first false resolved = execute_chain-IsSettled first
  settlements-generate first false key_missing = refl
