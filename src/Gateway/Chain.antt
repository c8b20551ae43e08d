-- ===== src/Gateway/Chain.antt =====
-- `Gateway.generate`, `_execute_chain` and `_attempt` of backend/app/gateway/service.py. What the
-- gateway does to the quota and to the cooldowns is listed as effects, in order. A call of a
-- provider is a function of the deployment, since no deployment is called twice for a request.
-- Money is in millionths of a dollar.
pub mod Universe
pub mod Loop
pub mod Answers
pub mod Settlement
pub mod Order
mod Tests
use agent_studio.Base.{
  ℕ, zero, suc, ◌+◌, Bool, true, false, not, ◌&&◌, Option, none, some, List, [], ◌∷◌, ◌++◌, length,
  if◌then◌else◌,
}
use agent_studio.Base.Eq.{Eq, elem, unseen}

-- The failure classes of backend/app/gateway/fallback.py.
pub data FailureClass : Type 0 where
  general content_policy context_window : FailureClass

-- How `_attempt` and what follows an answer end: with a result and its cost, with a provider failure
-- of some class, or by an exception that is not taken: `GatewayQuotaExceeded`, or a cancellation,
-- which is no `Exception`. It comes at one of the awaits up to the record of the success, or once the
-- reconciliation has begun, there or in `_after_success`.
pub data Attempt : Type 0 where
  answered : ℕ → Attempt
  failed : FailureClass → Attempt
  over_quota : Attempt
  cancelled : Attempt
  cancelled_late : ℕ → Attempt

module _ {ℓ} (D : Type ℓ) where
  pub data Effect : Type ℓ where
    record_success : D → Effect
    record_failure : D → Effect
    reconcile : ℕ → Effect
    release : Effect

  -- `exhausted` is `GatewayChainExhausted`, `unconfigured` is `GatewayConfigurationError`;
  -- `out_of_fuel` is not an outcome of the code.
  pub data Outcome : Type ℓ where
    result : D → ℕ → Outcome
    exhausted : D → FailureClass → ℕ → Outcome
    was_cancelled_late : D → ℕ → Outcome
    unconfigured quota_exceeded was_cancelled from_cache out_of_fuel : Outcome

  pub record Trace : Type ℓ where
    pub outcome : Outcome
    pub tried : List D
    pub effects : List Effect

-- `last_error`, with the deployment that it names
abbrev pub LastError {ℓ} : Type ℓ → Type ℓ
LastError D = Option (D × FailureClass)

module _ {ℓ} {D : Type ℓ} where
  -- what follows the loop: the release, and the exception for the last error
  abbrev pub exhaust : LastError D → ℕ → Trace D
  exhaust none attempts = record {
    outcome = Outcome.unconfigured;
    tried = [];
    effects = Effect.release ∷ [];
  }
  exhaust (some (d, c)) attempts = record {
    outcome = Outcome.exhausted d c attempts;
    tried = [];
    effects = Effect.release ∷ [];
  }

  -- one failed attempt in front of a trace
  abbrev pub after_failure : D → Trace D → Trace D
  after_failure d t = record t {
    tried = d ∷ t.tried;
    effects = Effect.record_failure d ∷ t.effects;
  }

  abbrev pub stuck : Trace D
  stuck = record { outcome = Outcome.out_of_fuel; tried = []; effects = [] }

-- Every deployment that the loop can come to.
abbrev pub universe {ℓ} : {D : Type ℓ} → (FailureClass → List D) → D → List D
universe targets first = first ∷ targets general ++ targets content_policy ++ targets context_window

module _ {ℓ} {D : Type ℓ} ⦃e : Eq D⦄ (targets : FailureClass → List D) (call : D → Attempt) where
  -- The attempt at one deployment; `rest` goes on with the targets of the failure's class.
  abbrev attempt_at : D → Attempt → (FailureClass → Trace D) → Trace D
  attempt_at d (answered usd) rest = record {
    outcome = Outcome.result d usd;
    tried = d ∷ [];
    effects = Effect.record_success d ∷ Effect.reconcile usd ∷ [];
  }
  attempt_at d (failed c) rest = after_failure d (rest c)
  attempt_at d over_quota rest = record {
    outcome = Outcome.quota_exceeded;
    tried = d ∷ [];
    effects = Effect.release ∷ [];
  }
  attempt_at d cancelled rest = record {
    outcome = Outcome.was_cancelled;
    tried = d ∷ [];
    effects = [];
  }
  attempt_at d (cancelled_late usd) rest = record {
    outcome = Outcome.was_cancelled_late d usd;
    tried = d ∷ [];
    effects = Effect.record_success d ∷ Effect.reconcile usd ∷ [];
  }

  -- The `while targets` loop. The fuel bounds the attempts; skipping a seen target takes none.
  pub chain_loop : ℕ → List D → List D → LastError D → Trace D
  chain_loop fuel seen [] last = exhaust last (length seen)
  chain_loop zero seen (d ∷ ds) last =
      let skip = chain_loop zero seen ds last in if elem d seen then skip else stuck
  chain_loop (suc fuel) seen (d ∷ ds) last =
      let skip = chain_loop (suc fuel) seen ds last in
      let go =
        attempt_at d (call d)
          (λ c. chain_loop fuel (d ∷ seen) (unseen (d ∷ seen) (targets c)) (some (d, c))) in
      if elem d seen then skip else go

  unfoldable pub execute_chain : D → Trace D
  unfolding chain_loop
  execute_chain first = chain_loop (length (universe targets first)) [] (first ∷ []) none

-- What comes before the chain in `generate`.
pub data Reservation : Type 0 where
  reserved : Reservation
  not_reserved : Reservation
  refused : Reservation

pub data KeyLookup : Type 0 where
  resolved : KeyLookup
  key_missing : KeyLookup

module _ {ℓ} {D : Type ℓ} where
  abbrev before_chain : Outcome D → List (Effect D) → Trace D
  before_chain o es = record { outcome = o; tried = []; effects = es }

  after_cache : KeyLookup → Trace D → Trace D
  after_cache resolved chain = chain
  after_cache key_missing chain = before_chain Outcome.unconfigured []

  after_reserve : Reservation → Bool → KeyLookup → Trace D → Trace D
  unfolding after_cache
  after_reserve refused hit key chain = before_chain Outcome.quota_exceeded []
  after_reserve _ hit key chain =
      if hit then before_chain Outcome.from_cache (Effect.release ∷ []) else after_cache key chain

-- `generate`: reserve, look in the exact cache, resolve the key, execute the chain. `hit` is
-- whether the cache was asked and had the request.
unfoldable pub generate {ℓ} :
    {D : Type ℓ} ⦃e : Eq D⦄ (targets : FailureClass → List D) (call : D → Attempt)
    → D
    → Reservation
    → Bool
    → KeyLookup
    → Trace D
unfolding after_reserve execute_chain
generate targets call first r hit key = after_reserve r hit key (execute_chain targets call first)
