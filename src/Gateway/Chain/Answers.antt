-- ===== src/Gateway/Chain/Answers.antt =====
-- What the outcome of the fallback chain says of the calls that were made.
use agent_studio.Base.{ℕ, ◌+◌, ◌≡◌, ◌≢◌, refl, true, ◌||◌, none, some, List, [], ◌∷◌, arith, length}
use agent_studio.Base.Eq.{Eq, elem, unseen, elem-unseen, elem-cons, elem-cons_self}
use agent_studio.Gateway.Chain.{
  FailureClass, Attempt, answered, failed, over_quota, cancelled, cancelled_late, Outcome, Trace,
  LastError, exhaust, attempt_at, universe, execute_chain,
}
use agent_studio.Gateway.Chain.Loop.{Rules, loop_induction}

module _ {ℓ} {D : Type ℓ} ⦃e : Eq D⦄ (targets : FailureClass → List D) (call : D → Attempt) where
  -- Every call of the list but the last failed, and the last one is of `d` and ended as `a`.
  pub data EndsWith (d : D) (a : Attempt) : List D → Type ℓ where
    here : call d ≡ a → EndsWith d a (d ∷ [])
    later :
        {x : D} {xs : List D} (c : FailureClass)
        → call x ≡ failed c
        → EndsWith d a xs
        → EndsWith d a (x ∷ xs)

  -- Every call of the list failed, and the last failure, `last` if there is none in the list, is
  -- that of `d` with the class `c`.
  abbrev pub AllFail : LastError D → D → FailureClass → List D → Type ℓ
  AllFail last d c [] = last ≡ some (d, c)
  AllFail last d c (x ∷ xs) =
      (c' : FailureClass) × (call x ≡ failed c') × AllFail (some (x, c')) d c xs

  -- Every target of the class was seen before or tried.
  abbrev UsedUp : List D → FailureClass → List D → Type ℓ
  UsedUp seen c tried = (x : D) → elem x (targets c) ≡ true → (elem x seen || elem x tried) ≡ true

  abbrev pub Explains : List D → List D → LastError D → Outcome D → List D → Type ℓ
  Explains seen ds last (Outcome.result d usd) tried = EndsWith d (answered usd) tried
  Explains seen ds last (Outcome.exhausted d c n) tried =
      AllFail last d c tried × (n ≡ length seen + length tried) × UsedUp seen c tried
  Explains seen ds last Outcome.quota_exceeded tried = (d : D) × EndsWith d over_quota tried
  Explains seen ds last Outcome.was_cancelled tried = (d : D) × EndsWith d cancelled tried
  Explains seen ds last (Outcome.was_cancelled_late d usd) tried =
      EndsWith d (cancelled_late usd) tried
  Explains seen ds last Outcome.unconfigured tried =
      (last ≡ none) × ((x : D) → elem x ds ≡ true → elem x seen ≡ true)
  Explains seen ds last Outcome.from_cache tried = (last ≡ none) × (last ≢ none)
  Explains seen ds last Outcome.out_of_fuel tried = Unit

  -- The targets of the last failure are seen or still to come.
  abbrev Pending : List D → List D → LastError D → Type ℓ
  Pending seen ds none = Unit
  Pending seen ds (some (d, c)) =
      (x : D) → elem x (targets c) ≡ true → (elem x seen || elem x ds) ≡ true

  abbrev IsExplained : ℕ → List D → List D → LastError D → Trace D → Type ℓ
  IsExplained fuel seen ds last t = Pending seen ds last → Explains seen ds last t.outcome t.tried

  Pending-next :
      (seen : List D) (d : D) (c : FailureClass)
      → Pending (d ∷ seen) (unseen (d ∷ seen) (targets c)) (some (d, c))
  Pending-next seen d c x h = ground (arith, elem-unseen x (d ∷ seen) (targets c))

  exhaust_explained :
      (seen : List D) (last : LastError D)
      → Pending seen [] last
      → Explains seen [] last
          (exhaust last (length seen)).outcome
          (exhaust last (length seen)).tried
  unfolding elem
  exhaust_explained seen none h = (refl, λ x p. cc)
  exhaust_explained seen (some (d, c)) h = (refl, omega arith, h)

  seen_first :
      (seen ds : List D) (d : D) (last : LastError D) (o : Outcome D) (tried : List D)
      → elem d seen ≡ true
      → Explains seen ds last o tried
      → Explains seen (d ∷ ds) last o tried
  seen_first seen ds d last (Outcome.unconfigured) tried old (none_yet, all) =
      (none_yet, λ x h. ground (arith, all x, elem-cons x d ds, e.beq_iff d x))
  seen_first seen ds d last _ tried old h = h

  Pending-seen :
      (seen ds : List D) (d : D) (last : LastError D)
      → elem d seen ≡ true
      → Pending seen (d ∷ ds) last
      → Pending seen ds last
  Pending-seen seen ds d none old h = tt
  Pending-seen seen ds d (some (y, c)) old h =
      λ x p. ground (arith, h x p, elem-cons x d ds, e.beq_iff d x)

  after_failed :
      (seen ds ds' : List D) (d : D) (c : FailureClass) (last : LastError D) (o : Outcome D)
      (tried : List D)
      → call d ≡ failed c
      → Explains (d ∷ seen) ds' (some (d, c)) o tried
      → Explains seen ds last o (d ∷ tried)
  after_failed seen ds ds' d c last (Outcome.result x usd) tried k h = later c k h
  after_failed seen ds ds' d c last (Outcome.exhausted x c' n) tried k (a, b, u) = (
    (c, k, a),
    omega arith,
    λ y p. ground (arith, u y p, elem-cons y d seen, elem-cons y d tried),
  )
  after_failed seen ds ds' d c last Outcome.quota_exceeded tried k (x, h) = (x, later c k h)
  after_failed seen ds ds' d c last Outcome.was_cancelled tried k (x, h) = (x, later c k h)
  after_failed seen ds ds' d c last (Outcome.was_cancelled_late x usd) tried k h = later c k h
  after_failed seen ds ds' d c last Outcome.unconfigured tried k (h, all) = absurd (cc)
  after_failed seen ds ds' d c last Outcome.from_cache tried k (h, n) = absurd (n h)
  after_failed seen ds ds' d c last Outcome.out_of_fuel tried k h = tt

  attempt_explained :
      (seen ds : List D) (d : D) (last : LastError D) (a : Attempt) (rest : FailureClass → Trace D)
      → call d ≡ a
      → ((c : FailureClass)
          → Explains
              (d ∷ seen)
              (unseen (d ∷ seen) (targets c))
              (some (d, c))
              (rest c).outcome
              (rest c).tried)
      → let t = attempt_at targets call d a rest in Explains seen ds last t.outcome t.tried
  attempt_explained seen ds d last (answered usd) rest k ih = here k
  attempt_explained seen ds d last (failed c) rest k ih =
      after_failed seen ds (unseen (d ∷ seen) (targets c)) d c last (rest c).outcome (rest c).tried
        k (ih c)
  attempt_explained seen ds d last over_quota rest k ih = (d, here k)
  attempt_explained seen ds d last cancelled rest k ih = (d, here k)
  attempt_explained seen ds d last (cancelled_late usd) rest k ih = here k

  IsExplained-rules : Rules targets call IsExplained
  IsExplained-rules = record {
    at_end = λ fuel seen last h. exhaust_explained seen last h;
    at_stuck = λ seen d ds last new h. tt;
    at_seen = λ fuel seen d ds last t old ih h.
        seen_first seen ds d last t.outcome t.tried old (ih (Pending-seen seen ds d last old h));
    at_new = λ fuel seen d ds last rest new ih h.
        attempt_explained seen (d ∷ ds) d last (call d) rest refl
          (λ c. ih c (Pending-next seen d c));
  }

  no_configuration_error :
      (first : D) (o : Outcome D) (tried : List D)
      → Explains [] (first ∷ []) none o tried
      → o ≢ Outcome.unconfigured
  unfolding elem
  no_configuration_error first Outcome.unconfigured tried (n, all) p =
      absurd (cc (all first (elem-cons_self first [])))
  no_configuration_error first _ tried h p = cc

  -- The outcome says what the calls did. A result is the answer of the last call, after calls that
  -- all failed. `GatewayChainExhausted` names the last failure and its class and counts the calls,
  -- all of which failed, and no target of that class was left untried. A quota error and a
  -- cancellation come from the last call. `GatewayConfigurationError` is never raised here.
  pub execute_chain-Explains :
      (first : D)
      → let t = execute_chain targets call first in
        Explains [] (first ∷ []) none t.outcome t.tried × (t.outcome ≢ Outcome.unconfigured)
  unfolding execute_chain
  execute_chain-Explains first =
      let t = execute_chain targets call first in
      let h =
        loop_induction targets call IsExplained IsExplained-rules (length (universe targets first))
          [] (first ∷ []) none tt in
      (h, no_configuration_error first t.outcome t.tried h)
