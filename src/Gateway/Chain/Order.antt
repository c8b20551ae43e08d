-- ===== src/Gateway/Chain/Order.antt =====
-- Which deployments the fallback chain tries: it ends, tries none twice, stops at the first
-- answer, and gives up only when the targets of the last failure's class are used up.
use agent_studio.Base.{
  ℕ, ◌≤◌, ◌≡◌, ◌≢◌, refl, true, false, none, some, List, [], ◌∷◌, ◌++◌, arith, length,
}
use agent_studio.Base.Eq.{
  Eq, elem, unseen, Subset, Distinct, length-unseen_cons, elem-cons_self, elem-cons_of,
  length-unseen-le,
}
use agent_studio.Gateway.Chain.{
  FailureClass, general, content_policy, context_window, Attempt, answered, failed, over_quota,
  cancelled, cancelled_late, Outcome, Trace, LastError, exhaust, attempt_at, universe,
  execute_chain,
}
use agent_studio.Gateway.Chain.Universe.{targets-Subset, no_room, unseen-Subset, first_Subset}
use agent_studio.Gateway.Chain.Loop.{Rules, loop_induction}

module _ {ℓ} {D : Type ℓ} ⦃e : Eq D⦄ (targets : FailureClass → List D) (call : D → Attempt) where
  abbrev IsFueled : D → ℕ → List D → List D → LastError D → Trace D → Type ℓ
  IsFueled first fuel seen ds last t =
      Subset ds (universe targets first)
      → length (unseen seen (universe targets first)) ≤ fuel
      → t.outcome ≢ Outcome.out_of_fuel

  exhaust_ends : (last : LastError D) (n : ℕ) → (exhaust last n).outcome ≢ Outcome.out_of_fuel
  exhaust_ends none n = λ p. cc
  exhaust_ends (some (d, c)) n = λ p. cc

  attempt_ends :
      (d : D) (a : Attempt) (rest : FailureClass → Trace D)
      → ((c : FailureClass) → (rest c).outcome ≢ Outcome.out_of_fuel)
      → (attempt_at targets call d a rest).outcome ≢ Outcome.out_of_fuel
  attempt_ends d (answered usd) rest h = λ p. cc
  attempt_ends d (failed c) rest h = h c
  attempt_ends d over_quota rest h = λ p. cc
  attempt_ends d cancelled rest h = λ p. cc
  attempt_ends d (cancelled_late usd) rest h = λ p. cc

  IsFueled-rules : (first : D) → Rules targets call (IsFueled first)
  IsFueled-rules first = record {
    at_end = λ fuel seen last sub room. exhaust_ends last (length seen);
    at_stuck = λ seen d ds last new sub room.
        absurd (
          omega (arith, no_room seen (universe targets first) d new (sub d (elem-cons_self d ds))));
    at_seen =
        λ fuel seen d ds last t old ih sub room. ih (λ x h. sub x (elem-cons_of x d ds h)) room;
    at_new = λ fuel seen d ds last rest new ih sub room. attempt_ends d (call d) rest λ c.
        ih c
          (unseen-Subset (d ∷ seen) (targets c) (universe targets first)
            (targets-Subset targets first c))
          (omega (
            arith,
            length-unseen_cons d seen (universe targets first) (sub d (elem-cons_self d ds)) new,
          ));
  }

  -- The chain always ends: whatever the targets of each class and the outcomes of the calls, it
  -- returns, raises or is cancelled, and never runs out of its fuel, which is one attempt for each
  -- deployment that it can come to.
  pub execute_chain-ends :
      (first : D) → (execute_chain targets call first).outcome ≢ Outcome.out_of_fuel
  unfolding execute_chain
  execute_chain-ends first =
      loop_induction targets call (IsFueled first) (IsFueled-rules first)
        (length (universe targets first)) [] (first ∷ []) none
        (first_Subset first (targets general ++ targets content_policy ++ targets context_window))
        (length-unseen-le [] (universe targets first))

  -- The deployments of a trace are distinct, and none of them was seen before.
  abbrev IsFresh : ℕ → List D → List D → LastError D → Trace D → Type ℓ
  IsFresh fuel seen ds last t =
      Distinct t.tried × ((x : D) → elem x t.tried ≡ true → elem x seen ≡ false)

  alone :
      (d x : D) (seen : List D) → elem d seen ≡ false → elem x (d ∷ []) ≡ true → elem x seen ≡ false
  unfolding elem
  alone d x seen new h = ground (arith, e.beq_iff d x)

  attempt-IsFresh :
      (fuel : ℕ) (seen : List D) (d : D) (a : Attempt) (rest : FailureClass → Trace D)
      → elem d seen ≡ false
      → ((c : FailureClass) → IsFresh fuel (d ∷ seen) [] none (rest c))
      → IsFresh fuel seen [] none (attempt_at targets call d a rest)
  unfolding elem
  attempt-IsFresh fuel seen d (failed c) rest new ih = (
    (ground (arith, (ih c).1 d, e.beq_iff d d), (ih c).0),
    λ x h. ground (arith, (ih c).1 x, e.beq_iff d x),
  )
  attempt-IsFresh fuel seen d (answered usd) rest new ih = ((refl, tt), λ x h. alone d x seen new h)
  attempt-IsFresh fuel seen d over_quota rest new ih = ((refl, tt), λ x h. alone d x seen new h)
  attempt-IsFresh fuel seen d cancelled rest new ih = ((refl, tt), λ x h. alone d x seen new h)
  attempt-IsFresh fuel seen d (cancelled_late usd) rest new ih =
      ((refl, tt), λ x h. alone d x seen new h)

  exhaust-IsFresh :
      (fuel : ℕ) (seen : List D) (last : LastError D) (n : ℕ)
      → IsFresh fuel seen [] last (exhaust last n)
  unfolding elem
  exhaust-IsFresh fuel seen none n = (tt, λ x h. cc)
  exhaust-IsFresh fuel seen (some (d, c)) n = (tt, λ x h. cc)

  IsFresh-rules : Rules targets call IsFresh
  unfolding elem
  IsFresh-rules = record {
    at_end = λ fuel seen last. exhaust-IsFresh fuel seen last (length seen);
    at_stuck = λ seen d ds last new. (tt, λ x h. cc);
    at_seen = λ fuel seen d ds last t old ih. ih;
    at_new = λ fuel seen d ds last rest new ih. attempt-IsFresh fuel seen d (call d) rest new ih;
  }

  -- No deployment is tried twice for a request, so none is retried after it has failed.
  pub execute_chain-Distinct : (first : D) → Distinct (execute_chain targets call first).tried
  unfolding execute_chain
  execute_chain-Distinct first =
      (loop_induction targets call IsFresh IsFresh-rules (length (universe targets first)) []
        (first ∷ []) none).0
