-- ===== src/Gateway/Chain/Tests.antt =====
-- The fallback chain with three deployments, numbered.
use agent_studio.Base.{ℕ, zero, suc, ◌≡◌, ◌≢◌, refl, false, List, [], ◌∷◌}
use agent_studio.Base.Eq.{elem, unseen, nat_eq, Distinct}
use agent_studio.Gateway.Chain.{
  FailureClass, general, content_policy, context_window, Attempt, answered, failed, Effect, Outcome,
  execute_chain, reserved, key_missing, generate,
}
use agent_studio.Gateway.Chain.Order.{execute_chain-ends, execute_chain-Distinct}
use agent_studio.Gateway.Chain.Answers.{execute_chain-Explains}
use agent_studio.Gateway.Chain.Settlement.{settlements, settlements-generate}

abbrev targets : FailureClass → List ℕ
targets general = 1 ∷ 2 ∷ []
targets content_policy = 1 ∷ 2 ∷ 3 ∷ []
targets context_window = 1 ∷ 2 ∷ 4 ∷ 1 ∷ []

abbrev call : ℕ → Attempt
call zero = failed general
call (suc zero) = failed general
call (suc (suc zero)) = failed context_window
call (suc (suc (suc n))) = answered 900

abbrev good : ℕ
good = 4

run_chain :
    (execute_chain targets call 1).effects
    ≡ Effect.record_failure 1
      ∷ Effect.record_failure 2
      ∷ Effect.record_success good
      ∷ Effect.reconcile 900
      ∷ []
unfolding execute_chain elem unseen
run_chain = refl

execute_chain-ends_example : (execute_chain targets call 1).outcome ≢ Outcome.out_of_fuel
execute_chain-ends_example = execute_chain-ends targets call 1

execute_chain-Distinct_example : Distinct (execute_chain targets call 1).tried
execute_chain-Distinct_example = execute_chain-Distinct targets call 1

execute_chain-Explains_example : (execute_chain targets call 1).outcome ≢ Outcome.unconfigured
execute_chain-Explains_example = (execute_chain-Explains targets call 1).1

settlements-generate_example :
    settlements (generate targets call 1 reserved false key_missing).effects ≡ []
settlements-generate_example = settlements-generate targets call 1 false key_missing
