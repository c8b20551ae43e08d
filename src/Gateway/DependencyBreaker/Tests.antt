-- ===== src/Gateway/DependencyBreaker/Tests.antt =====
-- The dependency breaker at concrete histories.
use agent_studio.Base.{◌≡◌, refl, true, false, List, [], ◌∷◌, ◌++◌}
use agent_studio.Gateway.DependencyBreaker.{
  Event, fails, probes, default_config, init, is_open, run,
}
use agent_studio.Gateway.DependencyBreaker.History.{is_open-run}

abbrev outage : List Event
outage = fails 1 1 ∷ fails 2 2 ∷ fails 3 3 ∷ fails 4 4 ∷ fails 5 5 ∷ probes false 60006 ∷ []

-- Far beyond the recovery timeout.
is_open-run_example : is_open (run (init default_config) outage) 900000 ≡ true
is_open-run_example = is_open-run default_config outage 900000

answered : is_open (run (init default_config) (outage ++ (probes true 60007 ∷ []))) 60008 ≡ false
unfolding run init is_open
answered = refl
