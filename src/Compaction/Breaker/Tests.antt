-- ===== src/Compaction/Breaker/Tests.antt =====
-- The compaction breaker at concrete histories.
use agent_studio.Base.{List, [], ◌∷◌}
use agent_studio.Base.Eq.{string_eq}
use agent_studio.Compaction.Breaker.{Breaker, Event, fails, succeeds, asks, default_config, init}

abbrev fresh : Breaker
fresh = init default_config

abbrev two_threads : List Event
two_threads = fails "a" 1 ∷ fails "b" 2 ∷ fails "a" 3 ∷ asks "b" 4 ∷ succeeds "b" ∷ fails "a" 5 ∷ []
