-- ===== src/Gateway/DependencyBreaker/History.antt =====
-- The dependency breaker against its history: when it is open.
use agent_studio.Base.{
  ℕ, ◌+◌, ◌≡◌, ◌≢◌, true, false, some, List, [], ◌∷◌, arith, leb, if◌then◌else◌,
}
use agent_studio.Gateway.DependencyBreaker.{
  Breaker, Config, Event, fails, succeeds, probes, init, is_open, step, run,
}

-- The number of reported failures since the last success or answered probe, from `n` on.
abbrev pub failures_since : ℕ → List Event → ℕ
failures_since n [] = n
failures_since n (fails _ _ ∷ es) = failures_since (n + 1) es
failures_since n (succeeds ∷ es) = failures_since 0 es
failures_since n (probes answered _ ∷ es) = failures_since (if answered then 0 else n) es

-- A probe never leaves `True` behind, since an answered one resets the breaker.
record Counts (c : Config) (b : Breaker) (n : ℕ) : Type 0 where
  counted : b.consecutive_failures ≡ n
  same_config : b.config ≡ c
  never_proved : b.probe_ok ≢ some true

run-Counts :
    (c : Config) (b : Breaker) (n : ℕ) (es : List Event)
    → Counts c b n
    → Counts c (run b es) (failures_since n es)
unfolding run
run-Counts c b n [] h = h
run-Counts c b n (fails now later ∷ es) h =
    run-Counts c (step b (fails now later)) (n + 1) es (ground arith)
run-Counts c b n (succeeds ∷ es) h = run-Counts c (step b succeeds) 0 es (ground arith)
run-Counts c b n (probes true now ∷ es) h =
    run-Counts c (step b (probes true now)) 0 es (ground arith)
run-Counts c b n (probes false now ∷ es) h =
    run-Counts c (step b (probes false now)) n es (ground arith)

init-Counts : (c : Config) → Counts c (init c) 0
unfolding init
init-Counts c = ground arith

-- After any history the breaker is open exactly if the failures reported since the last success or
-- answered probe reach the threshold, whatever the time is: `recovery_timeout` decides nothing.
pub is_open-run :
    (c : Config) (es : List Event) (now : ℕ)
    → is_open (run (init c) es) now ≡ leb c.failure_threshold (failures_since 0 es)
unfolding is_open
is_open-run c es now = ground (arith, run-Counts c (init c) 0 es (init-Counts c))
