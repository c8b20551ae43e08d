-- ===== src/Compaction/Breaker/Trip.antt =====
-- When the compaction breaker of a thread is tripped.
use text.Mathlib.TextPositions.{eq_refl}
use agent_studio.Base.{
  ℕ, ◌+◌, ◌≡◌, ◌≢◌, refl, ap, String, true, false, ◌&&◌, none, some, List, [], ◌∷◌, arith, leb, ltb,
  length,
}
use agent_studio.Base.Eq.{string_eq}
use agent_studio.Base.Dict.{lookup, lookup-insert, lookup-remove}
use agent_studio.Compaction.Breaker.{
  Breaker, Gate, Event, fails, or_fresh, failed_gate, step, run, record_failure, record_success,
  is_tripped,
}

-- What the breaker knows of one thread.
abbrev pub gate_of : Breaker → String → Gate
gate_of b key = or_fresh (lookup key b.state)

abbrev pub fails_at : String → List ℕ → List Event
fails_at key [] = []
fails_at key (t ∷ ts) = fails key t ∷ fails_at key ts

-- One failure of a thread adds one to its count, and returns it.
gate-record_failure :
    (b : Breaker) (key : String) (t : ℕ)
    → lookup key (record_failure b key t).1.state ≡ some (failed_gate b.config t (gate_of b key))
unfolding record_failure
gate-record_failure b key t = simp (lookup-insert, eq_refl)

failures-fails_at :
    (b : Breaker) (key : String) (ts : List ℕ)
    → ((gate_of (run b (fails_at key ts)) key).failures ≡ (gate_of b key).failures + length ts)
      × ((run b (fails_at key ts)).config ≡ b.config)
unfolding run
failures-fails_at b key [] = (omega arith, refl)
failures-fails_at b key (t ∷ ts) =
    let (f, c) = failures-fails_at (record_failure b key t).1 key ts in
    let g : (gate_of (record_failure b key t).1 key).failures ≡ (gate_of b key).failures + 1 =
      ap (λ o. (or_fresh o).failures) (gate-record_failure b key t) in
    (omega arith, unfold record_failure in c)

-- The breaker after failures of one thread at `ts` and a last one at `t`.
abbrev pub failed : Breaker → String → List ℕ → ℕ → Breaker
failed b key ts t = step (run b (fails_at key ts)) (fails key t)

-- After failures at `ts` and a last one at `t`, a thread is tripped exactly if these and the
-- failures that it had before reach the limit and `recovery_timeout` has not passed since `t`.
pub is_tripped-failed :
    (b : Breaker) (key : String) (ts : List ℕ) (t now : ℕ)
    → (is_tripped (failed b key ts t) key now).0 ≡ (
        leb b.config.max_failures ((gate_of b key).failures + length ts + 1)
        && ltb now (t + b.config.recovery_timeout))
unfolding is_tripped step
is_tripped-failed b key ts t now =
    let b' = run b (fails_at key ts) in
    ground (
      arith,
      failures-fails_at b key ts,
      lookup-insert key key (failed_gate b'.config t (gate_of b' key)) b'.state,
      eq_refl key,
    )

-- A successful compaction, and a question after the time has passed, forget the failures of the
-- thread; a question before that changes nothing.
pub forgets :
    (b : Breaker) (key : String) (now : ℕ)
    → (lookup key (record_success b key).state ≡ none)
      × ((is_tripped b key now).0 ≡ true → (is_tripped b key now).1 ≡ b)
      × ((is_tripped b key now).0 ≡ false
          → ((gate_of (is_tripped b key now).1 key).tripped_at ≡ none)
            × ((gate_of b key).tripped_at ≢ none
                → lookup key (is_tripped b key now).1.state ≡ none))
unfolding is_tripped record_success
forgets b key now = ground (arith, lookup-remove key key b.state, eq_refl key)
