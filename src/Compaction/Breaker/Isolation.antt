-- ===== src/Compaction/Breaker/Isolation.antt =====
-- The compaction breakers of different threads do not affect one another.
use text.Mathlib.TextPositions.{eq_refl}
use agent_studio.Base.{
  ◌≡◌, refl, String, true, false, List, [], ◌∷◌, arith, if◌then◌else◌, eq_iff, str_eq, Bool-cases,
  inl, inr, ◌∙◌,
}
use agent_studio.Base.Eq.{string_eq}
use agent_studio.Base.Dict.{lookup, lookup-insert, lookup-remove}
use agent_studio.Compaction.Breaker.{Breaker, Config, Event, fails, succeeds, asks, init, step, run}

abbrev key_of : Event → String
key_of (fails key _) = key
key_of (succeeds key) = key
key_of (asks key _) = key

-- The events of one thread, in order.
abbrev pub events_of : String → List Event → List Event
events_of j [] = []
events_of j (e ∷ es) = if str_eq (key_of e) j then e ∷ events_of j es else events_of j es

step_other :
    (b : Breaker) (j : String) (e : Event)
    → str_eq (key_of e) j ≡ false
    → (lookup j (step b e).state ≡ lookup j b.state) × ((step b e).config ≡ b.config)
unfolding step
step_other b j (fails key t) h = (simp lookup-insert (rw h), refl)
step_other b j (succeeds key) h = (simp lookup-remove (rw h), refl)
step_other b j (asks key t) h = ground (arith, lookup-remove key j b.state)

step_same :
    (a b : Breaker) (j : String) (e : Event)
    → str_eq (key_of e) j ≡ true
    → a.config ≡ b.config
    → lookup j a.state ≡ lookup j b.state
    → (lookup j (step a e).state ≡ lookup j (step b e).state)
      × ((step a e).config ≡ (step b e).config)
unfolding step
step_same a b j (fails key t) h c l =
    let e : key ≡ j = (eq_iff key j).0 h in rw e (simp (lookup-insert, eq_refl) (cc), c)
step_same a b j (succeeds key) h c l = (simp (lookup-remove, h), c)
step_same a b j (asks key t) h c l =
    let e : key ≡ j = (eq_iff key j).0 h in
    ground (arith, eq_refl j, lookup-remove j j a.state, lookup-remove j j b.state)

run_together :
    (a b : Breaker) (j : String) (es : List Event)
    → a.config ≡ b.config
    → lookup j a.state ≡ lookup j b.state
    → lookup j (run a es).state ≡ lookup j (run b (events_of j es)).state
unfolding run
run_together a b j [] c l = l
run_together a b j (e ∷ es) c l = elim (Bool-cases (str_eq (key_of e) j)) [
  | inl same ↦
      let (l', c') = step_same a b j e same c l in
      rw same (run_together (step a e) (step b e) j es c' l')
  | inr other ↦
      let (l', c') = step_other a j e other in
      rw other (run_together (step a e) b j es (c' ∙ c) (l' ∙ l))
]

-- What the breaker knows of a thread after any history, of all threads, is what it would know had
-- only the events of that thread happened.
pub lookup-run :
    (c : Config) (j : String) (es : List Event)
    → lookup j (run (init c) es).state ≡ lookup j (run (init c) (events_of j es)).state
lookup-run c j es = run_together (init c) (init c) j es refl refl
