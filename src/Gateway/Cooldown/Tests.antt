-- ===== src/Gateway/Cooldown/Tests.antt =====
-- Counters that are a function, and three failures of a deployment.
use agent_studio.Base.{◌≡◌, refl, true, Option, none, some, [], ◌∷◌, if◌then◌else◌}
use agent_studio.Base.Eq.{nat_eq, list_eq, list_beq}
use agent_studio.Base.Text.{Text, codes}
use agent_studio.Gateway.Cooldown.{
  Entry, CounterStore, Config, counted, alive, with_deadline, cooldown_ttl,
}
use agent_studio.Gateway.Cooldown.Window.{fail_all}

abbrev Store : Type 0
Store = Text → Option Entry

abbrev functions : CounterStore Store
functions = record {
  entry = λ j s. s j;
  incr = λ k now s j. if list_beq k j then some (counted (alive now (s k))) else s j;
  pexpire = λ k d s j. if list_beq k j then with_deadline d (s k) else s j;
  delete = λ k s j. if list_beq k j then none else s j;
  entry-incr = λ k j now s. refl;
  entry-pexpire = λ k j d s. refl;
  entry-delete = λ k j s. refl;
}

abbrev config : Config
config = record { prefix = codes "c:"; allowed_fails = 3; cooldown_ms = 1000 }

abbrev empty : Store
empty k = none

abbrev after_three : Store
after_three = fail_all functions config (codes "openai") (codes "m") (5 ∷ 6 ∷ 7 ∷ []) empty

ttl_after_three :
    cooldown_ttl functions config true (codes "OpenAI ") (codes "m") 105 after_three ≡ some 900
unfolding cooldown_ttl fail_all
ttl_after_three = refl
