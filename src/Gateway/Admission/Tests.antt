-- ===== src/Gateway/Admission/Tests.antt =====
-- One permit for each tenant: a task whose call of Redis raises takes it with it.
use agent_studio.Base.{◌≡◌, refl, Bool, true, false, Option, none, some, List, [], ◌∷◌, ◌++◌}
use agent_studio.Base.Eq.{nat_eq, list_eq}
use agent_studio.Base.Text.{Text, codes}
use agent_studio.Gateway.Admission.{Config, Gate, new_gate, Reply, Event, run}

abbrev config : Config
config = record { max_concurrent_per_tenant = 1; max_concurrent_platform = 2 }

abbrev a : Text
a = codes "a"

abbrev one_raise : List Event
one_raise = Event.takes_tenant a ∷ Event.takes_platform a ∷ Event.asks_redis a Reply.raises ∷ []

abbrev ends : Option Gate → Bool
ends none = false
ends (some g) = true

-- No task of the tenant is there any more, and yet no other can begin.
stuck_tenant : run (new_gate config) (one_raise ++ (Event.takes_tenant a ∷ [])) ≡ none
unfolding run new_gate
stuck_tenant = refl

goes_on :
    ends (
      run (new_gate config) (
        Event.takes_tenant a
        ∷ Event.takes_platform a
        ∷ Event.asks_redis a (Reply.counts 1)
        ∷ Event.releases a true
        ∷ Event.takes_tenant a
        ∷ Event.gives_up a
        ∷ []))
    ≡ true
unfolding run new_gate
goes_on = refl
