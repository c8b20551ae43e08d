-- ===== src/Gateway/Admission/Permits.antt =====
-- No permit of a semaphore is made or destroyed, except for those that a failing Redis loses.
use agent_studio.Base.{ℕ, ◌+◌, ◌≡◌, Bool, true, false, Option, none, some, List, [], ◌∷◌}
use agent_studio.Base.Eq.{nat_eq, list_eq}
use agent_studio.Base.Text.{Text}
use agent_studio.Gateway.Admission.{
  Config, Semaphore, Gate, Event, tenant_semaphore, Verdict, failed, verdict,
}

abbrev pub total : Semaphore → ℕ
total s = s.permits + s.waiting + s.asking + s.admitted + s.lost

-- Every permit is kept, and `n` more are lost.
abbrev pub Keeps : ℕ → Semaphore → Option Semaphore → Type 0
Keeps n s none = Unit
Keeps n s (some t) = (total t ≡ total s) × (t.lost ≡ s.lost + n)

-- What an answer loses.
abbrev pub loses : Verdict → ℕ
loses failed = 1
loses _ = 0

abbrev pub loses_if_not : Bool → ℕ
loses_if_not true = 0
loses_if_not false = 1

-- The permits of the gate, when `n` of them were lost.
abbrev pub IsBalanced : Config → ℕ → Gate → Type 0
IsBalanced c n g =
    (g.config ≡ c)
    × (total g.platform ≡ c.max_concurrent_platform)
    × (g.platform.lost ≡ n)
    × ((k : Text) → total (tenant_semaphore g k) ≡ c.max_concurrent_per_tenant)

abbrev pub AllBalanced : Config → ℕ → Option Gate → Type 0
AllBalanced c n none = Unit
AllBalanced c n (some g) = IsBalanced c n g

-- How many permits of the platform an event loses.
unfoldable pub loss : Config → Event → ℕ
loss c (Event.takes_tenant k) = 0
loss c (Event.gives_up k) = 0
loss c (Event.is_cancelled k) = 0
loss c (Event.takes_platform k) = 0
loss c (Event.asks_redis k r) = loses (verdict c r)
loss c (Event.releases k ok) = loses_if_not ok

unfoldable pub losses : Config → List Event → ℕ
unfolding loss
losses c [] = 0
losses c (e ∷ es) = loss c e + losses c es
