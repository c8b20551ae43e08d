-- ===== src/Gateway/Admission.antt =====
-- `ConcurrencyGate` of backend/app/gateway/admission.py. Tasks change the gate only between their
-- awaits, so a run is a list of events, each one such change by some task. What Redis replies to the
-- INCR of a slot is part of the event. A semaphore is its permits; the tasks that hold them are
-- counted by the stage of `admit` that they have reached.
pub mod Permits
mod Tests
use agent_studio.Base.{
  ℕ, zero, suc, ◌+◌, ◌≡◌, Bool, true, false, Option, none, some, List, [], ◌∷◌, ltb, leb,
  if◌then◌else◌,
}
use agent_studio.Base.Eq.{nat_eq, list_eq}
use agent_studio.Base.Dict.{Dict, lookup, insert}
use agent_studio.Base.Text.{Text}

pub record Config : Type 0 where
  pub max_concurrent_per_tenant : ℕ
  pub max_concurrent_platform : ℕ

-- A semaphore with the tasks that hold a permit of it: those that wait for the next stage, those
-- that were admitted, and those that ended without giving it back.
pub record Semaphore : Type 0 where
  pub permits : ℕ
  pub waiting : ℕ
  pub asking : ℕ
  pub admitted : ℕ
  pub lost : ℕ

abbrev pub new_semaphore : ℕ → Semaphore
new_semaphore n = record { permits = n; waiting = 0; asking = 0; admitted = 0; lost = 0 }

pub record Gate : Type 0 where
  pub config : Config
  pub platform : Semaphore
  pub tenants : Dict Text Semaphore

unfoldable pub new_gate : Config → Gate
new_gate c = record { config = c; platform = new_semaphore c.max_concurrent_platform; tenants = [] }

-- What Redis does with a slot: there is no client, it counts the slot, or the call raises.
pub data Reply : Type 0 where
  no_client raises : Reply
  counts : ℕ → Reply

pub data Event : Type 0 where
  -- `tenant_sem.acquire()` is done
  takes_tenant : Text → Event
  -- `_platform_semaphore.acquire()` is done, or its wait has timed out
  takes_platform : Text → Event
  gives_up : Text → Event
  -- the task is cancelled in that wait, which is no timeout
  is_cancelled : Text → Event
  -- `_acquire_redis_slot` has returned or raised
  asks_redis : Text → Reply → Event
  -- the first `AdmissionHandle.release` of a handle, whose call of Redis returns or raises; a later
  -- one returns at once
  releases : Text → Bool → Event

-- `_tenant_semaphore`
unfoldable pub tenant_semaphore : Gate → Text → Semaphore
unfolding lookup
tenant_semaphore g k = elim (lookup k g.tenants) [
  | none ↦ new_semaphore g.config.max_concurrent_per_tenant
  | some s ↦ s
]

-- One task less at a stage; `none` if no task is there, when the event cannot happen.
abbrev pub take_permit : Semaphore → Option Semaphore
take_permit s = elim s.permits [
  | zero ↦ none
  | suc n ↦ some (record s { permits = n; waiting = s.waiting + 1 })
]

abbrev pub drop_waiting : Semaphore → Option Semaphore
drop_waiting s = elim s.waiting [
  | zero ↦ none
  | suc n ↦ some (record s { permits = s.permits + 1; waiting = n })
]

abbrev pub lose_waiting : Semaphore → Option Semaphore
lose_waiting s = elim s.waiting [
  | zero ↦ none
  | suc n ↦ some (record s { waiting = n; lost = s.lost + 1 })
]

abbrev pub ask : Semaphore → Option Semaphore
ask s = elim s.waiting [
  | zero ↦ none
  | suc n ↦ some (record s { waiting = n; asking = s.asking + 1 })
]

-- The end of the question: whether the slot is granted, refused, or lost in an exception.
pub data Verdict : Type 0 where
  granted refused failed : Verdict

unfoldable pub verdict : Config → Reply → Verdict
verdict c no_client = granted
verdict c raises = failed
verdict c (counts n) = if ltb c.max_concurrent_per_tenant n then refused else granted

abbrev pub settle_at : Verdict → ℕ → Semaphore → Semaphore
settle_at granted n s = record s { asking = n; admitted = s.admitted + 1 }
settle_at refused n s = record s { asking = n; permits = s.permits + 1 }
settle_at failed n s = record s { asking = n; lost = s.lost + 1 }

abbrev pub settle : Verdict → Semaphore → Option Semaphore
settle v s = elim s.asking [ zero ↦ none | suc n ↦ some (settle_at v n s) ]

-- `release`: a call of Redis that raises leaves both semaphores as they are.
abbrev pub leave_at : Bool → ℕ → Semaphore → Semaphore
leave_at true n s = record s { admitted = n; permits = s.permits + 1 }
leave_at false n s = record s { admitted = n; lost = s.lost + 1 }

abbrev pub leave : Bool → Semaphore → Option Semaphore
leave ok s = elim s.admitted [ zero ↦ none | suc n ↦ some (leave_at ok n s) ]

-- The new semaphore of a tenant put into the gate, and then that of the platform.
abbrev pub set_tenant : Gate → Text → Option Semaphore → Option Gate
set_tenant g k none = none
set_tenant g k (some s) = some (record g { tenants = insert k s g.tenants })

abbrev pub set_platform : Option Semaphore → Option Gate → Option Gate
set_platform none o = none
set_platform (some p) none = none
set_platform (some p) (some g) = some (record g { platform = p })

-- The platform's permit is taken and the task asks at once.
abbrev pub take_and_ask : Semaphore → Option Semaphore
take_and_ask s = elim s.permits [
  | zero ↦ none
  | suc n ↦ some (record s { permits = n; asking = s.asking + 1 })
]

unfoldable pub step : Gate → Event → Option Gate
unfolding tenant_semaphore verdict insert
step g (takes_tenant k) = set_tenant g k (take_permit (tenant_semaphore g k))
step g (gives_up k) = set_tenant g k (drop_waiting (tenant_semaphore g k))
step g (is_cancelled k) = set_tenant g k (lose_waiting (tenant_semaphore g k))
step g (takes_platform k) =
    set_platform (take_and_ask g.platform) (set_tenant g k (ask (tenant_semaphore g k)))
step g (asks_redis k r) =
    let v = verdict g.config r in
    set_platform (settle v g.platform) (set_tenant g k (settle v (tenant_semaphore g k)))
step g (releases k ok) =
    set_platform (leave ok g.platform) (set_tenant g k (leave ok (tenant_semaphore g k)))

unfoldable pub run : Gate → List Event → Option Gate
unfolding step
run g [] = some g
run g (e ∷ es) = elim (step g e) [ none ↦ none | some g1 ↦ run g1 es ]
