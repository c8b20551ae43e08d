-- ===== src/Queue.antt =====
-- QueueManager of backend/app/infrastructure/queue/manager.py. Jobs stand in one queue, first in,
-- first out; priorities and the times of scheduled jobs are left out. A claim of a key lasts for
-- `idempotency_ttl` milliseconds in Redis, and as long as the manager without one, in the memory of the
-- process. Which keys are processed is known to each process alone, here a worker. `accepts` says
-- whether the backend of the queue takes a job, which the memory of the process always does; a claim
-- and a dead letter are always stored.
pub mod Delivery
pub mod Claims
mod Tests
use agent_studio.Base.{
  ℕ, suc, ◌+◌, Bool, true, false, Option, none, some, List, [], ◌∷◌, ◌++◌, ltb, take, drop, length,
  if◌then◌else◌,
}
use agent_studio.Base.Eq.{nat_eq, list_eq, pair_eq, elem}
use agent_studio.Base.Dict.{Dict, lookup, insert}
use agent_studio.Base.Text.{Text}

pub record Job : Type 0 where
  pub id : ℕ
  pub type : Text
  pub idem : Option Text
  pub retries : ℕ
  pub max_retries : ℕ

pub record Queue : Type 0 where
  pub jobs : List Job
  -- the deadlines of the claims; none is one that does not expire
  pub seen : Dict Text (Option ℕ)
  pub processed : List (ℕ × Text)
  pub dead : List Job

abbrev pub new_queue : Queue
new_queue = record { jobs = []; seen = []; processed = []; dead = [] }

-- `enqueue` without a key
abbrev pub push_job : Bool → Job → Queue → Queue × Bool
push_job accepts job q = (if accepts then record q { jobs = q.jobs ++ (job ∷ []) } else q, accepts)

abbrev pub deadline : ℕ → Option ℕ → Option ℕ
deadline now none = none
deadline now (some ttl) = some (now + ttl)

-- whether a claim is there and is not over
abbrev pub is_live : ℕ → Option (Option ℕ) → Bool
is_live now none = false
is_live now (some none) = true
is_live now (some (some d)) = ltb now d

-- The key is claimed before the job is given to the backend.
abbrev pub claim : Bool → Option ℕ → ℕ → Text → Job → Queue → Queue × Bool
claim accepts ttl now k job q =
    push_job accepts (record job { idem = some k })
      (record q { seen = insert k (deadline now ttl) q.seen })

-- `enqueue`, with its answer
unfoldable pub enqueue : Bool → Option ℕ → ℕ → Option Text → Job → Queue → Queue × Bool
unfolding lookup insert
enqueue accepts ttl now none job q = push_job accepts job q
enqueue accepts ttl now (some []) job q = push_job accepts job q
enqueue accepts ttl now (some (c ∷ k)) job q =
    if is_live now (lookup (c ∷ k) q.seen) then (q, true) else claim accepts ttl now (c ∷ k) job q

-- How the handler of a job's type ends: there is none, it returns, or it raises.
pub data Run : Type 0 where
  unhandled returned raised : Run

-- `_idem in self._idem_processed`
unfoldable pub is_processed : ℕ → Option Text → Queue → Bool
unfolding elem
is_processed worker none q = false
is_processed worker (some []) q = false
is_processed worker (some (c ∷ k)) q = elem (worker, c ∷ k) q.processed

abbrev pub send_to_dead_letter : Job → Queue → Queue
send_to_dead_letter job q = record q { dead = q.dead ++ (job ∷ []) }

abbrev pub mark_processed : ℕ → Option Text → Queue → Queue
mark_processed worker none q = q
mark_processed worker (some []) q = q
mark_processed worker (some (c ∷ k)) q = record q { processed = (worker, c ∷ k) ∷ q.processed }

-- What follows the run of a handler; a job that failed is pushed again, as long as it has retries.
abbrev pub after_run : Bool → ℕ → Run → Job → Queue → Queue × Bool
after_run accepts worker unhandled job q = (send_to_dead_letter job q, false)
after_run accepts worker returned job q = (mark_processed worker job.idem q, true)
after_run accepts worker raised job q =
    let job' = record job { retries = suc job.retries } in
    (
      if ltb job'.retries job.max_retries
          then (push_job accepts job' q).0
          else send_to_dead_letter job' q,
      false,
    )

-- What `process_job` does: the queue, its answer, and how the handler ended, if it got that far.
pub record Processed : Type 0 where
  pub queue : Queue
  pub answer : Bool
  pub run : Option Run

abbrev pub handled : Run → Queue × Bool → Processed
handled r (q, answer) = record { queue = q; answer = answer; run = some r }

unfoldable pub process_job : Bool → ℕ → (Job → Run) → Job → Queue → Processed
unfolding is_processed
process_job accepts worker handler job q =
    if is_processed worker job.idem q
    then record { queue = q; answer = true; run = none }
    else handled (handler job) (after_run accepts worker (handler job) job q)

-- One round of `process_loop`: take a job, if there is one, and process it. The job is listed with
-- what was done.
abbrev pub work_on : Bool → ℕ → (Job → Run) → List Job → Queue → Queue × Option (Job × Option Run)
work_on accepts worker handler [] q = (q, none)
work_on accepts worker handler (job ∷ jobs) q =
    let p = process_job accepts worker handler job (record q { jobs = jobs }) in
    (p.queue, some (job, p.run))

unfoldable pub work : Bool → ℕ → (Job → Run) → Queue → Queue × Option (Job × Option Run)
unfolding process_job
work accepts worker handler q = work_on accepts worker handler q.jobs q

-- `drain_dead_letter` without a type
unfoldable pub drain_dead_letter : ℕ → Queue → List Job × Queue
drain_dead_letter limit q = (take limit q.dead, record q { dead = drop limit q.dead })
