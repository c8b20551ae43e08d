-- ===== src/Queue/Tests.antt =====
-- A queue with one job under a key, refused by the backend the first time.
use agent_studio.Base.{ℕ, ◌≡◌, refl, true, false, Option, none, some, List, [], ◌∷◌, arith}
use agent_studio.Base.Dict.{lookup, insert}
use agent_studio.Base.Eq.{list_eq, nat_eq, pair_eq, Distinct, elem}
use agent_studio.Base.Text.{Text, codes}
use agent_studio.Queue.{
  Job, Queue, new_queue, enqueue, is_processed, returned, raised, work, process_job,
}
use agent_studio.Queue.Delivery.{
  Op, enqueues, works, steps, successes, successes-Distinct, rounds, rounds-raised,
}
use agent_studio.Queue.Claims.{enqueue-again}

abbrev job : Job
job = record { id = 1; type = codes "webhook.deliver"; idem = none; retries = 0; max_retries = 3 }

abbrev key : Text
key = codes "w:1"

abbrev day : Option ℕ
day = some 86400000

abbrev refused : Queue
refused = (enqueue false day 0 (some key) job new_queue).0

-- The backend refuses the job, the caller tries again and is told that all is well, and no job is
-- in the queue, until the claim is over.
job_lost :
    (enqueue false day 0 (some key) job new_queue).1 ≡ false
    × ((enqueue true day 1000 (some key) job refused).1 ≡ true)
    × ((enqueue true day 1000 (some key) job refused).0.jobs ≡ [])
    × ((enqueue true day 86400000 (some key) job refused).0.jobs
        ≡ record job { idem = some key } ∷ [])
unfolding enqueue lookup insert
job_lost = (refl, refl, refl, refl)

enqueue-again_example :
    let q =
      steps day
        (works true 1 (λ j. returned) ∷ enqueues true 70 none job ∷ [])
        (enqueue true day 0 (some key) job new_queue).0 in
    enqueue true day 1000 (some key) job q ≡ (q, true)
unfolding lookup
enqueue-again_example =
    enqueue-again 119 (codes ":1") true true day 0 1000 job job
      (works true 1 (λ j. returned) ∷ enqueues true 70 none job ∷ []) new_queue refl
      (tt, (omega arith, tt)) (omega arith)

abbrev ops : List Op
ops =
    enqueues true 0 (some key) job
    ∷ works true 1 (λ j. raised)
    ∷ works true 1 (λ j. returned)
    ∷ enqueues true 90000000 (some key) job
    ∷ works true 1 (λ j. returned)
    ∷ enqueues true 180000000 (some key) job
    ∷ works true 2 (λ j. returned)
    ∷ []

-- The second job of the key is skipped by the worker that has run the first, and the third is run by
-- another one.
two_successes : successes day ops new_queue [] ≡ (2, key) ∷ (1, key) ∷ []
unfolding successes enqueue work process_job is_processed lookup insert elem
two_successes = refl

successes-Distinct_example : Distinct (successes day ops new_queue [])
successes-Distinct_example = successes-Distinct day ops

rounds-raised_example :
    rounds 1 3 (record { jobs = job ∷ []; seen = []; processed = []; dead = [] })
    ≡ record { jobs = []; seen = []; processed = []; dead = record job { retries = 3 } ∷ [] }
unfolding is_processed
rounds-raised_example = rounds-raised 1 2 job [] [] [] refl refl
