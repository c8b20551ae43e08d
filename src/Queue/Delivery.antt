-- ===== src/Queue/Delivery.antt =====
-- What backend/app/infrastructure/queue/manager.py does with a job.
use agent_studio.Base.{
  ℕ, zero, suc, ◌+◌, ◌≡◌, ◌∙◌, ap, refl, Bool, true, false, inl, inr, Option, none, some, List, [],
  ◌∷◌, ◌++◌, arith, ltb, Bool-cases, if◌then◌else◌,
}
use agent_studio.Base.Eq.{nat_eq, list_eq, pair_eq, elem, elem-cons, elem-nil, Distinct}
use agent_studio.Base.Dict.{Dict}
use agent_studio.Base.Text.{Text}
use agent_studio.Queue.{
  Job, Queue, new_queue, enqueue, Run, unhandled, returned, raised, is_processed, after_run,
  mark_processed, process_job, work_on, work,
}

-- What is done to a queue: a job is enqueued, under a key or none, or a worker takes one.
pub data Op : Type 0 where
  enqueues : (accepts : Bool) (now : ℕ) → Option Text → Job → Op
  works : (accepts : Bool) (worker : ℕ) → (Job → Run) → Op

abbrev pub step : Option ℕ → Op → Queue → Queue
step ttl (enqueues accepts now k job) q = (enqueue accepts ttl now k job q).0
step ttl (works accepts worker handler) q = (work accepts worker handler q).0

abbrev pub steps : Option ℕ → List Op → Queue → Queue
steps ttl [] q = q
steps ttl (o ∷ os) q = steps ttl os (step ttl o q)

-- The key of a job that a worker runs with success, if it has one.
abbrev key_of : ℕ → Option Text → List (ℕ × Text)
key_of worker none = []
key_of worker (some []) = []
key_of worker (some (c ∷ k)) = (worker, c ∷ k) ∷ []

abbrev success_of : ℕ → Run → Option Text → List (ℕ × Text)
success_of worker returned k = key_of worker k
success_of worker _ k = []

-- The handler that `process_job` ran, if it ran one and that returned.
abbrev pub success_on : ℕ → Option (Job × Option Run) → List (ℕ × Text)
success_on worker none = []
success_on worker (some (job, none)) = []
success_on worker (some (job, some r)) = success_of worker r job.idem

abbrev pub successes_of : Op → Queue → List (ℕ × Text)
successes_of (enqueues accepts now k job) q = []
successes_of (works accepts worker handler) q = success_on worker (work accepts worker handler q).1

-- The workers and keys of all successes, the last one first.
unfoldable pub successes : Option ℕ → List Op → Queue → List (ℕ × Text) → List (ℕ × Text)
successes ttl [] q done = done
successes ttl (o ∷ os) q done = successes ttl os (step ttl o q) (successes_of o q ++ done)

-- Every success is remembered.
abbrev Remembers : List (ℕ × Text) → Queue → Type 0
Remembers done q = (k : ℕ × Text) → elem k done ≡ true → elem k q.processed ≡ true

enqueue-processed :
    (accepts : Bool) (ttl : Option ℕ) (now : ℕ) (k : Option Text) (job : Job) (q : Queue)
    → (enqueue accepts ttl now k job q).0.processed ≡ q.processed
unfolding enqueue
enqueue-processed accepts ttl now none job q = ground arith
enqueue-processed accepts ttl now (some []) job q = ground arith
enqueue-processed accepts ttl now (some (c ∷ k)) job q = ground arith

mark_processed-processed :
    (worker : ℕ) (k : Option Text) (q : Queue)
    → (mark_processed worker k q).processed ≡ key_of worker k ++ q.processed
mark_processed-processed worker none q = refl
mark_processed-processed worker (some []) q = refl
mark_processed-processed worker (some (c ∷ k)) q = refl

-- A success adds its key, and nothing else changes what is remembered.
after_run-processed :
    (accepts : Bool) (worker : ℕ) (r : Run) (job : Job) (q : Queue)
    → (after_run accepts worker r job q).0.processed ≡ success_of worker r job.idem ++ q.processed
after_run-processed accepts worker unhandled job q = refl
after_run-processed accepts worker returned job q = mark_processed-processed worker job.idem q
after_run-processed accepts worker raised job q = ground arith

abbrev IsSound : List (ℕ × Text) → Queue → Type 0
IsSound done q = Distinct done × Remembers done q

success-IsSound :
    (worker : ℕ) (r : Run) (k : Option Text) (done : List (ℕ × Text)) (q : Queue)
    → is_processed worker k q ≡ false
    → IsSound done q
    → Distinct (success_of worker r k ++ done)
      × ((j : ℕ × Text)
          → elem j (success_of worker r k ++ done) ≡ true
          → elem j (success_of worker r k ++ q.processed) ≡ true)
unfolding is_processed
success-IsSound worker unhandled k done q new h = h
success-IsSound worker raised k done q new h = h
success-IsSound worker returned none done q new h = h
success-IsSound worker returned (some []) done q new h = h
success-IsSound worker returned (some (c ∷ k)) done q new (d, m) = (
  (ground (arith, m (worker, c ∷ k)), d),
  λ j p.
      ground
        (arith, m j, elem-cons j (worker, c ∷ k) done, elem-cons j (worker, c ∷ k) q.processed),
)

is_processed-jobs :
    (worker : ℕ) (k : Option Text) (jobs : List Job) (q : Queue)
    → is_processed worker k (record q { jobs = jobs }) ≡ is_processed worker k q
unfolding is_processed
is_processed-jobs worker none jobs q = refl
is_processed-jobs worker (some []) jobs q = refl
is_processed-jobs worker (some (c ∷ k)) jobs q = refl

work-IsSound :
    (accepts : Bool) (worker : ℕ) (handler : Job → Run) (jobs : List Job) (q : Queue)
    (done : List (ℕ × Text))
    → IsSound done q
    → let (q', run) = work_on accepts worker handler jobs q in
      IsSound (success_on worker run ++ done) q'
unfolding process_job
work-IsSound accepts worker handler [] q done h = h
work-IsSound accepts worker handler (job ∷ jobs) q done h =
    elim (Bool-cases (is_processed worker job.idem q)) [
      | inl p ↦ rw (is_processed-jobs worker job.idem jobs q, p) h
      | inr p ↦
          let (d, m) = success-IsSound worker (handler job) job.idem done q p h in
          rw (is_processed-jobs worker job.idem jobs q, p)
            (
              d,
              λ k e.
                  rw
                    (after_run-processed accepts worker (handler job) job
                      (record q { jobs = jobs }))
                    (m k e),
            )
    ]

step-IsSound :
    (ttl : Option ℕ) (o : Op) (q : Queue) (done : List (ℕ × Text))
    → IsSound done q
    → IsSound (successes_of o q ++ done) (step ttl o q)
unfolding work
step-IsSound ttl (enqueues accepts now k job) q done (d, m) =
    (d, λ j p. rw (enqueue-processed accepts ttl now k job q) (m j p))
step-IsSound ttl (works accepts worker handler) q done h =
    work-IsSound accepts worker handler q.jobs q done h

successes-Distinct_from :
    (ttl : Option ℕ) (os : List Op) (q : Queue) (done : List (ℕ × Text))
    → IsSound done q
    → Distinct (successes ttl os q done)
unfolding successes
successes-Distinct_from ttl [] q done h = h.0
successes-Distinct_from ttl (o ∷ os) q done h =
    successes-Distinct_from ttl os (step ttl o q) (successes_of o q ++ done)
      (step-IsSound ttl o q done h)

-- Whatever is enqueued and processed, by whatever workers and with whatever failures, no worker runs
-- a handler with success for two jobs of one key.
pub successes-Distinct : (ttl : Option ℕ) (os : List Op) → Distinct (successes ttl os new_queue [])
successes-Distinct ttl os =
    successes-Distinct_from ttl os new_queue [] (tt, λ k p. let q = elem-nil k in absurd (cc))

-- A job whose handler always raises.
abbrev pub always_raises : Job → Run
always_raises job = raised

abbrev pub rounds : ℕ → ℕ → Queue → Queue
rounds worker zero q = q
rounds worker (suc n) q = rounds worker n (work true worker always_raises q).0

work-raised :
    (worker : ℕ) (job : Job) (dead : List Job) (seen : Dict Text (Option ℕ))
    (processed : List (ℕ × Text))
    → is_processed worker job.idem
        (record { jobs = []; seen = seen; processed = processed; dead = dead })
      ≡ false
    → (work true worker always_raises
        (record { jobs = job ∷ []; seen = seen; processed = processed; dead = dead })).0
      ≡ (if ltb (suc job.retries) job.max_retries
          then record {
            jobs = record job { retries = suc job.retries } ∷ [];
            seen = seen;
            processed = processed;
            dead = dead;
          }
          else record {
            jobs = [];
            seen = seen;
            processed = processed;
            dead = dead ++ (record job { retries = suc job.retries } ∷ []);
          })
unfolding work process_job
work-raised worker job dead seen processed h = rw h refl

-- A job that stands alone in the queue, is not processed yet, has n retries left and always raises is
-- run n + 1 times by a worker, if the backend takes it back each time, and is then in the dead
-- letters, with the number of its runs, and nowhere else.
pub rounds-raised :
    (worker n : ℕ) (job : Job) (dead : List Job) (seen : Dict Text (Option ℕ))
    (processed : List (ℕ × Text))
    → is_processed worker job.idem
        (record { jobs = []; seen = seen; processed = processed; dead = dead })
      ≡ false
    → job.max_retries ≡ job.retries + suc n
    → rounds worker
        (suc n)
        (record { jobs = job ∷ []; seen = seen; processed = processed; dead = dead })
      ≡ record {
        jobs = [];
        seen = seen;
        processed = processed;
        dead = dead ++ (record job { retries = job.max_retries } ∷ []);
      }
rounds-raised worker zero job dead seen processed h left =
    let last : ltb (suc job.retries) job.max_retries ≡ false = ground arith in
    let used : suc job.retries ≡ job.max_retries = omega arith in
    work-raised worker job dead seen processed h ∙ rw (last, used) refl
rounds-raised worker (suc n) job dead seen processed h left =
    let more : ltb (suc job.retries) job.max_retries ≡ true = ground arith in
    ap (λ q. rounds worker (suc n) q) (work-raised worker job dead seen processed h ∙ rw more refl)
    ∙ rounds-raised worker n (record job { retries = suc job.retries }) dead seen processed h
        (omega arith)
