-- ===== src/Queue/Claims.antt =====
-- A claim of a key in backend/app/infrastructure/queue/manager.py is never given back before it is
-- over.
use agent_studio.Base.{
  ℕ, ◌<◌, ◌≡◌, ◌∙◌, refl, Bool, true, false, inl, inr, Option, none, some, List, [], ◌∷◌, arith,
  All, Bool-cases, lt→ltb,
}
use agent_studio.Base.Eq.{nat_eq, list_eq, list_beq, list_beq_iff}
use agent_studio.Base.Dict.{lookup, insert, lookup-insert}
use agent_studio.Base.Text.{Text}
use agent_studio.Queue.{
  Job, Queue, push_job, deadline, is_live, claim, enqueue, Run, unhandled, returned, raised,
  is_processed, after_run, mark_processed, process_job, work_on, work,
}
use agent_studio.Queue.Delivery.{Op, enqueues, works, steps}

-- A time before a deadline, if there is one.
abbrev pub IsBefore : Option ℕ → ℕ → Type 0
IsBefore none now = Unit
IsBefore (some d) now = now < d

abbrev pub OpBefore : Option ℕ → Op → Type 0
OpBefore d (enqueues accepts now k job) = IsBefore d now
OpBefore d (works accepts worker handler) = Unit

live_before : (d : Option ℕ) (now : ℕ) → IsBefore d now → is_live now (some d) ≡ true
live_before none now h = refl
live_before (some d) now h = lt→ltb now d h

abbrev Claimed : Text → Option ℕ → Queue → Type 0
Claimed k d q = lookup k q.seen ≡ some d

push_job-seen : (accepts : Bool) (job : Job) (q : Queue) → (push_job accepts job q).0.seen ≡ q.seen
push_job-seen true job q = refl
push_job-seen false job q = refl

claim-seen :
    (accepts : Bool) (ttl : Option ℕ) (now : ℕ) (k : Text) (job : Job) (q : Queue)
    → (claim accepts ttl now k job q).0.seen ≡ insert k (deadline now ttl) q.seen
claim-seen accepts ttl now k job q = push_job-seen accepts _ _

enqueue-Claimed :
    (accepts : Bool) (ttl : Option ℕ) (now : ℕ) (j : Option Text) (k : Text) (d : Option ℕ)
    (job : Job) (q : Queue)
    → IsBefore d now
    → Claimed k d q
    → Claimed k d (enqueue accepts ttl now j job q).0
unfolding enqueue
enqueue-Claimed accepts ttl now none k d job q b h = rw (push_job-seen accepts job q) h
enqueue-Claimed accepts ttl now (some []) k d job q b h = rw (push_job-seen accepts job q) h
enqueue-Claimed accepts ttl now (some (c ∷ j)) k d job q b h =
    elim (Bool-cases (is_live now (lookup (c ∷ j) q.seen))) [
      | inl p ↦ rw p h
      | inr p ↦ elim (Bool-cases (list_beq (c ∷ j) k)) [
        | inl e ↦
            let same = (list_beq_iff (c ∷ j) k).0 e in
            absurd (let l = live_before d now b in cc (rw (same, h) at p, l))
        | inr e ↦
            rw (p, claim-seen accepts ttl now (c ∷ j) job q)
              (lookup-insert (c ∷ j) k (deadline now ttl) q.seen ∙ rw e h)
      ]
    ]

after_run-seen :
    (accepts : Bool) (worker : ℕ) (r : Run) (job : Job) (q : Queue)
    → (after_run accepts worker r job q).0.seen ≡ q.seen
after_run-seen accepts worker unhandled job q = refl
after_run-seen accepts worker returned job q = mark_processed-seen job.idem
  where
    mark_processed-seen : (k : Option Text) → (mark_processed worker k q).seen ≡ q.seen
    mark_processed-seen none = refl
    mark_processed-seen (some []) = refl
    mark_processed-seen (some (c ∷ k)) = refl
after_run-seen accepts worker raised job q = ground arith

work_on-seen :
    (accepts : Bool) (worker : ℕ) (handler : Job → Run) (jobs : List Job) (q : Queue)
    → (work_on accepts worker handler jobs q).0.seen ≡ q.seen
unfolding process_job
work_on-seen accepts worker handler [] q = refl
work_on-seen accepts worker handler (job ∷ jobs) q =
    elim (Bool-cases (is_processed worker job.idem (record q { jobs = jobs }))) [
      | inl p ↦ rw p refl
      | inr p ↦ rw p (after_run-seen accepts worker (handler job) job (record q { jobs = jobs }))
    ]

steps-Claimed :
    (ttl : Option ℕ) (os : List Op) (k : Text) (d : Option ℕ) (q : Queue)
    → All (OpBefore d) os
    → Claimed k d q
    → Claimed k d (steps ttl os q)
unfolding work
steps-Claimed ttl [] k d q b h = h
steps-Claimed ttl (enqueues accepts now j job ∷ os) k d q (b, bs) h =
    steps-Claimed ttl os k d _ bs (enqueue-Claimed accepts ttl now j k d job q b h)
steps-Claimed ttl (works accepts worker handler ∷ os) k d q (b, bs) h =
    steps-Claimed ttl os k d _ bs (rw (work_on-seen accepts worker handler q.jobs q) h)

enqueue-claims :
    (c : ℕ) (k : Text) (accepts : Bool) (ttl : Option ℕ) (now : ℕ) (job : Job) (q : Queue)
    → is_live now (lookup (c ∷ k) q.seen) ≡ false
    → Claimed (c ∷ k) (deadline now ttl) (enqueue accepts ttl now (some (c ∷ k)) job q).0
unfolding enqueue
enqueue-claims c k accepts ttl now job q new =
    let e = (list_beq_iff (c ∷ k) (c ∷ k)).1 refl in
    rw (new, claim-seen accepts ttl now (c ∷ k) job q)
      (lookup-insert (c ∷ k) (c ∷ k) (deadline now ttl) q.seen ∙ rw e refl)

enqueue_skips :
    (c : ℕ) (k : Text) (again : Bool) (ttl : Option ℕ) (now : ℕ) (d : Option ℕ) (other : Job)
    (q : Queue)
    → IsBefore d now
    → Claimed (c ∷ k) d q
    → enqueue again ttl now (some (c ∷ k)) other q ≡ (q, true)
unfolding enqueue
enqueue_skips c k again ttl now d other q b h = rw (h, live_before d now b) refl

-- A key that is not empty and not claimed is claimed by the job that is enqueued under it, whether
-- or not the backend takes that job: until the claim is over, whatever else is enqueued or worked on
-- before, an attempt under the same key changes nothing and is answered as a success.
pub enqueue-again :
    (c : ℕ) (k : Text) (accepts again : Bool) (ttl : Option ℕ) (now later : ℕ) (job other : Job)
    (os : List Op) (q : Queue)
    → is_live now (lookup (c ∷ k) q.seen) ≡ false
    → All (OpBefore (deadline now ttl)) os
    → IsBefore (deadline now ttl) later
    → let q' = steps ttl os (enqueue accepts ttl now (some (c ∷ k)) job q).0 in
      enqueue again ttl later (some (c ∷ k)) other q' ≡ (q', true)
enqueue-again c k accepts again ttl now later job other os q new bs b =
    enqueue_skips c k again ttl later (deadline now ttl) other _ b (
      steps-Claimed ttl os (c ∷ k) (deadline now ttl) _ bs
        (enqueue-claims c k accepts ttl now job q new))
