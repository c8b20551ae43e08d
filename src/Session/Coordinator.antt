-- ===== src/Session/Coordinator.antt =====
-- ThreadCoordinator of backend/app/session/coordinator.py, for one thread. A task is known by its
-- token; a process has a lock of its own, and the processes share a key of Redis with a deadline.
-- Times are in milliseconds.
pub mod Keeps
pub mod Exclusion
pub mod Cancelled
mod Tests
use agent_studio.Base.{
  ℕ, ◌+◌, ◌≤◌, ◌≡◌, Bool, true, false, not, ◌&&◌, Option, none, some, List, [], ◌∷◌, ltb, ◌==◌,
  is_some, if◌then◌else◌,
}

-- The value of the key and its deadline.
abbrev pub Lock : Type 0
Lock = Option (ℕ × ℕ)

-- whether the key has this value
abbrev owned : ℕ → ℕ → Lock → Bool
owned now token none = false
owned now token (some (t, deadline)) = ltb now deadline && t == token

abbrev pub is_taken : ℕ → Lock → Bool
is_taken now none = false
is_taken now (some (t, deadline)) = ltb now deadline

-- `SET key token NX PX lease`, and whether it did
unfoldable pub set_nx : ℕ → ℕ → ℕ → Lock → Lock × Bool
set_nx lease now token lock =
    if is_taken now lock then (lock, false) else (some (token, now + lease), true)

-- `_RELEASE_LUA`
unfoldable pub release_script : ℕ → ℕ → Lock → Lock
release_script now token lock = if owned now token lock then none else lock

-- `_RENEW_LUA`, and whether it did
unfoldable pub renew_script : ℕ → ℕ → ℕ → Lock → Lock × Bool
renew_script lease now token lock =
    if owned now token lock then (some (token, now + lease), true) else (lock, false)

-- `_acquire_redis_lock`: the attempts at the times of the polls, until one succeeds, one raises or
-- the deadline is over.
pub data Poll : Type 0 where
  answered raised : ℕ → Poll

pub data Acquired : Type 0 where
  by_redis local_only timed_out : Acquired

-- `wait` is the wait for the next poll.
unfoldable pub acquire_redis_lock : ℕ → ℕ → ℕ → List Poll → Lock → Lock × Acquired
unfolding set_nx
acquire_redis_lock lease deadline token [] lock = (lock, timed_out)
acquire_redis_lock lease deadline token (raised now ∷ polls) lock =
    if ltb now deadline then (lock, local_only) else (lock, timed_out)
acquire_redis_lock lease deadline token (answered now ∷ polls) lock =
    let (lock', done) = set_nx lease now token lock in
    let rest = acquire_redis_lock lease deadline token polls lock in
    if not (ltb now deadline) then (lock, timed_out) else if done then (lock', by_redis) else rest

-- Where a task is: it asks Redis while it holds the lock of its process; it has a lease, until the
-- time that Redis was last told, or none, since Redis raised; or it is through.
pub data Phase : Type 0 where
  idle over : Phase
  polling : (worker : ℕ) → Phase
  leased : (worker deadline : ℕ) → Phase
  alone : (worker : ℕ) → Phase

pub record System : Type 0 where
  pub now : ℕ
  pub lock : Lock
  -- the task that holds the lock of a process
  pub local_lock : ℕ → Option ℕ
  pub phase : ℕ → Phase

abbrev pub update {ℓ} : {A : Type ℓ} → (ℕ → A) → ℕ → A → ℕ → A
update f i a j = if i == j then a else f j

abbrev pub start : System
start = record { now = 0; lock = none; local_lock = λ w. none; phase = λ t. idle }

-- What one task does between two waits; `lease` is the time of a lease.
pub data Step (lease : ℕ) (s : System) : System → Type 0 where
  tick : (later : ℕ) → s.now ≤ later → Step lease s (record s { now = later })
  -- `local_lock.acquire`, of which asyncio makes a queue
  take_local :
      (t w : ℕ)
      → s.phase t ≡ idle
      → s.local_lock w ≡ none
      → Step lease s (record s {
        local_lock = update s.local_lock w (some t);
        phase = update s.phase t (polling w);
      })
  -- an attempt at the key that succeeds
  take_remote :
      (t w : ℕ)
      → s.phase t ≡ polling w
      → (set_nx lease s.now t s.lock).1 ≡ true
      → Step lease s (record s {
        lock = (set_nx lease s.now t s.lock).0;
        phase = update s.phase t (leased w (s.now + lease));
      })
  -- Redis raises, whether or not it applied the attempt: the lock of the process is enough
  degrade :
      (t w : ℕ) (applied : Bool)
      → s.phase t ≡ polling w
      → Step lease s (record s {
        lock = if applied then (set_nx lease s.now t s.lock).0 else s.lock;
        phase = update s.phase t (alone w);
      })
  -- CoordinatorBusy, by the lock of the process or by Redis
  time_out : (t : ℕ) → s.phase t ≡ idle → Step lease s (record s { phase = update s.phase t over })
  give_up :
      (t w : ℕ)
      → s.phase t ≡ polling w
      → Step lease s
          (record s { local_lock = update s.local_lock w none; phase = update s.phase t over })
  -- a cancellation during the wait for Redis, which nothing handles
  cancel :
      (t w : ℕ) → s.phase t ≡ polling w → Step lease s (record s { phase = update s.phase t over })
  -- a round of `_renew_loop`
  renew :
      (t w d : ℕ)
      → s.phase t ≡ leased w d
      → (renew_script lease s.now t s.lock).1 ≡ true
      → Step lease s (record s {
        lock = (renew_script lease s.now t s.lock).0;
        phase = update s.phase t (leased w (s.now + lease));
      })
  -- a round that raises, applied or not, or one of a task that Redis did not answer
  renew_unheard :
      (t : ℕ) (applied : Bool)
      → Step lease s
          (record s { lock = if applied then (renew_script lease s.now t s.lock).0 else s.lock })
  -- `CoordinatorLease.release`; the script is skipped or fails, or it is applied
  release :
      (t w d : ℕ) (applied : Bool)
      → s.phase t ≡ leased w d
      → Step lease s (record s {
        lock = if applied then release_script s.now t s.lock else s.lock;
        local_lock = update s.local_lock w none;
        phase = update s.phase t over;
      })
  release_alone :
      (t w : ℕ)
      → s.phase t ≡ alone w
      → Step lease s
          (record s { local_lock = update s.local_lock w none; phase = update s.phase t over })
  -- a cancellation during the script of a release
  cancel_release :
      (t w d : ℕ) (applied : Bool)
      → s.phase t ≡ leased w d
      → Step lease s (record s {
        lock = if applied then release_script s.now t s.lock else s.lock;
        phase = update s.phase t over;
      })

pub data Reach (lease : ℕ) : System → Type 0 where
  begin : Reach lease start
  later : {s s' : System} → Reach lease s → Step lease s s' → Reach lease s'
