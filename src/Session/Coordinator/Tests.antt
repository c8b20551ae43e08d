-- ===== src/Session/Coordinator/Tests.antt =====
-- Runs of the thread coordinator of backend/app/session/coordinator.py.
use agent_studio.Base.{ℕ, ◌≡◌, refl, true, false, none, some, [], ◌∷◌, arith}
use agent_studio.Session.Coordinator.{
  answered, by_redis, timed_out, acquire_redis_lock, System, start, over, Reach, begin, later, tick,
  take_local, take_remote, set_nx, release_script, renew_script, idle, polling, leased, update,
}
use agent_studio.Session.Coordinator.Cancelled.{cancelled_keeps, here, next}
use agent_studio.Session.Coordinator.Exclusion.{Reach-Excludes, is_at, is_live}

-- Task 1 of process 10 has a lease that runs out; task 2 of process 20 waits for it and gets the next.
abbrev first_lease : System
first_lease = record {
  now = 0;
  lock = some (1, 30);
  local_lock = update (λ w. none) 10 (some 1);
  phase = update (update (λ t. idle) 1 (polling 10)) 1 (leased 10 30);
}

abbrev second_waits : System
second_waits = record first_lease {
  now = 31;
  local_lock = update first_lease.local_lock 20 (some 2);
  phase = update first_lease.phase 2 (polling 20);
}

abbrev second_lease : System
second_lease = record second_waits {
  lock = some (2, 61);
  phase = update second_waits.phase 2 (leased 20 61);
}

first_lease_reached : Reach 30 first_lease
unfolding set_nx
first_lease_reached = later (later begin (take_local 1 10 refl refl)) (take_remote 1 10 refl refl)

second_lease_reached : Reach 30 second_lease
unfolding set_nx
second_lease_reached =
    later (later (later first_lease_reached (take_local 2 20 refl refl)) (tick 31 (omega arith)))
      (take_remote 2 20 refl refl)

Reach-Excludes_example :
    ((w : ℕ)
      → is_at w (second_lease.phase 1) ≡ true
      → is_at w (second_lease.phase 2) ≡ true
      → ◌≡◌ {A = ℕ} 1 2)
    × (is_live 31 (second_lease.phase 1) ≡ true
        → is_live 31 (second_lease.phase 2) ≡ true
        → ◌≡◌ {A = ℕ} 1 2)
Reach-Excludes_example = Reach-Excludes 30 second_lease 1 2 second_lease_reached

-- The second task waits until the first lease is over.
waits_for_lease :
    acquire_redis_lock 30 100 2 (answered 10 ∷ answered 29 ∷ answered 31 ∷ []) (some (1, 30))
    ≡ (some (2, 61), by_redis)
unfolding acquire_redis_lock set_nx
waits_for_lease = refl

gives_up :
    acquire_redis_lock 30 20 2 (answered 10 ∷ answered 29 ∷ []) (some (1, 30))
    ≡ (some (1, 30), timed_out)
unfolding acquire_redis_lock set_nx
gives_up = refl

-- A lease that is over is neither renewed nor given back by its first holder.
keeps_new_holder :
    (renew_script 30 40 1 (some (2, 61)) ≡ (some (2, 61), false))
    × (release_script 40 1 (some (2, 61)) ≡ some (2, 61))
unfolding renew_script release_script
keeps_new_holder = (refl, refl)

-- Task 1 asks Redis, is cancelled, and time passes.
abbrev asks : System
asks = record start {
  local_lock = update (λ w. none) 10 (some 1);
  phase = update (λ t. idle) 1 (polling 10);
}

abbrev abandoned : System
abandoned = record asks { now = 500; phase = update asks.phase 1 over }

cancelled_keeps_example :
    (abandoned.local_lock 10 ≡ some 1) × ((u : ℕ) → is_at 10 (abandoned.phase u) ≡ false)
cancelled_keeps_example =
    cancelled_keeps 30 1 10 asks abandoned (later begin (take_local 1 10 refl refl)) refl
      (next here (tick 500 (omega arith)))
