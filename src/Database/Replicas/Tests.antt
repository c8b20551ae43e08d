-- ===== src/Database/Replicas/Tests.antt =====
-- Runs of the replica router of backend/app/infrastructure/db/replicas.py.
use agent_studio.Base.{◌≡◌, refl, true, false, List, [], ◌∷◌, arith}
use agent_studio.Base.Eq.{elem, unseen, filter_by}
use agent_studio.Base.Dict.{lookup, insert}
use agent_studio.Base.Text.{codes}
use agent_studio.Database.Replicas.{
  Router, by_replica, by_primary, write_all, mark_write, within_window, replica_eligible,
  next_replica, get_read_session, check_health,
}
use agent_studio.Database.Replicas.Healthy.{IsHealthy, get_read_session-IsHealthy}
use agent_studio.Database.Replicas.Reads.{
  Op, writes, reads, checks, steps, get_read_session-mark_write,
}

abbrev router : Router
router = record {
  configured = true;
  window = 5000;
  replicas = 1 ∷ 2 ∷ 3 ∷ [];
  unavailable = 2 ∷ [];
  rr_index = 1;
  last_write = [];
}

round_robin : (get_read_session false 0 (codes "t" ∷ []) router).1 ≡ by_replica 3
unfolding get_read_session replica_eligible within_window next_replica lookup unseen filter_by elem
round_robin = refl

-- The session raises, and the next read has another replica.
marks_failed : (get_read_session true 0 [] router).0.unavailable ≡ 3 ∷ 2 ∷ []
unfolding get_read_session replica_eligible within_window next_replica lookup unseen filter_by elem
marks_failed = refl

recovers : check_health (λ e. true) (1 ∷ 2 ∷ 3 ∷ []) (3 ∷ 2 ∷ []) ≡ []
unfolding check_health unseen filter_by elem
recovers = refl

abbrev later_ops : List Op
later_ops =
    writes 1200 (codes "u" ∷ []) ∷ reads true 1300 (codes "v" ∷ []) ∷ checks (λ e. true) ∷ []

get_read_session-mark_write_example :
    (get_read_session false 5999
      (codes "t" ∷ [])
      (steps later_ops (mark_write 1000 (codes "t" ∷ []) router))).1
    ≡ by_primary
unfolding mark_write write_all insert elem
get_read_session-mark_write_example =
    get_read_session-mark_write 1000 (codes "t" ∷ []) later_ops router 116 [] false 5999
      (codes "t" ∷ []) ((omega arith, omega arith), ((omega arith, omega arith), (tt, (tt, tt))))
      refl refl (omega arith)

get_read_session-IsHealthy_example :
    IsHealthy (1 ∷ 2 ∷ 3 ∷ []) (2 ∷ []) (get_read_session false 0 (codes "t" ∷ []) router).1
unfolding elem
get_read_session-IsHealthy_example =
    get_read_session-IsHealthy false 0 (codes "t" ∷ []) router (refl, (refl, (refl, tt)))
