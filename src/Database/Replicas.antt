-- ===== src/Database/Replicas.antt =====
-- ReplicaRouter of backend/app/infrastructure/db/replicas.py: which engine serves a read. An engine is
-- a number, times are milliseconds of `time.monotonic()`, and what becomes of a session is an argument.
pub mod Reads
pub mod Healthy
mod Tests
use agent_studio.Base.{
  ℕ, zero, suc, ◌+◌, ◌-◌, ◌%◌, ◌≡◌, Bool, true, false, not, ◌&&◌, ◌||◌, Option, none, some, List,
  [], ◌∷◌, ◌++◌, length, drop, ltb, leb, is_some, if◌then◌else◌,
}
use agent_studio.Base.Eq.{nat_eq, list_eq, elem, unseen, filter_by}
use agent_studio.Base.Dict.{Dict, lookup, insert}
use agent_studio.Base.Text.{Text, nonempty}

abbrev pub max_tracked_write_keys : ℕ
max_tracked_write_keys = 10000

pub record Router : Type 0 where
  pub configured : Bool
  pub window : ℕ
  pub replicas : List ℕ
  -- the set `_unavailable`
  pub unavailable : List ℕ
  pub rr_index : ℕ
  pub last_write : Dict Text ℕ

-- The first loop of `mark_write`.
unfoldable pub write_all : ℕ → List Text → Dict Text ℕ → Dict Text ℕ
write_all now [] d = d
write_all now ([] ∷ keys) d = write_all now keys d
write_all now ((c ∷ k) ∷ keys) d = write_all now keys (insert (c ∷ k) now d)

-- The keys over the limit are dropped, in the order of the dict.
abbrev pub evict : Dict Text ℕ → Dict Text ℕ
evict d = drop (length d - max_tracked_write_keys) d

unfoldable pub mark_write : ℕ → List Text → Router → Router
unfolding write_all
mark_write now keys r =
    if r.configured then record r { last_write = evict (write_all now keys r.last_write) } else r

abbrev pub is_recent : ℕ → ℕ → Option ℕ → Bool
is_recent now window none = false
is_recent now window (some written_at) = ltb now (written_at + window)

unfoldable pub within_window : ℕ → List Text → Router → Bool
unfolding lookup
within_window now [] r = false
within_window now ([] ∷ keys) r = within_window now keys r
within_window now ((c ∷ k) ∷ keys) r =
    is_recent now r.window (lookup (c ∷ k) r.last_write) || within_window now keys r

unfoldable pub replica_eligible : ℕ → List Text → Router → Bool
unfolding within_window
replica_eligible now keys r =
    r.configured
    && (ltb (length r.unavailable) (length r.replicas) && not (within_window now keys r))

abbrev pub nth : ℕ → List ℕ → Option ℕ
nth n [] = none
nth zero (x ∷ xs) = some x
nth (suc n) (x ∷ xs) = nth n xs

-- `_next_replica`, where no candidate raises RuntimeError
unfoldable pub next_replica : Router → Option ℕ
unfolding unseen
next_replica r =
    let candidates = unseen r.unavailable r.replicas in
    nth (r.rr_index % length candidates) candidates

abbrev pub add_engine : ℕ → List ℕ → List ℕ
add_engine e es = if elem e es then es else e ∷ es

-- How a read ends: on a replica, with DBAPIError on one, on the primary, or with RuntimeError.
pub data Read : Type 0 where
  by_replica failed_on : ℕ → Read
  by_primary no_replica : Read

-- `get_read_session`; `breaks` says whether the session raises DBAPIError.
abbrev pub serve : Bool → Router → Option ℕ → Router × Read
serve breaks r none = (r, no_replica)
serve true r (some e) =
    (record r { rr_index = suc r.rr_index; unavailable = add_engine e r.unavailable }, failed_on e)
serve false r (some e) = (record r { rr_index = suc r.rr_index }, by_replica e)

unfoldable pub get_read_session : Bool → ℕ → List Text → Router → Router × Read
unfolding replica_eligible next_replica elem
get_read_session breaks now keys r =
    if replica_eligible now keys r then serve breaks r (next_replica r) else (r, by_primary)

-- The loop of the health check; `answers` says whether an engine answers the ping.
unfoldable pub check_health : (ℕ → Bool) → List ℕ → List ℕ → List ℕ
unfolding filter_by elem
check_health answers [] unavailable = unavailable
check_health answers (e ∷ es) unavailable =
    check_health answers es
      (if answers e then unseen (e ∷ []) unavailable else add_engine e unavailable)
