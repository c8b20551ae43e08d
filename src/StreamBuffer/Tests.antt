-- ===== src/StreamBuffer/Tests.antt =====
-- The stream buffer over stores that are functions, with a cap of two chunks.
use agent_studio.Base.{
  ℕ, ◌≡◌, refl, Bool, true, false, ◌==◌, inr, List, [], ◌∷◌, ◌++◌, drop, arith, if◌then◌else◌,
}
use agent_studio.Base.Dict.{lookup}
use agent_studio.Base.Eq.{nat_eq}
use agent_studio.Base.Text.{codes}
use agent_studio.StreamBuffer.{Config, Buffer, append, replay}
use agent_studio.StreamBuffer.Stores.{Chunk, ListStore, ChunkTable, place}
use agent_studio.StreamBuffer.Log.{Log, IsOrdered}
use agent_studio.StreamBuffer.Refine.{Implements}
use agent_studio.StreamBuffer.Runs.{Event, run, log_run}
use agent_studio.StreamBuffer.Replays.{Replays, replay-run}

abbrev Lists : Type 0
Lists = ℕ → List (Chunk ℕ)

abbrev change : ℕ → (List (Chunk ℕ) → List (Chunk ℕ)) → Lists → Lists
change k f r j = if k == j then f (r j) else r j

abbrev lists : ListStore ℕ ℕ Lists
lists = record {
  lrange = λ k r. r k;
  rpush = λ k c. change k (λ cs. cs ++ (c ∷ []));
  ltrim = λ k n. change k (drop n);
  delete = λ k. change k (λ cs. []);
  lrange-rpush = λ j k c r. refl;
  lrange-ltrim = λ j k n r. refl;
  lrange-delete = λ j k r. refl;
}

abbrev rows : ChunkTable ℕ ℕ Lists
rows = record {
  select = λ k t. t k;
  merge = λ k c. change k (place c);
  clear = λ k. change k (λ cs. []);
  select-merge = λ j k c t. refl;
  select-clear = λ j k t. refl;
}

abbrev config : Config
config = record { ttl_seconds = 100; overflow_max_chunks = 2; has_db = true }

abbrev start : Bool → Buffer ℕ ℕ Lists Lists
start live = record {
  seq = 10;
  redis_available = live;
  memory = [];
  redis = λ k. [];
  table = λ k. [];
}

abbrev start_log : Log ℕ ℕ
start_log = record { last = 10; chunks = λ k. [] }

start_log-IsOrdered : IsOrdered start_log
start_log-IsOrdered = record { ascends = λ k. tt; below = λ k. tt; positive = λ k. tt }

start-Implements : Implements lists rows config 100 (start false) start_log
unfolding lookup
start-Implements = record {
  number = refl;
  same = λ k. refl;
  alive = λ k m p. cc;
  unused = λ p k. refl;
}

abbrev chunk : ℕ → ℕ → Event lists rows config
chunk now payload = record { now = now; key = 1; type = codes "delta"; payload = payload }

abbrev events : List (Event lists rows config)
events = chunk 1 7 ∷ chunk 2 8 ∷ chunk 3 9 ∷ []

replay-run_example :
    Replays lists rows config 50 11 1
      (run lists rows config events (start false))
      (log_run lists rows config events start_log)
replay-run_example =
    replay-run lists rows config 100 50 11 1 events (start false) start_log (omega arith)
      ((omega arith, omega arith), ((omega arith, omega arith), ((omega arith, omega arith), tt)))
      (inr refl) start_log-IsOrdered start-Implements

abbrev numbers : List (Chunk ℕ) → List ℕ
numbers [] = []
numbers (c ∷ cs) = c.id ∷ numbers cs

-- A client that has the chunks up to 13 receives from memory nothing, and from Redis the chunks 12
-- and 13 again.
replay_again :
    (numbers
        (replay lists rows config 50 true true 1 13 (run lists rows config events (start false)))
      ≡ [])
    × (numbers
          (replay lists rows config 50 true true 1 13 (run lists rows config events (start true)))
        ≡ 12 ∷ 13 ∷ [])
unfolding append replay place
replay_again = (refl, refl)
