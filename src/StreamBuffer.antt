-- ===== src/StreamBuffer.antt =====
-- backend/app/infrastructure/stream/buffer.py and overflow.py: the chunks of a streamed turn, kept
-- for a client that connects again. The lists of Redis and the table of Postgres are parameters
-- with the laws of their commands. Keys of Redis do not expire here; those in memory do.
pub mod Stores
pub mod Merge
pub mod Replay
pub mod Log
pub mod Refine
pub mod RedisTier
pub mod Runs
pub mod Replays
mod Tests
use agent_studio.Base.{
  ℕ, suc, ◌+◌, ◌-◌, Bool, true, false, not, ◌&&◌, ◌||◌, Option, none, some, List, [], ◌∷◌, ◌++◌,
  length, take, drop, ltb, leb, ◌==◌, reverse, map, if◌then◌else◌,
}
use agent_studio.Base.Dict.{Dict, lookup, insert, remove}
use agent_studio.Base.Eq.{Eq, nat_eq, filter_by, list_beq}
use agent_studio.Base.Sort.{sort_by}
use agent_studio.Base.Text.{Text, codes}
use agent_studio.StreamBuffer.Merge.{newer, merge_tiers, first_terminal}
use agent_studio.StreamBuffer.Stores.{Chunk, ListStore, ChunkTable}

-- The entry of a key in `_memory`, without its `seq`, which nothing reads.
pub record MemoryEntry (P : Type 0) : Type 0 where
  pub entries : List (Chunk P)
  pub deadline : ℕ

pub record Config : Type 0 where
  pub ttl_seconds : ℕ
  pub overflow_max_chunks : ℕ
  pub has_db : Bool

pub record Buffer (K P R T : Type 0) : Type 0 where
  pub seq : ℕ
  pub redis_available : Bool
  pub memory : Dict K (MemoryEntry P)
  pub redis : R
  pub table : T

-- How the commands of an append to Redis end: all of them answer, the first one raises, or one of
-- the later ones raises before the list is trimmed.
pub data Reply : Type 0 where
  served push_failed later_failed : Reply

module _ {P : Type 0} where
  abbrev expired : ℕ → Option (MemoryEntry P) → Bool
  expired now none = false
  expired now (some m) = ltb m.deadline now

  abbrev pub entries_of : Option (MemoryEntry P) → List (Chunk P)
  entries_of none = []
  entries_of (some m) = m.entries

module _ {K P : Type 0} ⦃e : Eq K⦄ where
  -- `_mem_get` pops an entry whose time is over.
  unfoldable pub purge : ℕ → K → Dict K (MemoryEntry P) → Dict K (MemoryEntry P)
  unfolding lookup remove
  purge now k mem = if expired now (lookup k mem) then remove k mem else mem

  unfoldable pub mem_entries : ℕ → K → Dict K (MemoryEntry P) → List (Chunk P)
  unfolding purge
  mem_entries now k mem = entries_of (lookup k (purge now k mem))

  unfoldable pub mem_append : ℕ → ℕ → K → Chunk P → Dict K (MemoryEntry P) → Dict K (MemoryEntry P)
  unfolding mem_entries insert
  mem_append ttl now k c mem =
      insert k (record { entries = mem_entries now k mem ++ (c ∷ []); deadline = now + ttl })
        (purge now k mem)

  unfoldable pub mem_read : ℕ → K → ℕ → Dict K (MemoryEntry P) → List (Chunk P)
  unfolding mem_entries filter_by
  mem_read now k after mem = filter_by (newer after) (mem_entries now k mem)

-- How many chunks of a list are over the cap.
unfoldable pub excess : ℕ → ℕ → ℕ
excess cap size = if not (cap == 0) && ltb cap size then size - cap else 0

module _ {K P R T : Type 0} ⦃e : Eq K⦄ (lists : ListStore K P R) (rows : ChunkTable K P T)
    (cfg : Config) where
  -- `_spill_overflow`: without a database the chunks are dropped, and a failed write loses them too.
  unfoldable pub write_chunks : K → List (Chunk P) → T → T
  write_chunks k [] t = t
  write_chunks k (c ∷ cs) t = write_chunks k cs (rows.merge k c t)

  unfoldable pub spill_overflow : Bool → K → List (Chunk P) → T → T
  unfolding write_chunks
  spill_overflow written k cs t = if cfg.has_db && written then write_chunks k cs t else t

  abbrev cut_memory : ℕ → ℕ → K → Dict K (MemoryEntry P) → Dict K (MemoryEntry P)
  cut_memory now n k mem =
      insert k
        (record { entries = drop n (mem_entries now k mem); deadline = now + cfg.ttl_seconds }) mem

  unfoldable pub append_memory : ℕ → Bool → K → Chunk P → Buffer K P R T → Buffer K P R T
  unfolding mem_append excess spill_overflow
  append_memory now written k c b =
      let mem = mem_append cfg.ttl_seconds now k c b.memory in
      let entries = mem_entries now k mem in
      let n = excess cfg.overflow_max_chunks (length entries) in
      record b {
        memory = if n == 0 then mem else cut_memory now n k mem;
        table = spill_overflow written k (take n entries) b.table;
      }

  unfoldable pub append_redis : Bool → K → Chunk P → Buffer K P R T → Buffer K P R T
  unfolding excess spill_overflow
  append_redis written k c b =
      let pushed = lists.rpush k c b.redis in
      let all = lists.lrange k pushed in
      let n = excess cfg.overflow_max_chunks (length all) in
      record b {
        redis = if n == 0 then pushed else lists.ltrim k n pushed;
        table = spill_overflow written k (take n all) b.table;
      }

  -- `_mark_redis_down`, and the chunk in memory, which is not cut here
  abbrev fall_back : ℕ → K → Chunk P → Buffer K P R T → Buffer K P R T
  fall_back now k c b = record b {
    redis_available = false;
    memory = mem_append cfg.ttl_seconds now k c b.memory;
  }

  unfoldable pub append_online : ℕ → Bool → Reply → K → Chunk P → Buffer K P R T → Buffer K P R T
  unfolding append_redis mem_append
  append_online now written served k c b = append_redis written k c b
  append_online now written push_failed k c b = fall_back now k c b
  append_online now written later_failed k c b =
      fall_back now k c (record b { redis = lists.rpush k c b.redis })

  -- `append`, whose result is the new `seq`
  unfoldable pub append : ℕ → Bool → Reply → K → Text → P → Buffer K P R T → Buffer K P R T
  unfolding append_memory append_online
  append now written reply k type payload b =
      let seq = suc b.seq in
      let c : Chunk P = record { id = seq; type = type; payload = payload } in
      let b' = record b { seq = seq } in
      if b.redis_available
      then append_online now written reply k c b'
      else append_memory now written k c b'

  -- `read_chunks`
  unfoldable pub read_chunks : K → ℕ → T → List (Chunk P)
  unfolding filter_by
  read_chunks k after t = filter_by (newer after) (rows.select k t)

  unfoldable pub overflow_chunks : Bool → K → ℕ → T → List (Chunk P)
  unfolding read_chunks
  overflow_chunks readable k after t = if cfg.has_db && readable then read_chunks k after t else []

  -- the hot chunks: from Redis all of them, from memory those after the event
  unfoldable pub hot_chunks : ℕ → Bool → K → ℕ → Buffer K P R T → List (Chunk P)
  unfolding mem_read
  hot_chunks now answers k after b =
      if b.redis_available && answers then lists.lrange k b.redis else mem_read now k after b.memory

  -- `replay`; `answers` and `readable` say whether Redis and Postgres do
  unfoldable pub replay : ℕ → Bool → Bool → K → ℕ → Buffer K P R T → List (Chunk P)
  unfolding hot_chunks overflow_chunks merge_tiers
  replay now answers readable k after b =
      merge_tiers (overflow_chunks readable k after b.table) (hot_chunks now answers k after b)

  -- what `replay` leaves: a failed read marks Redis as down, and a read of memory pops what is over
  unfoldable pub after_replay : ℕ → Bool → K → Buffer K P R T → Buffer K P R T
  unfolding purge
  after_replay now answers k b =
      if b.redis_available && answers
      then b
      else record b { redis_available = false; memory = purge now k b.memory }

  unfoldable pub get_terminal : ℕ → Bool → Bool → K → Buffer K P R T → Option (Chunk P)
  unfolding first_terminal replay
  get_terminal now answers readable k b =
      first_terminal (reverse (replay now answers readable k 0 b))

  -- `clear`; `answers` and `cleared` say whether Redis and Postgres do what they are told
  unfoldable pub clear : Bool → Bool → K → Buffer K P R T → Buffer K P R T
  unfolding remove
  clear answers cleared k b = record b {
    redis_available = b.redis_available && answers;
    redis = if b.redis_available && answers then lists.delete k b.redis else b.redis;
    memory = remove k b.memory;
    table = if cfg.has_db && cleared then rows.clear k b.table else b.table;
  }
