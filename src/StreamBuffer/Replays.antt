-- ===== src/StreamBuffer/Replays.antt =====
-- What a client that connects again receives from the stream buffer of
-- backend/app/infrastructure/stream/buffer.py.
use agent_studio.Base.{
  ℕ, ◌≤◌, ◌<◌, ◌≡◌, ◌∙◌, sym, ap, subst, refl, true, false, inl, inr, List, [], ◌∷◌, ◌++◌, All,
  append-nil, reverse, Bool-cases,
}
use agent_studio.Base.Dict.{lookup}
use agent_studio.Base.Eq.{Eq, filter_by}
use agent_studio.StreamBuffer.{
  Config, Buffer, entries_of, mem_entries, mem_read, replay, get_terminal, hot_chunks,
  overflow_chunks, read_chunks,
}
use agent_studio.StreamBuffer.Merge.{newer, merge_tiers, first_terminal}
use agent_studio.StreamBuffer.Stores.{Chunk, ListStore, ChunkTable}
use agent_studio.StreamBuffer.Replay.{
  Ascends, merge_tiers-Ascends, filter_by-append, filter_by-Ascends, filter_by-again, filter_by-all,
}
use agent_studio.StreamBuffer.Log.{Log, IsOrdered, mem_entries-IsAlive}
use agent_studio.StreamBuffer.Refine.{hot, IsLossless, Implements}
use agent_studio.StreamBuffer.Runs.{Event, run, log_run, IsTimely, run-Implements}

module _ {K P R T : Type 0} ⦃e : Eq K⦄ (lists : ListStore K P R) (rows : ChunkTable K P T)
    (cfg : Config) where
  rows_read :
      (until after : ℕ) (k : K) (b : Buffer K P R T) (s : Log K P)
      → Implements lists rows cfg until b s
      → overflow_chunks lists rows cfg true k after b.table
        ≡ filter_by (newer after) (rows.select k b.table)
  unfolding overflow_chunks read_chunks filter_by
  rows_read until after k b s h = elim (Bool-cases cfg.has_db) [
    | inl p ↦ rw p refl
    | inr p ↦ rw (p, h.unused p k) refl
  ]

  log_parts :
      (until : ℕ) (k : K) (b : Buffer K P R T) (s : Log K P)
      → Implements lists rows cfg until b s
      → IsOrdered s
      → Ascends (rows.select k b.table ++ hot lists rows cfg k b)
  log_parts until k b s h ord = rw (h.same k) (ord.ascends k)

  Ascends-filter :
      (after : ℕ) (cs : List (Chunk P)) → Ascends cs → Ascends (filter_by (newer after) cs)
  Ascends-filter after cs h =
      subst Ascends (append-nil (filter_by (newer after) cs))
        (filter_by-Ascends (newer after) cs [] (rw (append-nil cs) h))

  replay-tiers :
      (now after : ℕ) (k : K) (b : Buffer K P R T)
      → replay lists rows cfg now true true k after b
        ≡ merge_tiers
            (overflow_chunks lists rows cfg true k after b.table)
            (hot_chunks lists rows cfg now true k after b)
  unfolding replay
  replay-tiers now after k b = refl

  hot_chunks-memory :
      (now after : ℕ) (k : K) (b : Buffer K P R T)
      → b.redis_available ≡ false
      → hot_chunks lists rows cfg now true k after b
        ≡ filter_by (newer after) (mem_entries now k b.memory)
  unfolding hot_chunks mem_read
  hot_chunks-memory now after k b h = rw h refl

  hot_chunks-redis :
      (now after : ℕ) (k : K) (b : Buffer K P R T)
      → b.redis_available ≡ true
      → hot_chunks lists rows cfg now true k after b ≡ lists.lrange k b.redis
  unfolding hot_chunks
  hot_chunks-redis now after k b h = rw h refl

  -- In memory: the chunks after the event.
  replay-memory :
      (until now after : ℕ) (k : K) (b : Buffer K P R T) (s : Log K P)
      → now ≤ until
      → b.redis_available ≡ false
      → IsOrdered s
      → Implements lists rows cfg until b s
      → replay lists rows cfg now true true k after b ≡ filter_by (newer after) (s.chunks k)
  replay-memory until now after k b s early off ord h =
      let es = entries_of (lookup k b.memory) in
      let old = rows.select k b.table in
      let asc : Ascends (old ++ es) = (rw off at (log_parts until k b s h ord)) in
      rw
        (
          replay-tiers now after k b,
          rows_read until after k b s h,
          hot_chunks-memory now after k b off,
          mem_entries-IsAlive until now k b.memory h.alive early,
        )
        (merge_tiers-Ascends (filter_by (newer after) old) (filter_by (newer after) es) (
            rw (sym (filter_by-append (newer after) old es)) (Ascends-filter after (old ++ es) asc))
          ∙ sym (filter_by-append (newer after) old es)
          ∙ ap (filter_by (newer after)) (rw off at (h.same k)))

  -- In Redis: the rows after the event, and all of the list.
  replay-redis :
      (until now after : ℕ) (k : K) (b : Buffer K P R T) (s : Log K P)
      → b.redis_available ≡ true
      → IsOrdered s
      → Implements lists rows cfg until b s
      → replay lists rows cfg now true true k after b
        ≡ filter_by (newer after) (rows.select k b.table) ++ lists.lrange k b.redis
  replay-redis until now after k b s live ord h =
      rw
        (
          replay-tiers now after k b,
          rows_read until after k b s h,
          hot_chunks-redis now after k b live,
        )
        (merge_tiers-Ascends (filter_by (newer after) (rows.select k b.table))
          (lists.lrange k b.redis)
          (filter_by-Ascends (newer after) (rows.select k b.table) (lists.lrange k b.redis)
            (rw live at (log_parts until k b s h ord))))

  -- What a client that has the chunks up to `after` receives, and how the turn ended.
  pub record Replays (now after : ℕ) (k : K) (b : Buffer K P R T) (s : Log K P) : Type 0 where
    pub all : replay lists rows cfg now true true k 0 b ≡ s.chunks k
    pub later :
        filter_by (newer after) (replay lists rows cfg now true true k after b)
        ≡ filter_by (newer after) (s.chunks k)
    pub exact :
        b.redis_available ≡ false
        → replay lists rows cfg now true true k after b ≡ filter_by (newer after) (s.chunks k)
    pub terminal :
        get_terminal lists rows cfg now true true k b ≡ first_terminal (reverse (s.chunks k))

  replay-later :
      (until now after : ℕ) (k : K) (b : Buffer K P R T) (s : Log K P)
      → now ≤ until
      → IsOrdered s
      → Implements lists rows cfg until b s
      → filter_by (newer after) (replay lists rows cfg now true true k after b)
        ≡ filter_by (newer after) (s.chunks k)
  replay-later until now after k b s early ord h = elim (Bool-cases b.redis_available) [
    | inl p ↦
        let old = rows.select k b.table in
        let hot = lists.lrange k b.redis in
        ap (filter_by (newer after)) (replay-redis until now after k b s p ord h)
        ∙ filter_by-append (newer after) (filter_by (newer after) old) hot
        ∙ ap (λ r. r ++ filter_by (newer after) hot) (filter_by-again (newer after) old)
        ∙ sym (filter_by-append (newer after) old hot)
        ∙ ap (filter_by (newer after)) (rw p at (h.same k))
    | inr p ↦
        ap (filter_by (newer after)) (replay-memory until now after k b s early p ord h)
        ∙ filter_by-again (newer after) (s.chunks k)
  ]

  All-init : (cs ds : List (Chunk P)) → All (λ c. 0 < c.id) (cs ++ ds) → All (λ c. 0 < c.id) cs
  All-init [] ds h = tt
  All-init (c ∷ cs) ds (p, h) = (p, All-init cs ds h)

  replay-all :
      (until now : ℕ) (k : K) (b : Buffer K P R T) (s : Log K P)
      → now ≤ until
      → IsOrdered s
      → Implements lists rows cfg until b s
      → replay lists rows cfg now true true k 0 b ≡ s.chunks k
  replay-all until now k b s early ord h = elim (Bool-cases b.redis_available) [
    | inl p ↦
        let old = rows.select k b.table in
        let hot = lists.lrange k b.redis in
        let same : old ++ hot ≡ s.chunks k = (rw p at (h.same k)) in
        let pos : All (λ c. 0 < c.id) (old ++ hot) = rw same (ord.positive k) in
        replay-redis until now 0 k b s p ord h
        ∙ ap (λ r. r ++ hot) (filter_by-all 0 old (All-init old hot pos))
        ∙ same
    | inr p ↦
        replay-memory until now 0 k b s early p ord h
        ∙ filter_by-all 0 (s.chunks k) (ord.positive k)
  ]

  get_terminal-replay :
      (now : ℕ) (k : K) (b : Buffer K P R T)
      → get_terminal lists rows cfg now true true k b
        ≡ first_terminal (reverse (replay lists rows cfg now true true k 0 b))
  unfolding get_terminal
  get_terminal-replay now k b = refl

  get_terminal-all :
      (now : ℕ) (k : K) (b : Buffer K P R T) (cs : List (Chunk P))
      → replay lists rows cfg now true true k 0 b ≡ cs
      → get_terminal lists rows cfg now true true k b ≡ first_terminal (reverse cs)
  get_terminal-all now k b cs h =
      get_terminal-replay now k b ∙ ap (λ r. first_terminal (reverse r)) h

  -- The buffer implements its log. As long as the stores answer, no entry of the memory runs out
  -- and the chunks over the cap have a database to go to, after any appends of any turns a client
  -- receives all chunks of its turn, in order, each once; one that has the chunks up to some number
  -- receives all the later ones, and from memory those alone; and the terminal event is the
  -- last one of the log.
  pub replay-run :
      (until now after : ℕ) (k : K) (evs : List (Event lists rows cfg)) (b : Buffer K P R T)
      (s : Log K P)
      → now ≤ until
      → IsTimely lists rows cfg until evs
      → IsLossless lists rows cfg
      → IsOrdered s
      → Implements lists rows cfg until b s
      → Replays now after k (run lists rows cfg evs b) (log_run lists rows cfg evs s)
  replay-run until now after k evs b s early timely safe ord h =
      let (h', ord') = run-Implements lists rows cfg until evs b s timely safe ord h in
      let all =
        replay-all until now k (run lists rows cfg evs b) (log_run lists rows cfg evs s) early ord'
          h' in
      record {
        all = all;
        later =
            replay-later until now after k (run lists rows cfg evs b) (log_run lists rows cfg evs s)
              early ord' h';
        exact = λ p.
            replay-memory until now after k (run lists rows cfg evs b)
              (log_run lists rows cfg evs s) early p ord' h';
        terminal =
            get_terminal-all now k (run lists rows cfg evs b)
              ((log_run lists rows cfg evs s).chunks k) all;
      }
