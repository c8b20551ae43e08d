-- ===== src/StreamBuffer/Refine.antt =====
-- The stream buffer of backend/app/infrastructure/stream implements its log: the rows of a key and
-- then its hot chunks are the chunks of the log, in Redis and in memory.
use agent_studio.Base.{
  ℕ, ◌+◌, ◌≤◌, ◌≡◌, ◌∙◌, ◌⊎◌, sym, ap, subst, refl, true, false, inl, inr, List, [], ◌∷◌, ◌++◌,
  arith, append_assoc, append-nil, take, drop, take-append-drop, length, ◌==◌, Bool-cases,
  if◌then◌else◌,
}
use agent_studio.Base.Dict.{Dict, lookup, insert, lookup-insert}
use agent_studio.Base.Eq.{Eq}
use agent_studio.StreamBuffer.{
  MemoryEntry, Config, Buffer, entries_of, mem_append, excess, write_chunks, spill_overflow,
  append_memory,
}
use agent_studio.StreamBuffer.Stores.{Chunk, ListStore, ChunkTable}
use agent_studio.StreamBuffer.Replay.{Ascends, Ascends-init, place-Ascends}
use agent_studio.StreamBuffer.Log.{Log, IsAlive, insert-IsAlive, purge-IsAlive, mem_entries-IsAlive}

module _ {K P R T : Type 0} ⦃e : Eq K⦄ (lists : ListStore K P R) (rows : ChunkTable K P T)
    (cfg : Config) where
  -- Chunks over the cap go to a database, or there is no cap.
  abbrev pub IsLossless : Type 0
  IsLossless = (cfg.overflow_max_chunks ≡ 0) ⊎ (cfg.has_db ≡ true)

  pub beq_self : (k : K) → e.beq k k ≡ true
  beq_self k = (e.beq_iff k k).1 refl

  write_chunks-other :
      (j k : K) (cs : List (Chunk P)) (t : T)
      → e.beq k j ≡ false
      → rows.select j (write_chunks lists rows cfg k cs t) ≡ rows.select j t
  unfolding write_chunks
  write_chunks-other j k [] t h = refl
  write_chunks-other j k (c ∷ cs) t h =
      write_chunks-other j k cs (rows.merge k c t) h ∙ rw (rows.select-merge j k c t, h) refl

  select-merge_last :
      (k : K) (c : Chunk P) (cs : List (Chunk P)) (t : T)
      → Ascends (rows.select k t ++ (c ∷ cs))
      → rows.select k (rows.merge k c t) ≡ rows.select k t ++ (c ∷ [])
  select-merge_last k c cs t h =
      rw (rows.select-merge k k c t, beq_self k) (place-Ascends (rows.select k t) c cs h)

  write_chunks-same :
      (k : K) (cs : List (Chunk P)) (t : T)
      → Ascends (rows.select k t ++ cs)
      → rows.select k (write_chunks lists rows cfg k cs t) ≡ rows.select k t ++ cs
  unfolding write_chunks
  write_chunks-same k [] t h = sym (append-nil (rows.select k t))
  write_chunks-same k (c ∷ cs) t h =
      let q = select-merge_last k c cs t h in
      write_chunks-same k cs (rows.merge k c t) (rw (q, append_assoc) h) ∙ rw (q, append_assoc) refl

  pub spill-other :
      (j k : K) (cs : List (Chunk P)) (t : T)
      → e.beq k j ≡ false
      → rows.select j (spill_overflow lists rows cfg true k cs t) ≡ rows.select j t
  unfolding spill_overflow
  spill-other j k cs t h = elim (Bool-cases cfg.has_db) [
    | inl p ↦ rw p (write_chunks-other j k cs t h)
    | inr p ↦ rw p refl
  ]

  spill-same :
      (k : K) (cs : List (Chunk P)) (t : T)
      → (cfg.has_db ≡ true) ⊎ (cs ≡ [])
      → Ascends (rows.select k t ++ cs)
      → rows.select k (spill_overflow lists rows cfg true k cs t) ≡ rows.select k t ++ cs
  unfolding spill_overflow
  spill-same k cs t (inl p) h = rw p (write_chunks-same k cs t h)
  spill-same k cs t (inr p) h = elim (Bool-cases cfg.has_db) [
    | inl q ↦ rw q (write_chunks-same k cs t h)
    | inr q ↦ rw (q, p) (sym (append-nil (rows.select k t)))
  ]

  pub spill-unused :
      (k : K) (cs : List (Chunk P)) (t : T)
      → cfg.has_db ≡ false
      → spill_overflow lists rows cfg true k cs t ≡ t
  unfolding spill_overflow
  spill-unused k cs t h = rw h refl

  take-none : (n : ℕ) (cs : List (Chunk P)) → n ≡ 0 → take n cs ≡ []
  take-none n cs h = rw h refl

  pub excess-lossless :
      (size : ℕ) (cs : List (Chunk P))
      → IsLossless
      → (cfg.has_db ≡ true) ⊎ (take (excess cfg.overflow_max_chunks size) cs ≡ [])
  unfolding excess
  excess-lossless size cs (inl p) = inr (rw p refl)
  excess-lossless size cs (inr p) = inl p

  -- The chunks of a key, in both tiers.
  abbrev pub hot : K → Buffer K P R T → List (Chunk P)
  hot k b = if b.redis_available then lists.lrange k b.redis else entries_of (lookup k b.memory)

  abbrev pub tiers : K → Buffer K P R T → List (Chunk P)
  tiers k b = rows.select k b.table ++ hot k b

  pub record Implements (until : ℕ) (b : Buffer K P R T) (s : Log K P) : Type 0 where
    pub number : b.seq ≡ s.last
    pub same : (k : K) → tiers k b ≡ s.chunks k
    pub alive : IsAlive until b.memory
    pub unused : cfg.has_db ≡ false → (k : K) → rows.select k b.table ≡ []

  -- Moving the first chunks of the hot tier to the rows leaves the chunks of the key as they are.
  pub moved :
      (n : ℕ) (k : K) (hot : List (Chunk P)) (t : T)
      → (cfg.has_db ≡ true) ⊎ (take n hot ≡ [])
      → Ascends (rows.select k t ++ hot)
      → rows.select k (spill_overflow lists rows cfg true k (take n hot) t) ++ drop n hot
        ≡ rows.select k t ++ hot
  moved n k hot t h a =
      ap (λ r. r ++ drop n hot)
        (spill-same k (take n hot) t h
          (Ascends-init (rows.select k t ++ take n hot) (drop n hot) (rw cut_apart a)))
      ∙ cut_apart
    where
      cut_apart : (rows.select k t ++ take n hot) ++ drop n hot ≡ rows.select k t ++ hot
      cut_apart =
          append_assoc (rows.select k t) (take n hot) (drop n hot)
          ∙ ap (λ r. rows.select k t ++ r) (take-append-drop n hot)

  module _ (until now : ℕ) (early : now ≤ until) (late : until ≤ now + cfg.ttl_seconds) (k : K)
      (c : Chunk P) where
    abbrev longer : Dict K (MemoryEntry P) → MemoryEntry P
    longer mem = record {
      entries = entries_of (lookup k mem) ++ (c ∷ []);
      deadline = now + cfg.ttl_seconds;
    }

    mem_append-longer :
        (mem : Dict K (MemoryEntry P))
        → IsAlive until mem
        → mem_append cfg.ttl_seconds now k c mem ≡ insert k (longer mem) mem
    unfolding mem_append
    mem_append-longer mem alive =
        rw
          (
            mem_entries-IsAlive until now k mem alive early,
            purge-IsAlive until now k mem alive early,
          )
          refl

    append_memory-longer :
        (b : Buffer K P R T)
        → IsAlive until b.memory
        → let es = entries_of (lookup k b.memory) ++ (c ∷ []) in
          let mem = insert k (longer b.memory) b.memory in
          let n = excess cfg.overflow_max_chunks (length es) in
          append_memory lists rows cfg now true k c b ≡ record b {
            memory =
                if n == 0
                then mem
                else insert k
                    (record { entries = drop n es; deadline = now + cfg.ttl_seconds })
                    mem;
            table = spill_overflow lists rows cfg true k (take n es) b.table;
          }
    unfolding append_memory
    append_memory-longer b alive =
        rw
          (
            mem_append-longer b.memory alive,
            mem_entries-IsAlive until now k (insert k (longer b.memory) b.memory)
                (insert-IsAlive until k (longer b.memory) b.memory late alive) early,
            lookup-insert k k (longer b.memory) b.memory,
            beq_self k,
          )
          refl

    -- The chunks that a key has in memory after the append.
    abbrev kept_memory : ℕ → List (Chunk P) → Dict K (MemoryEntry P) → Dict K (MemoryEntry P)
    kept_memory n es mem =
        if n == 0
        then insert k (longer mem) mem
        else insert k (record { entries = drop n es; deadline = now + cfg.ttl_seconds })
            (insert k (longer mem) mem)

    abbrev cut : ℕ → List (Chunk P) → MemoryEntry P
    cut n es = record { entries = drop n es; deadline = now + cfg.ttl_seconds }

    pub zero_drop : (n : ℕ) (es : List (Chunk P)) → (n == 0) ≡ true → drop n es ≡ es
    zero_drop n es h = let q : n ≡ 0 = ground arith in rw q refl

    kept_memory-same :
        (n : ℕ) (mem : Dict K (MemoryEntry P))
        → let es = entries_of (lookup k mem) ++ (c ∷ []) in
          entries_of (lookup k (kept_memory n es mem)) ≡ drop n es
    kept_memory-same n mem =
        let es = entries_of (lookup k mem) ++ (c ∷ []) in
        elim (Bool-cases (n == 0)) [
          | inl p ↦ rw (p, lookup-insert k k (longer mem) mem, beq_self k) (sym (zero_drop n es p))
          | inr p ↦
              rw (p, lookup-insert k k (cut n es) (insert k (longer mem) mem), beq_self k) refl
        ]

    kept_memory-other :
        (j : K) (n : ℕ) (es : List (Chunk P)) (mem : Dict K (MemoryEntry P))
        → e.beq k j ≡ false
        → lookup j (kept_memory n es mem) ≡ lookup j mem
    kept_memory-other j n es mem h = elim (Bool-cases (n == 0)) [
      | inl p ↦ rw (p, lookup-insert k j (longer mem) mem, h) refl
      | inr p ↦
          rw (p, lookup-insert k j (cut n es) (insert k (longer mem) mem), h)
            (rw (lookup-insert k j (longer mem) mem, h) refl)
    ]

    kept_memory-IsAlive :
        (n : ℕ) (es : List (Chunk P)) (mem : Dict K (MemoryEntry P))
        → IsAlive until mem
        → IsAlive until (kept_memory n es mem)
    kept_memory-IsAlive n es mem h =
        let h' = insert-IsAlive until k (longer mem) mem late h in
        elim (Bool-cases (n == 0)) [
          | inl p ↦ rw p h'
          | inr p ↦ rw p (insert-IsAlive until k (cut n es) (insert k (longer mem) mem) late h')
        ]

    -- An append adds the chunk to the tiers of its key and to no others.
    abbrev pub Adds : Buffer K P R T → Buffer K P R T → Type 0
    Adds b b' =
        (b'.seq ≡ b.seq)
        × ((j : K) → tiers j b' ≡ (if e.beq k j then tiers j b ++ (c ∷ []) else tiers j b))
        × IsAlive until b'.memory
        × (cfg.has_db ≡ false → b'.table ≡ b.table)

    pub same_key : (j : K) → e.beq k j ≡ true → k ≡ j
    same_key j h = (e.beq_iff k j).0 h

    memory_tiers :
        (n : ℕ) (b : Buffer K P R T)
        → (cfg.has_db ≡ true) ⊎ (take n (entries_of (lookup k b.memory) ++ (c ∷ [])) ≡ [])
        → let es = entries_of (lookup k b.memory) ++ (c ∷ []) in
          Ascends (rows.select k b.table ++ es)
          → (j : K)
          → rows.select j (spill_overflow lists rows cfg true k (take n es) b.table)
              ++ entries_of (lookup j (kept_memory n es b.memory))
            ≡ (if e.beq k j
                then rows.select j b.table ++ entries_of (lookup j b.memory) ++ (c ∷ [])
                else rows.select j b.table ++ entries_of (lookup j b.memory))
    memory_tiers n b safe asc j =
        let es = entries_of (lookup k b.memory) ++ (c ∷ []) in
        elim (Bool-cases (e.beq k j)) [
          | inl p ↦ rw p (
              subst
                (λ x.
                  rows.select x (spill_overflow lists rows cfg true k (take n es) b.table)
                    ++ entries_of (lookup x (kept_memory n es b.memory))
                  ≡ rows.select x b.table ++ entries_of (lookup x b.memory) ++ (c ∷ []))
                (same_key j p)
                (ap
                    (λ r.
                      rows.select k (spill_overflow lists rows cfg true k (take n es) b.table) ++ r)
                    (kept_memory-same n b.memory)
                  ∙ moved n k es b.table safe asc
                  ∙ sym (
                      append_assoc (rows.select k b.table) (entries_of (lookup k b.memory))
                        (c ∷ []))))
          | inr p ↦
              rw (p, kept_memory-other j n es b.memory p, spill-other j k (take n es) b.table p)
                refl
        ]

    pub append_memory-Adds :
        (b : Buffer K P R T)
        → b.redis_available ≡ false
        → IsAlive until b.memory
        → IsLossless
        → Ascends (tiers k b ++ (c ∷ []))
        → Adds b (append_memory lists rows cfg now true k c b)
    append_memory-Adds b off alive safe asc =
        let es = entries_of (lookup k b.memory) ++ (c ∷ []) in
        let n = excess cfg.overflow_max_chunks (length es) in
        rw (append_memory-longer b alive, off)
          (
            refl,
            memory_tiers n b (excess-lossless (length es) es safe) (rw (off, append_assoc) at asc),
            kept_memory-IsAlive n es b.memory alive,
            λ h. spill-unused k (take n es) b.table h,
          )
