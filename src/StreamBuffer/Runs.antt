-- ===== src/StreamBuffer/Runs.antt =====
-- Runs of the stream buffer of backend/app/infrastructure/stream/buffer.py and of its log.
use agent_studio.Base.{
  ℕ, suc, ◌+◌, ◌≤◌, ◌≡◌, ◌∙◌, sym, ap, refl, true, false, inl, inr, List, [], ◌∷◌, ◌++◌, All,
  Bool-cases, if◌then◌else◌,
}
use agent_studio.Base.Eq.{Eq}
use agent_studio.Base.Text.{Text}
use agent_studio.StreamBuffer.{
  Config, Buffer, served, append_memory, append_redis, append_online, append,
}
use agent_studio.StreamBuffer.Stores.{Chunk, ListStore, ChunkTable}
use agent_studio.StreamBuffer.Replay.{Ascends, Ascends-snoc}
use agent_studio.StreamBuffer.Log.{Log, log_append, IsOrdered, log_append-IsOrdered}
use agent_studio.StreamBuffer.RedisTier.{append_redis-Adds}
use agent_studio.StreamBuffer.Refine.{IsLossless, Implements, tiers, append_memory-Adds, Adds}

module _ {K P R T : Type 0} ⦃e : Eq K⦄ (lists : ListStore K P R) (rows : ChunkTable K P T)
    (cfg : Config) where
  -- One chunk that the turn appends, with its time.
  pub record Event : Type 0 where
    pub now : ℕ
    pub key : K
    pub type : Text
    pub payload : P

  abbrev pub run : List Event → Buffer K P R T → Buffer K P R T
  run [] b = b
  run (ev ∷ evs) b = run evs (append lists rows cfg ev.now true served ev.key ev.type ev.payload b)

  abbrev pub log_run : List Event → Log K P → Log K P
  log_run [] s = s
  log_run (ev ∷ evs) s = log_run evs (log_append ev.key ev.type ev.payload s)

  -- The times of the appends are no more than the lifetime of an entry before `until`.
  abbrev pub IsTimely : ℕ → List Event → Type 0
  IsTimely until = All (λ ev. (ev.now ≤ until) × (until ≤ ev.now + cfg.ttl_seconds))

  log_append-chunks :
      (j k : K) (type : Text) (payload : P) (s : Log K P)
      → (log_append k type payload s).chunks j ≡ (
          if e.beq k j
          then s.chunks j ++ (record { id = suc s.last; type = type; payload = payload } ∷ [])
          else s.chunks j)
  unfolding log_append
  log_append-chunks j k type payload s = refl

  log_append-last :
      (k : K) (type : Text) (payload : P) (s : Log K P)
      → (log_append k type payload s).last ≡ suc s.last
  unfolding log_append
  log_append-last k type payload s = refl

  abbrev chunk_of : Event → Buffer K P R T → Chunk P
  chunk_of ev b = record { id = suc b.seq; type = ev.type; payload = ev.payload }

  abbrev counted : Buffer K P R T → Buffer K P R T
  counted b = record b { seq = suc b.seq }

  append-online :
      (ev : Event) (b : Buffer K P R T)
      → b.redis_available ≡ true
      → append lists rows cfg ev.now true served ev.key ev.type ev.payload b
        ≡ append_redis lists rows cfg true ev.key (chunk_of ev b) (counted b)
  unfolding append append_online
  append-online ev b h = rw h refl

  append-offline :
      (ev : Event) (b : Buffer K P R T)
      → b.redis_available ≡ false
      → append lists rows cfg ev.now true served ev.key ev.type ev.payload b
        ≡ append_memory lists rows cfg ev.now true ev.key (chunk_of ev b) (counted b)
  unfolding append append_online
  append-offline ev b h = rw h refl

  module _ (until : ℕ) (ev : Event) (early : ev.now ≤ until)
      (late : until ≤ ev.now + cfg.ttl_seconds) where
    Adds-Implements :
        (b b' : Buffer K P R T) (s : Log K P)
        → Implements lists rows cfg until b s
        → Adds lists rows cfg until ev.now early late ev.key (chunk_of ev b) (counted b) b'
        → Implements lists rows cfg until b' (log_append ev.key ev.type ev.payload s)
    Adds-Implements b b' s h (n, t, a, u) = record {
      number = n ∙ ap suc h.number ∙ sym (log_append-last ev.key ev.type ev.payload s);
      same =
          λ j. rw (t j, h.same j, h.number) (sym (log_append-chunks j ev.key ev.type ev.payload s));
      alive = a;
      unused = λ p j. rw (u p) (h.unused p j);
    }

    log-Ascends :
        (b : Buffer K P R T) (s : Log K P)
        → Implements lists rows cfg until b s
        → IsOrdered s
        → Ascends (tiers lists rows cfg ev.key b ++ (chunk_of ev b ∷ []))
    log-Ascends b s h ord =
        rw (h.same ev.key, h.number)
          (Ascends-snoc (s.chunks ev.key) _ (ord.below ev.key) (ord.ascends ev.key))

    append-Implements :
        (b : Buffer K P R T) (s : Log K P)
        → IsLossless lists rows cfg
        → IsOrdered s
        → Implements lists rows cfg until b s
        → Implements lists rows cfg until
            (append lists rows cfg ev.now true served ev.key ev.type ev.payload b)
            (log_append ev.key ev.type ev.payload s)
    append-Implements b s safe ord h = elim (Bool-cases b.redis_available) [
      | inl p ↦ rw (append-online ev b p) (
          Adds-Implements b (append_redis lists rows cfg true ev.key (chunk_of ev b) (counted b)) s
            h
            (append_redis-Adds lists rows cfg until ev.now early late ev.key (chunk_of ev b)
              (counted b) p h.alive safe (log-Ascends b s h ord)))
      | inr p ↦ rw (append-offline ev b p) (
          Adds-Implements b
            (append_memory lists rows cfg ev.now true ev.key (chunk_of ev b) (counted b)) s h
            (append_memory-Adds lists rows cfg until ev.now early late ev.key (chunk_of ev b)
              (counted b) p h.alive safe (log-Ascends b s h ord)))
    ]

  pub run-Implements :
      (until : ℕ) (evs : List Event) (b : Buffer K P R T) (s : Log K P)
      → IsTimely until evs
      → IsLossless lists rows cfg
      → IsOrdered s
      → Implements lists rows cfg until b s
      → Implements lists rows cfg until (run evs b) (log_run evs s) × IsOrdered (log_run evs s)
  run-Implements until [] b s t safe ord h = (h, ord)
  run-Implements until (ev ∷ evs) b s ((early, late), t) safe ord h =
      run-Implements until evs _ (log_append ev.key ev.type ev.payload s) t safe
        (log_append-IsOrdered ev.key ev.type ev.payload s ord)
        (append-Implements until ev early late b s safe ord h)
