-- ===== src/StreamBuffer/Log.antt =====
-- What the stream buffer of backend/app/infrastructure/stream promises: a log of chunks for each
-- key, to which chunks are only appended.
use agent_studio.Base.{
  ℕ, suc, ◌≤◌, ◌<◌, ◌≡◌, refl, inl, inr, Option, none, some, List, [], ◌∷◌, ◌++◌, arith, All,
  All-append, Bool-cases, if◌then◌else◌,
}
use agent_studio.Base.Dict.{Dict, lookup, insert, lookup-insert}
use agent_studio.Base.Eq.{Eq}
use agent_studio.Base.Text.{Text}
use agent_studio.StreamBuffer.{MemoryEntry, entries_of, purge, mem_entries}
use agent_studio.StreamBuffer.Stores.{Chunk}
use agent_studio.StreamBuffer.Replay.{Ascends, All-weaken, All-snoc, Ascends-snoc}

-- The log: the last number given out, and the chunks of every key.
pub record Log (K P : Type 0) : Type 0 where
  pub last : ℕ
  pub chunks : K → List (Chunk P)

module _ {K P : Type 0} ⦃e : Eq K⦄ where
  -- A chunk gets the next number and goes to the end of its key's list.
  unfoldable pub log_append : K → Text → P → Log K P → Log K P
  log_append k type payload s = record {
    last = suc s.last;
    chunks = λ j.
        if e.beq k j
        then s.chunks j ++ (record { id = suc s.last; type = type; payload = payload } ∷ [])
        else s.chunks j;
  }

  pub record IsOrdered (s : Log K P) : Type 0 where
    pub ascends : (k : K) → Ascends (s.chunks k)
    pub below : (k : K) → All (λ c. c.id < suc s.last) (s.chunks k)
    pub positive : (k : K) → All (λ c. 0 < c.id) (s.chunks k)

  pub log_append-IsOrdered :
      (k : K) (type : Text) (payload : P) (s : Log K P)
      → IsOrdered s
      → IsOrdered (log_append k type payload s)
  unfolding log_append
  log_append-IsOrdered k type payload s h = record {
    ascends = λ j. elim (Bool-cases (e.beq k j)) [
      | inl p ↦ rw p (Ascends-snoc (s.chunks j) _ (h.below j) (h.ascends j))
      | inr p ↦ rw p (h.ascends j)
    ];
    below = λ j. elim (Bool-cases (e.beq k j)) [
      | inl p ↦ rw p (
          All-snoc (suc (suc s.last)) (s.chunks j) _
            (All-weaken (suc s.last) (s.chunks j) (h.below j)) (omega arith))
      | inr p ↦ rw p (All-weaken (suc s.last) (s.chunks j) (h.below j))
    ];
    positive = λ j. elim (Bool-cases (e.beq k j)) [
      | inl p ↦ rw p (
          All-append (λ c. 0 < c.id) (s.chunks j)
            (record { id = suc s.last; type = type; payload = payload } ∷ []) (h.positive j)
            (omega arith, tt))
      | inr p ↦ rw p (h.positive j)
    ];
  }

  -- No entry of the memory is over before `until`.
  abbrev pub IsAlive : ℕ → Dict K (MemoryEntry P) → Type 0
  IsAlive until mem = (k : K) (m : MemoryEntry P) → lookup k mem ≡ some m → until ≤ m.deadline

  pub purge-IsAlive :
      (until now : ℕ) (k : K) (mem : Dict K (MemoryEntry P))
      → IsAlive until mem
      → now ≤ until
      → purge now k mem ≡ mem
  unfolding purge
  purge-IsAlive until now k mem alive h = by_entry (lookup k mem) refl
    where
      by_entry : (o : Option (MemoryEntry P)) → lookup k mem ≡ o → purge now k mem ≡ mem
      by_entry none p = rw p refl
      by_entry (some m) p = ground (arith, alive k m p, p, h)

  pub mem_entries-IsAlive :
      (until now : ℕ) (k : K) (mem : Dict K (MemoryEntry P))
      → IsAlive until mem
      → now ≤ until
      → mem_entries now k mem ≡ entries_of (lookup k mem)
  unfolding mem_entries
  mem_entries-IsAlive until now k mem alive h = rw (purge-IsAlive until now k mem alive h) refl

  pub insert-IsAlive :
      (until : ℕ) (k : K) (m : MemoryEntry P) (mem : Dict K (MemoryEntry P))
      → until ≤ m.deadline
      → IsAlive until mem
      → IsAlive until (insert k m mem)
  insert-IsAlive until k m mem h alive j m' p = elim (Bool-cases (e.beq k j)) [
    | inl q ↦ ground (arith, lookup-insert k j m mem, q, p, h)
    | inr q ↦ alive j m' (ground (arith, lookup-insert k j m mem, q, p))
  ]
