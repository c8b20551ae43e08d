-- ===== src/StreamBuffer/Stores.antt =====
-- The two services that the stream buffer of backend/app/infrastructure/stream keeps its chunks in:
-- the lists of Redis and a table of Postgres with one row for each scope and number.
use agent_studio.Base.{ℕ, ◌≡◌, List, [], ◌∷◌, ◌++◌, drop, ltb, ◌==◌, if◌then◌else◌}
use agent_studio.Base.Eq.{Eq}
use agent_studio.Base.Text.{Text}

pub record Chunk (P : Type 0) : Type 0 where
  pub id : ℕ
  pub type : Text
  pub payload : P

module _ (K P : Type 0) ⦃e : Eq K⦄ where
  -- RPUSH, LRANGE of the whole list, LTRIM of so many elements at its head, and DEL
  pub record ListStore (R : Type 0) : Type 0 where
    pub lrange : K → R → List (Chunk P)
    pub rpush : K → Chunk P → R → R
    pub ltrim : K → ℕ → R → R
    pub delete : K → R → R
    pub lrange-rpush :
        (j k : K) (c : Chunk P) (r : R)
        → lrange j (rpush k c r) ≡ (if e.beq k j then lrange j r ++ (c ∷ []) else lrange j r)
    pub lrange-ltrim :
        (j k : K) (n : ℕ) (r : R)
        → lrange j (ltrim k n r) ≡ (if e.beq k j then drop n (lrange j r) else lrange j r)
    pub lrange-delete :
        (j k : K) (r : R) → lrange j (delete k r) ≡ (if e.beq k j then [] else lrange j r)

-- A row in the order of its number, in place of the one that has it.
unfoldable pub place : {P : Type 0} → Chunk P → List (Chunk P) → List (Chunk P)
place c [] = c ∷ []
place c (d ∷ ds) =
    let rest = place c ds in
    if c.id == d.id then c ∷ ds else if ltb c.id d.id then c ∷ d ∷ ds else d ∷ rest

module _ (K P : Type 0) ⦃e : Eq K⦄ where
  -- the rows of a scope in ascending order, the upsert of one row, and the removal of a scope
  pub record ChunkTable (T : Type 0) : Type 0 where
    pub select : K → T → List (Chunk P)
    pub merge : K → Chunk P → T → T
    pub clear : K → T → T
    pub select-merge :
        (j k : K) (c : Chunk P) (t : T)
        → select j (merge k c t) ≡ (if e.beq k j then place c (select j t) else select j t)
    pub select-clear :
        (j k : K) (t : T) → select j (clear k t) ≡ (if e.beq k j then [] else select j t)
