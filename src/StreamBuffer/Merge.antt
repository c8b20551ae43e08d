-- ===== src/StreamBuffer/Merge.antt =====
-- The union of the two tiers by number in `replay` of backend/app/infrastructure/stream/buffer.py.
use agent_studio.Base.{
  ℕ, Bool, ◌||◌, Option, none, some, List, [], ◌∷◌, ltb, leb, map, if◌then◌else◌,
}
use agent_studio.Base.Dict.{Dict, lookup, insert}
use agent_studio.Base.Eq.{nat_eq, list_beq}
use agent_studio.Base.Sort.{sort_by}
use agent_studio.Base.Text.{codes}
use agent_studio.StreamBuffer.Stores.{Chunk}

module _ {P : Type 0} where
  abbrev pub newer : ℕ → Chunk P → Bool
  newer after c = ltb after c.id

  -- `{r["id"]: r for r in overflow}`
  unfoldable pub by_id : List (Chunk P) → Dict ℕ (Chunk P) → Dict ℕ (Chunk P)
  unfolding insert
  by_id [] seen = seen
  by_id (c ∷ cs) seen = by_id cs (insert c.id c seen)

  abbrev pub set_default : Option (Chunk P) → Chunk P → Dict ℕ (Chunk P) → Dict ℕ (Chunk P)
  set_default none c seen = insert c.id c seen
  set_default (some d) c seen = seen

  unfoldable pub add_hot : List (Chunk P) → Dict ℕ (Chunk P) → Dict ℕ (Chunk P)
  unfolding lookup insert
  add_hot [] seen = seen
  add_hot (c ∷ cs) seen = add_hot cs (set_default (lookup c.id seen) c seen)

  abbrev pub id_le : Chunk P → Chunk P → Bool
  id_le c d = leb c.id d.id

  abbrev pub value : ℕ × Chunk P → Chunk P
  value (i, c) = c

  unfoldable pub merge_tiers : List (Chunk P) → List (Chunk P) → List (Chunk P)
  unfolding by_id add_hot sort_by
  merge_tiers overflow hot = sort_by id_le (map value (add_hot hot (by_id overflow [])))

  abbrev is_terminal : Chunk P → Bool
  is_terminal c = list_beq c.type (codes "result") || list_beq c.type (codes "error")

  unfoldable pub first_terminal : List (Chunk P) → Option (Chunk P)
  first_terminal [] = none
  first_terminal (c ∷ cs) = let rest = first_terminal cs in if is_terminal c then some c else rest
