-- ===== src/Compaction/Service/Layers.antt =====
-- The layers of a summary, in backend/app/application/compaction/service.py, over many compactions.
use agent_studio.Base.{
  ℕ, ◌<◌, ◌≤◌, String, Bool, true, false, inl, inr, Option, List, [], ◌∷◌, ◌++◌, max, length,
  length-append, arith,
}
use agent_studio.Base.Dict.{Dict}
use agent_studio.Base.Text.{Text}
use agent_studio.Compaction.Summary.{Turn, Value, Outcome}
use agent_studio.Compaction.Service.{
  Config, Layer, Block, Thread, State, Compacted, noop, committed, raised, current_layers,
  last_position, layer, layers_of, compact,
}
use agent_studio.Compaction.Service.Coverage.{Summarize}
use agent_studio.Compaction.Service.Checkpoints.{IsGrown, IsWritten, Explains, compact-Explains}

-- The layers reach further one after the other.
abbrev pub IsRising : List Layer → Type 0
IsRising [] = Unit
IsRising (l ∷ []) = Unit
IsRising (l ∷ m ∷ ls) = (l.position < m.position) × IsRising (m ∷ ls)

abbrev pub IsStacked : Config → List Layer → Type 0
IsStacked c layers = IsRising layers × (length layers ≤ max 1 c.max_summary_layers)

append-IsRising :
    (ls : List Layer) (l : Layer)
    → IsRising ls
    → last_position ls < l.position
    → IsRising (ls ++ (l ∷ []))
append-IsRising [] l r h = tt
append-IsRising (k ∷ []) l r h = (h, tt)
append-IsRising (k ∷ m ∷ ls) l (q, r) h = (q, append-IsRising (m ∷ ls) l r h)

grown-IsStacked :
    (c : Config) (old : List Layer) (summary : Text) (position : ℕ) (new : List Layer)
    → IsStacked c old
    → IsGrown c old summary position new
    → IsStacked c new
grown-IsStacked c old summary position new (r, l) (inl (h, e), p) =
    let a = length-append old (layer position summary ∷ []) in
    rw e (append-IsRising old (layer position summary) r p, omega arith)
grown-IsStacked c old summary position new s (inr (h, e), p) = rw e (tt, omega arith)

-- What stands in the block are the layers of the thread, unless it has none.
block-IsStacked :
    (c : Config) (content : Text) (position : ℕ) (until : ℕ) (layers : List Layer)
    → IsStacked c layers
    → IsStacked c
        (layers_of (record { content = content; head_until_seq = until; layers = layers }) position)
block-IsStacked c [] position until [] s = s
block-IsStacked c (x ∷ content) position until [] s = (tt, omega arith)
block-IsStacked c content position until (l ∷ layers) s = s

module _ (c : Config) (summarize : Summarize) (messages head : List Turn) where
  written-IsStacked :
      (old : Option Thread) (degraded : Bool) (summary : Text) (position : ℕ) (b : Block)
      → IsStacked c (current_layers old)
      → IsWritten c summarize messages head old degraded summary position b
      → IsStacked c (layers_of b position)
  written-IsStacked old true summary position b s ((p, q, e), w) =
      block-IsStacked c b.content position b.head_until_seq b.layers (rw e (tt, omega arith))
  written-IsStacked old false summary position b s ((g, q), w) =
      block-IsStacked c b.content position b.head_until_seq b.layers
        (grown-IsStacked c (current_layers old) summary position b.layers s g)

  Explains-IsStacked :
      (old new : Option Thread) (r : Compacted)
      → IsStacked c (current_layers old)
      → Explains c summarize messages head old new r
      → IsStacked c (current_layers new)
  Explains-IsStacked old new noop s e = rw e s
  Explains-IsStacked old new (raised f) s e = rw e s
  Explains-IsStacked old new (committed summary version position degraded) s (t, b, o, v, e, u, w) =
      rw e (written-IsStacked old degraded summary position b s w)

-- A compaction: when it runs, whether it is stored, how it summarizes, and the log that it finds.
pub record Attempt : Type 0 where
  pub now : ℕ
  pub stored : Bool
  pub estimate : Text → ℕ
  pub summarize : List Turn → Outcome (Dict Text Value)
  pub log : List Turn

abbrev pub compact_all : Config → String → List Attempt → State → State
compact_all c key [] s = s
compact_all c key (a ∷ rest) s =
    compact_all c key rest (compact c key a.now a.stored a.estimate a.summarize a.log s).0

-- If the layers of a thread's summary rise and are not too many, this is so after any number of
-- compactions of any logs, whatever fails: each layer reaches further than the one before, and there
-- are max_summary_layers at most, or one.
pub compact_all-IsStacked :
    (c : Config) (key : String) (attempts : List Attempt) (s : State)
    → IsStacked c (current_layers s.thread)
    → IsStacked c (current_layers (compact_all c key attempts s).thread)
compact_all-IsStacked c key [] s h = h
compact_all-IsStacked c key (a ∷ rest) s h = compact_all-IsStacked c key rest _ (
    Explains-IsStacked c a.summarize _ _ s.thread _ _ h
      (compact-Explains c key a.now a.stored a.estimate a.summarize a.log s))
