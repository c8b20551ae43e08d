-- ===== src/Compaction/Service/Coverage.antt =====
-- What a summary of backend/app/application/compaction/service.py is made from, and how far it reaches.
use agent_studio.Base.{
  ℕ, ◌-◌, ◌<◌, ◌≤◌, ◌≡◌, ◌⊎◌, ◌∙◌, ap, sym, refl, Bool, true, false, inl, inr, some, List, [], ◌∷◌,
  ◌++◌, length, take, drop, ltb, leb, arith, not_leb→lt, leb→le, length-drop, take-append-drop,
  if◌then◌else◌, append_assoc,
}
use mathlib.Core.Option.{some-injective}
use agent_studio.Base.Eq.{filter_by}
use agent_studio.Base.Dict.{Dict}
use agent_studio.Base.Text.{Text}
use agent_studio.Compaction.Summary.{Turn, Value, render, Outcome, done}
use agent_studio.Compaction.Service.{Config, Layer, last_position, last}

abbrev pub Summarize : Type 0
Summarize = List Turn → Outcome (Dict Text Value)

-- The turns that the layers do not reach.
abbrev pub turns_after : List Layer → List Turn → List Turn
turns_after old head = filter_by (λ (m : Turn). ltb (last_position old) m.seq) head

-- The summary is that of the turns of the head that no layer reaches, or of the whole head when
-- there are as many layers as there may be; the position is that of the last turn.
abbrev pub IsSummaryOf : Config → Summarize → List Turn → List Layer → Text → ℕ → Type 0
IsSummaryOf c summarize head old summary position =
    (earlier : List Turn) × (m : Turn) × (turns_after old head ≡ earlier ++ (m ∷ []))
    × (position ≡ m.seq)
    × (payload : Dict Text Value) × (((length old < c.max_summary_layers)
          × (summarize (turns_after old head) ≡ done payload))
        ⊎ ((c.max_summary_layers ≤ length old) × (summarize head ≡ done payload)))
    × (summary ≡ render payload)

-- The position leaves exactly the newest turns that are kept.
abbrev pub IsTruncatedAt : ℕ → List Turn → ℕ → Type 0
IsTruncatedAt keep messages position =
    (before : List Turn) × (m : Turn) × (kept : List Turn) × (messages ≡ before ++ (m ∷ kept))
    × (length kept ≡ keep)
    × (position ≡ m.seq)

pub last-append :
    (xs : List Turn) (m : Turn)
    → last xs ≡ some m
    → (earlier : List Turn) × (xs ≡ earlier ++ (m ∷ []))
last-append [] m h = absurd (cc)
last-append (x ∷ []) m h = ([], ap (λ n. n ∷ []) (some-injective x m h))
last-append (x ∷ y ∷ xs) m h =
    let (earlier, e) = last-append (y ∷ xs) m h in (x ∷ earlier, ap (λ l. x ∷ l) e)

pub last-take-IsTruncatedAt :
    (keep : ℕ) (messages : List Turn) (m : Turn)
    → leb (length messages) keep ≡ false
    → last (take (length messages - keep) messages) ≡ some m
    → IsTruncatedAt keep messages m.seq
last-take-IsTruncatedAt keep messages m p h =
    let n = length messages - keep in
    let (before, e) = last-append (take n messages) m h in
    let more = not_leb→lt (length messages) keep p in
    let all = length-drop n messages in
    (
      before,
      m,
      drop n messages,
      sym (take-append-drop n messages)
          ∙ ap (λ l. l ++ drop n messages) e
          ∙ append_assoc before (m ∷ []) (drop n messages),
      omega arith,
      refl,
    )

-- With as many layers as there may be, all of the head is summarized.
pub summarized-IsSummaryOf :
    (c : Config) (summarize : Summarize) (head : List Turn) (old : List Layer) (m : Turn)
    (payload : Dict Text Value) (full : Bool)
    → leb c.max_summary_layers (length old) ≡ full
    → last (turns_after old head) ≡ some m
    → summarize (if full then head else turns_after old head) ≡ done payload
    → IsSummaryOf c summarize head old (render payload) m.seq
summarized-IsSummaryOf c summarize head old m payload true p l h =
    let (earlier, e) = last-append (turns_after old head) m l in
    (earlier, m, e, refl, payload, inr (leb→le _ _ p, h), refl)
summarized-IsSummaryOf c summarize head old m payload false p l h =
    let (earlier, e) = last-append (turns_after old head) m l in
    (earlier, m, e, refl, payload, inl (not_leb→lt _ _ p, h), refl)
