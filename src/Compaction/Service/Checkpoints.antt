-- ===== src/Compaction/Service/Checkpoints.antt =====
-- What `compact` of backend/app/application/compaction/service.py does to the summary of a thread.
use agent_studio.Base.{
  ℕ, suc, ◌-◌, ◌<◌, ◌≤◌, ◌≡◌, subst, refl, String, Bool, true, false, inl, inr, ◌⊎◌, Option, none,
  some, List, [], ◌∷◌, ◌++◌, length, take, ltb, leb, Bool-cases, if◌then◌else◌, ltb→lt, leb→le,
  not_leb→lt,
}
use mathlib.Core.Option.{some-injective}
use agent_studio.Base.Eq.{filter_by}
use agent_studio.Base.Dict.{Dict}
use agent_studio.Base.Text.{Text, nonempty}
use agent_studio.Compaction.Breaker.{Breaker, is_tripped}
use agent_studio.Compaction.Summary.{Turn, Value, validate, render, Outcome, failed, done}
use agent_studio.Compaction.Service.{
  Config, Layer, Block, Thread, State, Compacted, noop, committed, raised, current_layers,
  last_position, join_paragraphs, last, truncate_at, truncate_fallback, degraded_summary_content,
  checkpoint, layer, new_layers, summarized, append_layer, compact_head, unless_tripped, compact,
  split, snapshot,
}
use agent_studio.Compaction.Service.Coverage.{
  Summarize, turns_after, IsSummaryOf, IsTruncatedAt, last-take-IsTruncatedAt,
  summarized-IsSummaryOf,
}

-- The layers after a compaction: a new one is appended, and the others stay as they are, or it
-- replaces them all when there are as many as there may be. It goes further than they did.
abbrev pub IsGrown : Config → List Layer → Text → ℕ → List Layer → Type 0
IsGrown c old summary position new =
    (((length old < c.max_summary_layers)
        × (new ≡ old ++ (record { position = position; content = summary } ∷ [])))
      ⊎ ((c.max_summary_layers ≤ length old)
          × (new ≡ record { position = position; content = summary } ∷ [])))
    × (last_position old < position)

-- What is made from what: how to summarize, the messages that were read, and the head of them.
abbrev pub IsWritten :
    Config → Summarize → List Turn → List Turn → Option Thread → Bool → Text → ℕ → Block → Type 0
IsWritten c summarize messages head old true summary position b =
    ((b.content ≡ degraded_summary_content)
      × (summary ≡ degraded_summary_content)
      × (b.layers ≡ []))
    × IsTruncatedAt c.truncation_keep_turns messages position
IsWritten c summarize messages head old false summary position b =
    (IsGrown c (current_layers old) summary position b.layers
      × (b.content ≡ join_paragraphs b.layers))
    × IsSummaryOf c summarize head (current_layers old) summary position

-- What a result says of the thread, before and after.
abbrev pub Explains :
    Config → Summarize → List Turn → List Turn → Option Thread → Option Thread → Compacted → Type 0
Explains c summarize messages head old new noop = new ≡ old
Explains c summarize messages head old new (raised f) = new ≡ old
Explains c summarize messages head old new (committed summary version position degraded) =
    (t : Thread) × (b : Block) × (old ≡ some t)
    × (version ≡ suc t.summary_version)
    × (new
        ≡ some (record {
          summary_block = some b;
          summary_position = position;
          summary_version = version;
        }))
    × (b.head_until_seq ≡ position)
    × IsWritten c summarize messages head old degraded summary position b

last_of :
    (p : Turn → Bool) (x m : Turn) (ys : List Turn)
    → p x ≡ true
    → (last ys ≡ some m → p m ≡ true)
    → last (x ∷ ys) ≡ some m
    → p m ≡ true
last_of p x m [] q h e = subst (λ n. p n ≡ true) (some-injective x m e) q
last_of p x m (y ∷ ys) q h e = h e

last-filter_by :
    (p : Turn → Bool) (xs : List Turn) (m : Turn) → last (filter_by p xs) ≡ some m → p m ≡ true
unfolding filter_by
last-filter_by p [] m e = absurd cc
last-filter_by p (x ∷ xs) m e = elim (Bool-cases (p x)) [
  | inl q ↦ last_of p x m (filter_by p xs) q (last-filter_by p xs m) (rw q at e)
  | inr q ↦ last-filter_by p xs m (rw q at e)
]

module _ (c : Config) (summarize : Summarize) (messages head : List Turn) where
  abbrev ExplainsAll : Option Thread → State × Compacted → Type 0
  ExplainsAll old (s, r) = Explains c summarize messages head old s.thread r

  truncate_at-Explains :
      (stored : Bool) (t : Option Thread) (b : Breaker) (boundary : Option Turn)
      → ((m : Turn) → boundary ≡ some m → IsTruncatedAt c.truncation_keep_turns messages m.seq)
      → ExplainsAll t (truncate_at stored (record { thread = t; breaker = b }) boundary)
  truncate_at-Explains stored t b none h = refl
  truncate_at-Explains stored none b (some m) h = refl
  truncate_at-Explains false (some t) b (some m) h = refl
  truncate_at-Explains true (some t) b (some m) h =
      (t, _, refl, refl, refl, refl, ((refl, refl, refl), h m refl))

  truncate_fallback-Explains :
      (stored : Bool) (t : Option Thread) (b : Breaker)
      → ExplainsAll t (
          truncate_fallback stored c.truncation_keep_turns messages
            (record { thread = t; breaker = b }))
  truncate_fallback-Explains stored t b =
      let keep = c.truncation_keep_turns in
      elim (Bool-cases (leb (length messages) keep)) [
        | inl p ↦ rw p refl
        | inr p ↦ rw p (
            truncate_at-Explains stored t b (last (take (length messages - keep) messages))
              (λ m e. last-take-IsTruncatedAt keep messages m p e))
      ]

  module _ (key : String) (now : ℕ) (b : Breaker) where
    checkpoint-Explains :
        (stored : Bool) (t : Option Thread) (layers : List Layer) (summary : Text) (position : ℕ)
        → IsGrown c (current_layers t) summary position layers
        → IsSummaryOf c summarize head (current_layers t) summary position
        → ExplainsAll t (
            checkpoint c key now stored
              (record { thread = t; breaker = b })
              layers
              summary
              position)
    checkpoint-Explains stored none layers summary position g w = refl
    checkpoint-Explains false (some t) layers summary position g w = refl
    checkpoint-Explains true (some t) layers summary position g w =
        (t, _, refl, refl, refl, refl, ((g, refl), w))

    new_layers-IsGrown :
        (old : List Layer) (summary : Text) (position : ℕ) (full : Bool)
        → leb c.max_summary_layers (length old) ≡ full
        → last_position old < position
        → IsGrown c old summary position (new_layers full old (layer position summary))
    new_layers-IsGrown old summary position true e h = (inr (leb→le _ _ e, refl), h)
    new_layers-IsGrown old summary position false e h = (inl (not_leb→lt _ _ e, refl), h)

    summarized-Explains :
        (stored : Bool) (t : Option Thread) (full : Bool) (m : Turn) (o : Outcome (Dict Text Value))
        → leb c.max_summary_layers (length (current_layers t)) ≡ full
        → last (turns_after (current_layers t) head) ≡ some m
        → summarize (if full then head else turns_after (current_layers t) head) ≡ o
        → ExplainsAll t (
            summarized c key now stored full
              (current_layers t)
              (record { thread = t; breaker = b })
              m.seq
              o)
    summarized-Explains stored t full m (failed f) e l h = refl
    summarized-Explains stored t full m (done d) e l h =
        let old = current_layers t in
        let newer =
          ltb→lt _ _ (last-filter_by (λ (n : Turn). ltb (last_position old) n.seq) head m l) in
        elim (Bool-cases (nonempty (validate (some d)))) [
          | inl p ↦ rw p refl
          | inr p ↦ rw p (
              checkpoint-Explains stored t _ (render d) m.seq
                (new_layers-IsGrown old (render d) m.seq full e newer)
                (summarized-IsSummaryOf c summarize head old m d full e l h))
        ]

    append_layer-Explains :
        (stored : Bool) (t : Option Thread) (boundary : Option Turn)
        → last (turns_after (current_layers t) head) ≡ boundary
        → ExplainsAll t (
            append_layer c key now stored summarize head
              (turns_after (current_layers t) head)
              (record { thread = t; breaker = b })
              boundary)
    append_layer-Explains stored t none h = refl
    append_layer-Explains stored t (some m) h =
        summarized-Explains stored t (leb c.max_summary_layers (length (current_layers t))) m _ refl
          h refl

    compact_head-Explains :
        (stored : Bool) (t : Option Thread)
        → ExplainsAll t
            (compact_head c key now stored summarize head (record { thread = t; breaker = b }))
    compact_head-Explains stored t = append_layer-Explains stored t _ refl

  unless_tripped-Explains :
      (key : String) (now : ℕ) (stored : Bool) (t : Option Thread) (b : Breaker)
      (tripped : Bool × Breaker)
      → ExplainsAll t (
          unless_tripped c key now stored summarize messages head
            (record { thread = t; breaker = b })
            tripped)
  unless_tripped-Explains key now stored t b (true, b') = truncate_fallback-Explains stored t b'
  unless_tripped-Explains key now stored t b (false, b') = compact_head-Explains key now b' stored t

pub compact-Explains :
    (c : Config) (key : String) (now : ℕ) (stored : Bool) (estimate : Text → ℕ)
    (summarize : List Turn → Outcome (Dict Text Value)) (log : List Turn) (s : State)
    → let messages = snapshot c log in
      let (r, result) = compact c key now stored estimate summarize log s in
      Explains c summarize messages
        (split estimate c.keep_tokens messages).0
        s.thread
        r.thread
        result
unfolding compact
compact-Explains c key now stored estimate summarize log s =
    let messages = snapshot c log in
    let head = (split estimate c.keep_tokens messages).0 in
    elim (Bool-cases (nonempty head)) [
      | inl p ↦ rw p (
          unless_tripped-Explains c summarize messages head key now stored s.thread s.breaker
            (is_tripped s.breaker key now))
      | inr p ↦ rw p refl
    ]
