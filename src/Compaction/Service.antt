-- ===== src/Compaction/Service.antt =====
-- CompactionService of backend/app/application/compaction/service.py with `list_messages` and
-- `set_summary` of ThreadRepository in backend/app/infrastructure/db/threads.py, for one thread. The
-- estimate of a text and the summary of a list of turns are arguments, which Compaction.Summary
-- gives; so is whether the transaction of a checkpoint is stored.
pub mod Split
pub mod Snapshot
pub mod Coverage
pub mod Checkpoints
pub mod Layers
mod Tests
use agent_studio.Base.{
  ℕ, zero, suc, ◌+◌, ◌-◌, ◌*◌, ◌/◌, ◌≡◌, String, Bool, true, false, Option, none, some, List, [],
  ◌∷◌, ◌++◌, reverse, length, take, drop, ltb, leb, if◌then◌else◌,
}
use agent_studio.Base.Eq.{filter_by}
use agent_studio.Base.Dict.{Dict}
use agent_studio.Base.Text.{Text, codes, nonempty}
use agent_studio.Compaction.Breaker.{Breaker, record_failure, record_success, is_tripped}
use agent_studio.Compaction.Summary.{
  Turn, Value, Payload, validate, render, Failure, invalid, not_found, not_stored, Outcome, failed,
  done,
}

pub record Config : Type 0 where
  pub preemptive_ratio : ℕ
  pub reactive_ratio : ℕ
  pub keep_tokens : ℕ
  pub max_snapshot_messages : ℕ
  pub truncation_keep_turns : ℕ
  pub max_summary_layers : ℕ

pub data Action : Type 0 where
  reactive preemptive : Action

-- `evaluate`; the ratios are in hundredths.
unfoldable pub evaluate : Config → ℕ → ℕ → Option Action
evaluate c estimated zero = none
evaluate c estimated (suc budget) =
    if leb (c.reactive_ratio * suc budget) (100 * estimated)
    then some reactive
    else if leb (c.preemptive_ratio * suc budget) (100 * estimated)
    then some preemptive
    else none

-- `_split`: the number of the messages of the head, found from the newest to the oldest.
unfoldable pub head_size : (Text → ℕ) → ℕ → ℕ → List Turn → ℕ
head_size estimate keep acc [] = 0
head_size estimate keep acc (m ∷ older) =
    let tokens = estimate m.redacted_content in
    let rest = head_size estimate keep (acc + tokens) older in
    if ltb keep (acc + tokens) then suc (length older) else rest

abbrev pub split : (Text → ℕ) → ℕ → List Turn → List Turn × List Turn
split estimate keep messages =
    let tail_idx = head_size estimate keep 0 (reverse messages) in
    (take tail_idx messages, drop tail_idx messages)

-- `list_messages` on the log of a thread, which is in the order of its numbers
abbrev pub after : Option ℕ → List Turn → List Turn
after none log = log
after (some seq) log = filter_by (λ (m : Turn). ltb seq m.seq) log

abbrev pub list_messages : ℕ → Option ℕ → List Turn → List Turn × Bool
list_messages limit after_seq log =
    let rows = take (suc limit) (after after_seq log) in (take limit rows, ltb limit (length rows))

-- the last message, or none
abbrev pub last : List Turn → Option Turn
last [] = none
last (m ∷ []) = some m
last (m ∷ n ∷ ms) = last (n ∷ ms)

abbrev pub seq_of : Option Turn → Option ℕ
seq_of none = none
seq_of (some m) = some m.seq

-- `_snapshot`, with fuel for the pages
unfoldable pub pages : ℕ → ℕ → ℕ → Option ℕ → List Turn → List Turn → List Turn
unfolding filter_by
pages zero most limit after_seq messages log = messages
pages (suc fuel) most limit after_seq messages log =
    let (page, has_more) = list_messages limit after_seq log in
    let rest = pages fuel most limit (seq_of (last page)) (messages ++ page) log in
    if leb most (length messages)
    then messages
    else if nonempty page
    then (if has_more then rest else messages ++ page)
    else messages

abbrev pub page_size : ℕ
page_size = 200

unfoldable pub snapshot : Config → List Turn → List Turn
unfolding pages
snapshot c log = pages (suc c.max_snapshot_messages) c.max_snapshot_messages page_size none [] log

pub record Layer : Type 0 where
  pub position : ℕ
  pub content : Text

-- `summary_block` without its payload
pub record Block : Type 0 where
  pub content : Text
  pub head_until_seq : ℕ
  pub layers : List Layer

pub record Thread : Type 0 where
  pub summary_block : Option Block
  pub summary_position : ℕ
  pub summary_version : ℕ

-- `set_summary`, in one transaction
abbrev pub set_summary : Bool → Block → ℕ → Option Thread → Option Thread × Outcome ℕ
set_summary stored block position none = (none, failed not_found)
set_summary false block position (some t) = (some t, failed not_stored)
set_summary true block position (some t) = (
  some (record {
    summary_block = some block;
    summary_position = position;
    summary_version = suc t.summary_version;
  }),
  done (suc t.summary_version),
)

abbrev pub legacy_layers : Text → ℕ → List Layer
legacy_layers [] position = []
legacy_layers (c ∷ content) position = record { position = position; content = c ∷ content } ∷ []

abbrev pub layers_of : Block → ℕ → List Layer
layers_of b position = if nonempty b.layers then b.layers else legacy_layers b.content position

abbrev pub block_layers : Option Block → ℕ → List Layer
block_layers none position = []
block_layers (some b) position = layers_of b position

-- `_current_layers`
abbrev pub current_layers : Option Thread → List Layer
current_layers none = []
current_layers (some t) = block_layers t.summary_block t.summary_position

abbrev pub last_position : List Layer → ℕ
last_position [] = 0
last_position (l ∷ []) = l.position
last_position (l ∷ m ∷ ls) = last_position (m ∷ ls)

unfoldable pub join_paragraphs : List Layer → Text
join_paragraphs [] = []
join_paragraphs (l ∷ []) = l.content
join_paragraphs (l ∷ m ∷ ls) = l.content ++ (10 ∷ 10 ∷ join_paragraphs (m ∷ ls))

-- What `compact` returns or raises.
pub data Compacted : Type 0 where
  noop : Compacted
  committed : (summary : Text) (summary_version summary_position : ℕ) (degraded : Bool) → Compacted
  raised : Failure → Compacted

pub record State : Type 0 where
  pub thread : Option Thread
  pub breaker : Breaker

abbrev pub degraded_summary_content : Text
degraded_summary_content =
    codes "Summary unavailable (compaction degraded; older context truncated)."

abbrev pub truncated : Bool → ℕ → State → Option Thread × Outcome ℕ → State × Compacted
truncated stored position s (t, failed f) = (record s { thread = t }, raised f)
truncated stored position s (t, done version) =
    (record s { thread = t }, committed degraded_summary_content version position true)

abbrev pub truncate_at : Bool → State → Option Turn → State × Compacted
truncate_at stored s none = (s, noop)
truncate_at stored s (some boundary) = truncated stored boundary.seq s (
    set_summary stored
      (record { content = degraded_summary_content; head_until_seq = boundary.seq; layers = [] })
      boundary.seq s.thread)

-- `_truncate_fallback`; the boundary is `snapshot[-(keep + 1)]`
abbrev pub truncate_fallback : Bool → ℕ → List Turn → State → State × Compacted
truncate_fallback stored keep messages s =
    if leb (length messages) keep
    then (s, noop)
    else truncate_at stored s (last (take (length messages - keep) messages))

abbrev pub layer : ℕ → Text → Layer
layer position content = record { position = position; content = content }

abbrev pub new_layers : Bool → List Layer → Layer → List Layer
new_layers true old l = l ∷ []
new_layers false old l = old ++ (l ∷ [])

module _ (c : Config) (key : String) (now : ℕ) (stored : Bool) where
  abbrev pub give_up : State → Option Thread → Failure → State × Compacted
  give_up s t f = (record { thread = t; breaker = (record_failure s.breaker key now).1 }, raised f)

  abbrev pub swapped : State → Text → ℕ → Option Thread × Outcome ℕ → State × Compacted
  swapped s summary position (t, failed f) = give_up s t f
  swapped s summary position (t, done version) = (
    record { thread = t; breaker = record_success s.breaker key },
    committed summary version position false,
  )

  abbrev pub checkpoint : State → List Layer → Text → ℕ → State × Compacted
  checkpoint s layers summary position = swapped s summary position (
      set_summary stored
        (record { content = join_paragraphs layers; head_until_seq = position; layers = layers })
        position s.thread)

  abbrev pub summarized :
      Bool → List Layer → State → ℕ → Outcome (Dict Text Value) → State × Compacted
  summarized full old s position (failed f) = give_up s s.thread f
  summarized full old s position (done payload) =
      if nonempty (validate (some payload))
      then give_up s s.thread invalid
      else checkpoint s (new_layers full old (layer position (render payload))) (render payload)
          position

  -- The turns after the last boundary are summarized in a layer of their own, or all of the head if
  -- there are as many layers as there may be.
  abbrev pub append_layer :
      (List Turn → Outcome (Dict Text Value))
      → List Turn
      → List Turn
      → State
      → Option Turn
      → State × Compacted
  append_layer summarize head head_slice s none = (s, noop)
  append_layer summarize head head_slice s (some boundary) =
      let old = current_layers s.thread in
      let full = leb c.max_summary_layers (length old) in
      summarized full old s boundary.seq (summarize (if full then head else head_slice))

  abbrev pub compact_head :
      (List Turn → Outcome (Dict Text Value)) → List Turn → State → State × Compacted
  compact_head summarize head s =
      let prev_position = last_position (current_layers s.thread) in
      let head_slice = filter_by (λ (m : Turn). ltb prev_position m.seq) head in
      append_layer summarize head head_slice s (last head_slice)

  abbrev pub unless_tripped :
      (List Turn → Outcome (Dict Text Value))
      → List Turn
      → List Turn
      → State
      → Bool × Breaker
      → State × Compacted
  unless_tripped summarize messages head s (true, b) =
      truncate_fallback stored c.truncation_keep_turns messages (record s { breaker = b })
  unless_tripped summarize messages head s (false, b) =
      compact_head summarize head (record s { breaker = b })

  -- `compact`; without messages there is no head
  unfoldable pub compact :
      (Text → ℕ) → (List Turn → Outcome (Dict Text Value)) → List Turn → State → State × Compacted
  unfolding record_failure record_success join_paragraphs render filter_by snapshot head_size
      is_tripped validate
  compact estimate summarize log s =
      let messages = snapshot c log in
      let head = (split estimate c.keep_tokens messages).0 in
      if nonempty head
      then unless_tripped summarize messages head s (is_tripped s.breaker key now)
      else (s, noop)
