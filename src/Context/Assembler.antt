-- ===== src/Context/Assembler.antt =====
-- `assemble` of backend/app/context/assembler.py, one definition for each numbered block.
pub mod Walk
pub mod Accounting
mod Guard
pub mod Redaction
mod Tests
use agent_studio.Base.{
  ℕ, zero, suc, ◌+◌, ◌-◌, ◌*◌, ◌/◌, ◌%◌, Bool, true, false, not, ◌&&◌, ◌||◌, Option, none, some,
  List, [], ◌∷◌, ◌++◌, map, reverse, length, ltb, leb, ◌==◌, if◌then◌else◌,
}
use agent_studio.Base.Eq.{nat_eq, list_eq, list_beq}
use agent_studio.Base.Text.{Text, codes, nonempty}
use agent_studio.Base.Sort.{sort_by}
use agent_studio.Context.Estimator.{Estimator, estimate}
use agent_studio.Gateway.Catalog.{Catalog, context_window}
use agent_studio.Context.Prompt.{
  Assembly, Context, ContextTurn, Doc, Message, is_covered, layer_texts, memory_text,
  normalize_layers, recent_turns_first, source_block, turn_content, turn_label, assembled,
  budget_exceeded, redaction_violation,
}

abbrev pub system_message : Bool → Text → Message
system_message marked content = record {
  role = codes "system";
  content = content;
  cache_control = marked;
}

-- `range(idx, len(docs))`
abbrev pub range : ℕ → ℕ → List ℕ
range i zero = []
range i (suc n) = i ∷ range (suc i) n

module _ (count : Text → ℕ) where
  unfoldable pub message_tokens : List Message → ℕ
  message_tokens [] = 0
  message_tokens (m ∷ ms) = count m.content + message_tokens ms

  abbrev pub layer_messages : Bool → List Text → List Message
  layer_messages markers [] = []
  layer_messages markers (l ∷ ls) = system_message markers l ∷ layer_messages markers ls

  -- 2: the layers of the summary, whole or not at all
  unfoldable pub with_summary : Bool → List Text → Context → Context
  unfolding message_tokens
  with_summary markers [] c = c
  with_summary markers (l ∷ ls) c =
      let block = layer_messages markers (layer_texts (l ∷ ls)) in
      let tokens = message_tokens block in
      if leb tokens c.remaining
      then record c {
        messages = c.messages ++ block;
        summary = tokens;
        remaining = c.remaining - tokens;
      }
      else record c { omitted_blocks = c.omitted_blocks ++ (codes "summary" ∷ []) }

  -- 3: the memory block
  unfoldable pub with_memory : List Text → Context → Context
  unfolding memory_text
  with_memory [] c = c
  with_memory (f ∷ fs) c =
      let text = memory_text (f ∷ fs) in
      let tokens = count text in
      if leb tokens c.remaining
      then record c {
        messages = c.messages ++ (system_message false text ∷ []);
        memory = tokens;
        remaining = c.remaining - tokens;
      }
      else record c { omitted_blocks = c.omitted_blocks ++ (codes "memory" ∷ []) }

  -- The rendered turns, the newest first, with the context.
  abbrev pub Walk : Type 0
  Walk = List Message × Context

  abbrev pub turn_message : ContextTurn → Text → Message
  turn_message t content = record { role = t.role; content = content; cache_control = false }

  abbrev pub omit_turn : ContextTurn → Context → Context
  omit_turn t c = record c { omitted_turns = c.omitted_turns ++ (turn_label t ∷ []) }

  abbrev pub show_turn : ContextTurn → Text → Walk → Walk
  show_turn t content (ms, c) = (
    ms ++ (turn_message t content ∷ []),
    record c { tail = c.tail + count content; remaining = c.remaining - count content },
  )

  unfoldable pub place_turn : ContextTurn → Option Text → Walk → Option Walk
  unfolding turn_label
  place_turn t none w = none
  place_turn t (some content) (ms, c) =
      if not (nonempty content)
      then some (ms, c)
      else if ltb c.remaining (count content)
      then some (ms, omit_turn t c)
      else some (show_turn t content (ms, c))

  unfoldable pub tail_step : Bool → Option ℕ → ContextTurn → Walk → Option Walk
  unfolding place_turn turn_content
  tail_step clear position t w =
      if is_covered position t then some w else place_turn t (turn_content clear t) w

  -- 4: the walk over the turns
  unfoldable pub tail_loop : Bool → Option ℕ → List ContextTurn → Walk → Option Walk
  unfolding tail_step
  tail_loop clear position [] w = some w
  tail_loop clear position (t ∷ ts) w = elim (tail_step clear position t w) [
    | none ↦ none
    | some next ↦ tail_loop clear position ts next
  ]

  abbrev pub render_tail : Walk → Context
  render_tail (ms, c) = record c { messages = c.messages ++ reverse ms }

  -- 5: the documents, up to the first that does not fit
  unfoldable pub doc_loop : ℕ → List Doc → Context → Context
  unfolding source_block
  doc_loop i [] c = c
  doc_loop i (d ∷ ds) c =
      let text = source_block i d in
      let tokens = count text in
      let more = doc_loop (suc i) ds (record c {
        messages = c.messages ++ (system_message false text ∷ []);
        knowledge = c.knowledge + tokens;
        remaining = c.remaining - tokens;
      }) in
      if ltb c.remaining tokens
      then record c { omitted_docs = c.omitted_docs ++ range i (suc (length ds)) }
      else more

  -- 6: the message of the user
  unfoldable pub with_current : Text → Context → Assembly
  with_current text c =
      if ltb c.remaining (count text)
      then budget_exceeded
      else assembled (record c {
        messages =
            c.messages
            ++ (record { role = codes "user"; content = text; cache_control = false } ∷ []);
        current = count text;
        remaining = c.remaining - count text;
      })

-- The arguments of `assemble`; `none`, 0 and an empty list are the absent ones.
pub record Inputs : Type 0 where
  pub provider : Text
  pub model : Text
  pub system_prompt : Text
  pub current_message : Text
  pub history_turns : List ContextTurn
  pub summary : Text
  pub summary_position : Option ℕ
  pub summary_layers : List Text
  pub memory_facts : List Text
  pub retrieved_docs : List Doc
  pub clear_tool_payloads : Bool
  pub context_window_override : ℕ
  pub cache_markers : Option Bool

pub record Loader : Type 0 where
  pub estimator : Estimator
  pub catalog : Catalog
  pub output_reserve_tokens : ℕ
  pub cache_markers : Bool

-- `_sorted_docs`
unfoldable pub sorted_docs : List Doc → List Doc
unfolding sort_by
sorted_docs ds = sort_by (λ a b. leb b.score a.score) ds

abbrev pub window_of : Loader → Inputs → ℕ
window_of l i =
    if ltb 0 i.context_window_override
    then i.context_window_override
    else context_window l.catalog i.provider i.model

abbrev pub markers_of : Loader → Inputs → Bool
markers_of l i = elim i.cache_markers [ none ↦ l.cache_markers | some b ↦ b ]

-- 1: the system prompt
abbrev pub opening : Bool → Text → ℕ → ℕ → Context
opening markers prompt tokens budget = record {
  messages = system_message markers prompt ∷ [];
  system = tokens;
  summary = 0;
  memory = 0;
  tail = 0;
  knowledge = 0;
  current = 0;
  omitted_turns = [];
  omitted_docs = [];
  omitted_blocks = [];
  remaining = budget - tokens;
}

module _ (count : Text → ℕ) (l : Loader) (i : Inputs) where
  -- The blocks before the tail.
  unfoldable pub stable_blocks : ℕ → Context
  unfolding with_summary with_memory normalize_layers
  stable_blocks budget = with_memory count i.memory_facts (
      with_summary count (markers_of l i) (normalize_layers i.summary_layers i.summary)
        (opening (markers_of l i) i.system_prompt (count i.system_prompt) budget))

  -- The blocks after the walk.
  abbrev pub finish : Option (Walk count) → Assembly
  finish none = redaction_violation
  finish (some w) =
      with_current count i.current_message
        (doc_loop count 0 (sorted_docs i.retrieved_docs) (render_tail count w))

  unfoldable pub assemble_with : Assembly
  unfolding stable_blocks tail_loop doc_loop with_current sorted_docs recent_turns_first
  assemble_with =
      let budget = window_of l i - l.output_reserve_tokens in
      if leb (window_of l i) l.output_reserve_tokens
      then budget_exceeded
      else if ltb budget (count i.system_prompt)
      then budget_exceeded
      else finish (
          tail_loop count i.clear_tool_payloads i.summary_position
            (recent_turns_first i.history_turns) ([], stable_blocks budget))

unfoldable pub assemble : Loader → Inputs → Assembly
unfolding assemble_with estimate
assemble l i = assemble_with (estimate l.estimator i.provider i.model) l i
