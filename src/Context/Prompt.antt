-- ===== src/Context/Prompt.antt =====
-- What backend/app/context/assembler.py reads and writes, and the texts that it renders. A score is
-- in hundredths; a sequence number is a natural number, and `none` is a missing one. The token counts
-- have a field for each block, 0 where the code has no entry.
use agent_studio.Base.{
  ℕ, zero, suc, ◌+◌, ◌/◌, ◌%◌, Bool, false, ◌&&◌, ◌||◌, Option, none, some, List, [], ◌∷◌, ◌++◌,
  map, ltb, leb, ◌==◌, if◌then◌else◌,
}
use agent_studio.Base.Eq.{nat_eq, list_eq, list_beq}
use agent_studio.Base.Text.{Text, codes, nonempty}
use agent_studio.Base.Sort.{sort_by}

abbrev pub newline : ℕ
newline = 10

abbrev pub summary_block_header : Text
summary_block_header =
    codes "Summary of the conversation so far (compaction checkpoint; immutable)."

abbrev pub memory_block_header : Text
memory_block_header = codes "End-user memory (opt-in facts about the customer):"

abbrev pub tool_result_placeholder : Text
tool_result_placeholder = codes "[tool result cleared; re-fetch on demand]"

pub record ContextTurn : Type 0 where
  pub role : Text
  pub content : Text
  pub seq : Option ℕ
  pub message_id : Option Text
  pub has_tool_payload : Bool
  pub raw_content : Option Text

pub record Doc : Type 0 where
  pub content : Text
  pub score : ℕ

pub record Message : Type 0 where
  pub role : Text
  pub content : Text
  pub cache_control : Bool

-- `AssembledContext`, with the budget that is left.
pub record Context : Type 0 where
  pub messages : List Message
  pub system : ℕ
  pub summary : ℕ
  pub memory : ℕ
  pub tail : ℕ
  pub knowledge : ℕ
  pub current : ℕ
  pub omitted_turns : List Text
  pub omitted_docs : List ℕ
  pub omitted_blocks : List Text
  pub remaining : ℕ

pub data Assembly : Type 0 where
  assembled : Context → Assembly
  budget_exceeded : Assembly
  redaction_violation : Assembly

-- `sum(ctx.token_counts.values())`
abbrev pub total_tokens : Context → ℕ
total_tokens c = c.system + c.summary + c.memory + c.tail + c.knowledge + c.current

-- The decimal digits of a number, as `str` writes it; the fuel bounds their number.
digits : ℕ → ℕ → Text
digits zero n = []
digits (suc fuel) n =
    let more = digits fuel (n / 10) in (if ltb 9 n then more else []) ++ ((b'0' + n % 10) ∷ [])

unfoldable pub decimal : ℕ → Text
unfolding digits
decimal n = digits (suc n) n

-- `f"{score:.2f}"`
unfoldable pub two_places : ℕ → Text
unfolding decimal
two_places n = decimal (n / 100) ++ (codes "." ++ ((b'0' + (n / 10) % 10) ∷ (b'0' + n % 10) ∷ []))

unfoldable pub source_block : ℕ → Doc → Text
unfolding decimal two_places
source_block i d =
    codes "[Source "
    ++ (decimal (suc i)
        ++ (codes "] (Score: " ++ (two_places d.score ++ (codes ")" ++ (newline ∷ d.content)))))

-- The texts of the summary's layers.
abbrev pub layer_texts : List Text → List Text
layer_texts [] = []
layer_texts (l ∷ ls) = (summary_block_header ++ (newline ∷ l)) ∷ ls

join_facts : List Text → Text
join_facts [] = []
join_facts (f ∷ []) = codes "- " ++ f
join_facts (f ∷ g ∷ fs) = codes "- " ++ (f ++ (newline ∷ join_facts (g ∷ fs)))

unfoldable pub memory_text : List Text → Text
unfolding join_facts
memory_text facts = memory_block_header ++ (newline ∷ join_facts facts)

-- `_normalize_layers` on the contents of the layers
unfoldable pub normalize_layers : List Text → Text → List Text
normalize_layers [] [] = []
normalize_layers [] (c ∷ s) = (c ∷ s) ∷ []
normalize_layers (l ∷ ls) s = l ∷ ls

abbrev pub seq_or_zero : ContextTurn → ℕ
seq_or_zero t = elim t.seq [ none ↦ 0 | some n ↦ n ]

abbrev pub is_speaker : ContextTurn → Bool
is_speaker t = list_beq t.role (codes "user") || list_beq t.role (codes "assistant")

-- The turns of the two speakers with their positions.
unfoldable pub eligible : ℕ → List ContextTurn → List (ContextTurn × ℕ)
eligible i [] = []
eligible i (t ∷ ts) = let rest = eligible (suc i) ts in if is_speaker t then (t, i) ∷ rest else rest

abbrev pub newer : ContextTurn × ℕ → ContextTurn × ℕ → Bool
newer (t, i) (u, j) =
    ltb (seq_or_zero u) (seq_or_zero t) || (seq_or_zero t == seq_or_zero u && leb j i)

-- `_recent_turns_first`
unfoldable pub recent_turns_first : List ContextTurn → List ContextTurn
unfolding eligible sort_by
recent_turns_first ts = map (λ (p : ContextTurn × ℕ). p.0) (sort_by newer (eligible 0 ts))

unfoldable pub raw_guard : Option Text → Option Text
raw_guard none = some []
raw_guard (some raw) = if nonempty raw then none else some []

-- `_turn_content`; `none` is a `RedactionViolation`
unfoldable pub turn_content : Bool → ContextTurn → Option Text
unfolding raw_guard
turn_content clear t =
    if clear && t.has_tool_payload
    then some tool_result_placeholder
    else if nonempty t.content
    then some t.content
    else raw_guard t.raw_content

seq_label : Option ℕ → Text
unfolding decimal
seq_label none = codes "?"
seq_label (some n) = codes "seq:" ++ decimal n

-- The label of `_record_omitted_turn`
unfoldable pub turn_label : ContextTurn → Text
unfolding seq_label
turn_label t = elim t.message_id [
  | none ↦ seq_label t.seq
  | some m ↦ if nonempty m then m else seq_label t.seq
]

-- The turn is represented by the summary.
abbrev pub is_covered : Option ℕ → ContextTurn → Bool
is_covered none t = false
is_covered (some position) t = elim t.seq [ none ↦ false | some n ↦ leb n position ]
