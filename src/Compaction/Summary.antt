-- ===== src/Compaction/Summary.antt =====
-- SummarySchema and LLMSummaryGenerator of backend/app/application/compaction/service.py. The model
-- that summarizes is an argument: it gets the text of a conversation, and its reply is what
-- json.loads makes of it. A turn without redacted content has the empty one.
pub mod Tests
pub mod Chunks
use agent_studio.Base.{
  ℕ, zero, suc, ◌+◌, ◌≡◌, Bool, true, false, not, ◌&&◌, Option, none, some, List, [], ◌∷◌, ◌++◌,
  map, ltb, if◌then◌else◌,
}
use agent_studio.Base.Eq.{nat_eq, list_eq, list_beq, filter_by}
use agent_studio.Base.Dict.{Dict, lookup}
use agent_studio.Base.Text.{Text, codes, strip, nonempty}

pub record Turn : Type 0 where
  pub id : Text
  pub seq : ℕ
  pub role : Text
  pub redacted_content : Text

-- A value of the summary's fields.
pub data Value : Type 0 where
  text : Text → Value
  texts : List Text → Value
  other_value : Value

-- A JSON value that is an object, or is none.
abbrev pub Payload : Type 0
Payload = Option (Dict Text Value)

-- SUMMARY_FIELDS after the objective, with the titles that `render` gives them
abbrev pub list_fields : List (Text × Text)
list_fields =
    (codes "key_facts", codes "Key Facts")
    ∷ (codes "decisions", codes "Decisions")
    ∷ (codes "pending_work", codes "Pending Work")
    ∷ (codes "next_moves", codes "Next Moves")
    ∷ []

pub data Violation : Type 0 where
  not_an_object : Violation
  missing_field wrong_field : Text → Violation

abbrev objective_errors : Option Value → List Violation
objective_errors none = missing_field (codes "objective") ∷ []
objective_errors (some (text t)) =
    if nonempty (strip t) then [] else wrong_field (codes "objective") ∷ []
objective_errors (some _) = wrong_field (codes "objective") ∷ []

abbrev list_errors : Text → Option Value → List Violation
list_errors name none = missing_field name ∷ []
list_errors name (some (texts ts)) = []
list_errors name (some _) = wrong_field name ∷ []

abbrev errors_of : Dict Text Value → List (Text × Text) → List Violation
errors_of d [] = []
errors_of d ((name, title) ∷ fields) = list_errors name (lookup name d) ++ errors_of d fields

unfoldable pub validate : Payload → List Violation
unfolding lookup
validate none = not_an_object ∷ []
validate (some d) = objective_errors (lookup (codes "objective") d) ++ errors_of d list_fields

abbrev text_of : Option Value → Text
text_of (some (text t)) = t
text_of _ = []

abbrev texts_of : Option Value → List Text
texts_of (some (texts ts)) = ts
texts_of _ = []

unfoldable pub join_lines : List Text → Text
join_lines [] = []
join_lines (l ∷ []) = l
join_lines (l ∷ m ∷ ls) = l ++ (10 ∷ join_lines (m ∷ ls))

abbrev lines_of : Dict Text Value → List (Text × Text) → List Text
lines_of d [] = []
lines_of d ((name, title) ∷ fields) =
    let values = texts_of (lookup name d) in
    (if nonempty values then (title ++ codes ":") ∷ map (λ v. codes "- " ++ v) values else [])
    ++ lines_of d fields

-- `render` of a payload that is valid
unfoldable pub render : Dict Text Value → Text
unfolding join_lines lookup
render d =
    join_lines
      ((codes "Objective: " ++ text_of (lookup (codes "objective") d)) ∷ lines_of d list_fields)

-- CompactionAborted, SummaryValidationError, and what `set_summary` raises.
pub data Failure : Type 0 where
  aborted invalid not_found not_stored : Failure

pub data Outcome (A : Type 0) : Type 0 where
  failed : Failure → Outcome A
  done : A → Outcome A

abbrev pub and_then : {A B : Type 0} → Outcome A → (A → Outcome B) → Outcome B
and_then (failed f) k = failed f
and_then (done a) k = k a

-- The reply of the model: the call fails, the text is not JSON, or it is.
pub data Reply : Type 0 where
  raised not_json : Reply
  json : Payload → Reply

abbrev checked : Payload → List Violation → Outcome (Dict Text Value)
checked (some d) [] = done d
checked p _ = failed invalid

abbrev read : Reply → Outcome (Dict Text Value)
read raised = failed aborted
read not_json = failed invalid
read (json p) = checked p (validate p)

abbrev line_of : Turn → Text
line_of t = t.role ++ (codes ": " ++ t.redacted_content)

abbrev pub has_content : Turn → Bool
has_content t = nonempty t.redacted_content

-- `_summarize_turns`
unfoldable pub summarize_turns : (Text → Reply) → List Turn → Outcome (Dict Text Value)
unfolding join_lines validate filter_by
summarize_turns chat turns = read (chat (join_lines (map line_of (filter_by has_content turns))))

module _ (estimate : Text → ℕ) (window : ℕ) where
  -- The loop of `_chunk_turns` with the chunk that it builds and its tokens.
  unfoldable pub chunk_from : List Turn → ℕ → List Turn → Option (List (List Turn))
  chunk_from current acc [] = some (if nonempty current then current ∷ [] else [])
  chunk_from current acc (t ∷ ts) =
      let cut = nonempty current && ltb window (acc + estimate t.redacted_content) in
      let rest =
        chunk_from (if cut then t ∷ [] else current ++ (t ∷ []))
          (if cut then estimate t.redacted_content else acc + estimate t.redacted_content) ts in
      if ltb window (estimate t.redacted_content)
      then none
      else elim rest [ none ↦ none | some cs ↦ some (if cut then current ∷ cs else cs) ]

  abbrev pub chunk_turns : List Turn → Option (List (List Turn))
  chunk_turns turns = chunk_from [] 0 turns

  abbrev pseudo_turn : Text → Turn
  pseudo_turn t = record { id = []; seq = 0; role = codes "summary"; redacted_content = t }

  abbrev render_all : (Text → Reply) → List (List Turn) → Outcome (List Turn)
  render_all chat [] = done []
  render_all chat (c ∷ cs) =
      let rest = render_all chat cs in
      and_then (summarize_turns chat c)
        (λ d. and_then rest (λ ts. done (pseudo_turn (render d) ∷ ts)))

  -- `_merge`, with the depth that is left
  unfoldable pub merge : (Text → Reply) → ℕ → List Turn → Outcome (Dict Text Value)
  unfolding chunk_from summarize_turns render
  merge chat zero turns = elim (chunk_turns turns) [
    | some (c ∷ []) ↦ summarize_turns chat c
    | _ ↦ failed aborted
  ]
  merge chat (suc left) turns = elim (chunk_turns turns) [
    | none ↦ failed aborted
    | some (c ∷ []) ↦ summarize_turns chat c
    | some cs ↦ and_then (render_all chat cs) (λ ts. merge chat left ts)
  ]

  unfoldable pub summarize : (Text → Reply) → ℕ → List Turn → Outcome (Dict Text Value)
  unfolding merge filter_by
  summarize chat max_merge_depth head =
      let turns = filter_by has_content head in
      if nonempty turns then merge chat max_merge_depth turns else failed aborted
