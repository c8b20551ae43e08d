-- ===== src/Compaction/Summary/Tests.antt =====
-- Runs of the summary generator of backend/app/application/compaction/service.py.
use agent_studio.Base.{ℕ, String, ◌≡◌, refl, some, List, [], ◌∷◌, ◌++◌, length}
use agent_studio.Base.Dict.{Dict, lookup}
use agent_studio.Base.Eq.{filter_by}
use agent_studio.Base.Text.{Text, codes, lstrip, strip}
use agent_studio.Compaction.Summary.{
  Turn, Value, text, texts, validate, missing_field, wrong_field, render, join_lines, Reply, json,
  failed, done, aborted, summarize_turns, chunk_from, chunk_turns, merge, summarize,
}
use agent_studio.Compaction.Summary.Chunks.{IsChunked, chunk_turns_lem}

abbrev pub said : ℕ → String → Turn
said n t = record { id = codes "m"; seq = n; role = codes "user"; redacted_content = codes t }

abbrev pub turns : List Turn
turns = said 1 "hello" ∷ said 2 "order" ∷ said 3 "where" ∷ said 4 "parcel" ∷ []

abbrev pub fields : Dict Text Value
fields =
    (codes "objective", text (codes "help"))
    ∷ (codes "key_facts", texts (codes "order" ∷ []))
    ∷ (codes "decisions", texts [])
    ∷ (codes "pending_work", texts [])
    ∷ (codes "next_moves", texts [])
    ∷ []

abbrev pub chat : Text → Reply
chat conversation = json (some fields)

valid_fields : validate (some fields) ≡ []
unfolding validate lookup strip lstrip
valid_fields = refl

missing_fields :
    validate (some ((codes "objective", text (codes " ")) ∷ []))
    ≡ wrong_field (codes "objective")
      ∷ missing_field (codes "key_facts")
      ∷ missing_field (codes "decisions")
      ∷ missing_field (codes "pending_work")
      ∷ missing_field (codes "next_moves")
      ∷ []
unfolding validate lookup strip lstrip
missing_fields = refl

rendered :
    render fields ≡ codes "Objective: help" ++ (10 ∷ codes "Key Facts:" ++ (10 ∷ codes "- order"))
unfolding render lookup join_lines
rendered = refl

two_chunks :
    chunk_turns length 11 turns
    ≡ some ((said 1 "hello" ∷ said 2 "order" ∷ []) ∷ (said 3 "where" ∷ said 4 "parcel" ∷ []) ∷ [])
unfolding chunk_from
two_chunks = refl

-- The summaries of the two chunks do not fit the window.
not_merged : merge length 11 chat 2 turns ≡ failed aborted
unfolding merge chunk_from summarize_turns validate render join_lines filter_by lookup strip lstrip
not_merged = refl

merged : summarize length 100 chat 2 turns ≡ done fields
unfolding summarize merge chunk_from summarize_turns validate render join_lines filter_by lookup
    strip lstrip
merged = refl

chunk_turns_lem_example : IsChunked length 11 turns (chunk_turns length 11 turns)
chunk_turns_lem_example = chunk_turns_lem length 11 turns
