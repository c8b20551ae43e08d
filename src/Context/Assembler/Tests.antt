-- ===== src/Context/Assembler/Tests.antt =====
-- A small window: two turns, of which the older does not fit.
use agent_studio.Base.{ℕ, ◌≡◌, refl, true, false, none, some, List, [], ◌∷◌, map}
use agent_studio.Base.Eq.{nat_eq, list_eq}
use agent_studio.Base.Text.{Text, codes}
use agent_studio.Context.Estimator.{estimate}
use agent_studio.Context.Prompt.{ContextTurn, Message, Assembly, assembled, redaction_violation}
use agent_studio.Context.Assembler.{Inputs, Loader, assemble}
use agent_studio.Context.Assembler.Accounting.{assemble-IsWithin, IsWithin}
use agent_studio.Context.Assembler.Redaction.{assemble-IsRedacted, IsRedacted}

abbrev turn : Text → ℕ → Text → ContextTurn
turn role n content = record {
  role = role;
  content = content;
  seq = some n;
  message_id = none;
  has_tool_payload = false;
  raw_content = some (codes "raw");
}

abbrev loader : Loader
loader = record { estimator = []; catalog = []; output_reserve_tokens = 10; cache_markers = true }

abbrev inputs : List ContextTurn → Inputs
inputs turns = record {
  provider = codes "openai";
  model = codes "m";
  system_prompt = codes "be brief";
  current_message = codes "hi";
  history_turns = turns;
  summary = [];
  summary_position = none;
  summary_layers = [];
  memory_facts = [];
  retrieved_docs = [];
  clear_tool_payloads = false;
  context_window_override = 15;
  cache_markers = none;
}

abbrev two_turns : List ContextTurn
two_turns =
    turn (codes "user") 1 (codes "a long question") ∷ turn (codes "assistant") 2 (codes "ok") ∷ []

abbrev texts : Assembly → List Text
texts (assembled c) = map (λ (m : Message). m.content) c.messages
texts _ = []

abbrev left_out : Assembly → List Text
left_out (assembled c) = c.omitted_turns
left_out _ = []

newest_fits :
    texts (assemble loader (inputs two_turns)) ≡ codes "be brief" ∷ codes "ok" ∷ codes "hi" ∷ []
unfolding assemble
newest_fits = refl

older_omitted : left_out (assemble loader (inputs two_turns)) ≡ codes "seq:1" ∷ []
unfolding assemble
older_omitted = refl

-- An older turn is rendered although a newer one is left out.
gap :
    texts (
      assemble loader (
        inputs (
          turn (codes "user") 1 (codes "ok")
          ∷ turn (codes "user") 2 (codes "a long question")
          ∷ [])))
    ≡ codes "be brief" ∷ codes "ok" ∷ codes "hi" ∷ []
unfolding assemble
gap = refl

raw_stops : assemble loader (inputs (turn (codes "user") 1 [] ∷ [])) ≡ redaction_violation
unfolding assemble
raw_stops = refl

assemble-IsWithin_example :
    IsWithin (estimate [] (codes "openai") (codes "m")) 5 (assemble loader (inputs two_turns))
assemble-IsWithin_example = assemble-IsWithin loader (inputs two_turns)

assemble-IsRedacted_example :
    IsRedacted
      (λ (t : ContextTurn). t.raw_content ≡ some (codes "raw"))
      (inputs two_turns)
      (assemble loader (inputs two_turns))
assemble-IsRedacted_example =
    assemble-IsRedacted (λ (t : ContextTurn). t.raw_content ≡ some (codes "raw")) loader
      (inputs two_turns) (refl, (refl, tt))
