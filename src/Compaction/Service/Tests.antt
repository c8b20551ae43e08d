-- ===== src/Compaction/Service/Tests.antt =====
-- Runs of the compaction service of backend/app/application/compaction/service.py.
use agent_studio.Base.{◌≡◌, refl, true, false, none, some, List, [], ◌∷◌, ◌++◌, length, arith}
use agent_studio.Base.Dict.{Dict, remove}
use agent_studio.Base.Text.{Text, strip}
use agent_studio.Compaction.Breaker.{default_config}
use agent_studio.Compaction.Summary.{render, Turn, Value, Outcome, failed, done, aborted}
use agent_studio.Compaction.Summary.Tests.{said, turns, fields}
use agent_studio.Compaction.Service.{
  Config, reactive, preemptive, evaluate, split, head_size, snapshot, page_size, pages, Thread,
  State, current_layers, compact, layer,
}
use agent_studio.Compaction.Service.Split.{IsSplit, split_lem}
use agent_studio.Compaction.Service.Snapshot.{IsRead, snapshot-IsRead}
use agent_studio.Compaction.Service.Layers.{IsStacked, Attempt, compact_all, compact_all-IsStacked}

abbrev config : Config
config = record {
  preemptive_ratio = 70;
  reactive_ratio = 95;
  keep_tokens = 11;
  max_snapshot_messages = 1000;
  truncation_keep_turns = 10;
  max_summary_layers = 5;
}

abbrev thread : Thread
thread = record { summary_block = none; summary_position = 0; summary_version = 0 }

abbrev first : State
first = record { thread = some thread; breaker = record { config = default_config; state = [] } }

abbrev summary : List Turn → Outcome (Dict Text Value)
summary head = done fields

triggers :
    (evaluate config 95 100 ≡ some reactive)
    × (evaluate config 94 100 ≡ some preemptive)
    × (evaluate config 69 100 ≡ none)
unfolding evaluate
triggers = (refl, refl, refl)

keeps_two :
    split length 11 turns
    ≡ (said 1 "hello" ∷ said 2 "order" ∷ [], said 3 "where" ∷ said 4 "parcel" ∷ [])
unfolding head_size
keeps_two = refl

split_lem_example : IsSplit length 11 turns (split length 11 turns)
split_lem_example = split_lem length 11 turns

snapshot-IsRead_example : IsRead 1000 page_size turns (snapshot config turns)
snapshot-IsRead_example = snapshot-IsRead config turns (
  (omega arith, (omega arith, (omega arith, tt))),
  ((omega arith, (omega arith, tt)), ((omega arith, tt), (tt, tt))),
)

abbrev attempts : List Attempt
attempts =
    (record { now = 0; stored = true; estimate = length; summarize = summary; log = turns })
    ∷ (record {
      now = 9;
      stored = false;
      estimate = length;
      summarize = λ head. failed aborted;
      log = turns ++ (said 5 "again" ∷ []);
    })
    ∷ []

two_compactions :
    current_layers (compact_all config "t:1" attempts first).thread ≡ layer 2 (render fields) ∷ []
unfolding compact snapshot pages head_size strip remove
two_compactions = refl

compact_all-IsStacked_example :
    IsStacked config (current_layers (compact_all config "t:1" attempts first).thread)
compact_all-IsStacked_example = compact_all-IsStacked config "t:1" attempts first (tt, omega arith)
