-- ===== src/Context/Assembler/Redaction.antt =====
-- Which texts reach the prompt, and when a turn without redacted content stops the assembly.
use mathlib.Core.List.{reverse-cons}
use agent_studio.Base.{
  ℕ, suc, ◌-◌, ◌≡◌, ◌⊎◌, refl, Bool, true, false, ◌&&◌, inl, inr, Option, none, some, List, [], ◌∷◌,
  reverse, ltb, leb, if◌then◌else◌, Bool-cases, All, All-append,
}
use agent_studio.Base.Eq.{nat_eq, list_eq}
use agent_studio.Base.Text.{Text, codes, nonempty}
use agent_studio.Context.Estimator.{estimate}
use agent_studio.Context.Prompt.{
  Context, Message, layer_texts, ContextTurn, turn_content, raw_guard, recent_turns_first, Doc,
  assembled, budget_exceeded, redaction_violation, Assembly, tool_result_placeholder,
  normalize_layers,
}
use agent_studio.Context.Assembler.{
  with_summary, with_memory, layer_messages, Walk, tail_loop, render_tail, doc_loop, with_current,
  Inputs, Loader, assemble, assemble_with, stable_blocks, finish, window_of, markers_of,
}
use agent_studio.Context.Assembler.Guard.{
  IsGuarded, Speaks, tail_loop-IsGuarded, All-recent_turns_first, All-of_recent_turns_first,
}
use agent_studio.Context.Assembler.Walk.{Rules, Holds, walk_induction}

All-reverse {ℓ κ} : {A : Type ℓ} (P : A → Type κ) (xs : List A) → All P xs → All P (reverse xs)
All-reverse P [] h = h
All-reverse P (x ∷ xs) (a, b) =
    rw (reverse-cons x xs) (All-append P (reverse xs) (x ∷ []) (All-reverse P xs b) (a, tt))

-- The message is the redacted content of a turn with the property, or stands for a cleared tool result.
abbrev pub FromTurn {κ} : (ContextTurn → Type κ) → Message → Type κ
FromTurn Q m =
    (t : ContextTurn) × Q t
    × (m.role ≡ t.role)
    × ((m.content ≡ t.content) ⊎ (m.content ≡ tool_result_placeholder))

abbrev pub IsAllowed {κ} : (ContextTurn → Type κ) → Text → Message → Type κ
IsAllowed Q current m = (m.role ≡ codes "system") ⊎ (m.content ≡ current) ⊎ FromTurn Q m

raw_guard_empty : (o : Option Text) (content : Text) → raw_guard o ≡ some content → content ≡ []
unfolding raw_guard
raw_guard_empty none content h = cc
raw_guard_empty (some []) content h = cc
raw_guard_empty (some (c ∷ raw)) content h = absurd (cc)

turn_content_lem :
    (clear : Bool) (t : ContextTurn) (content : Text)
    → turn_content clear t ≡ some content
    → nonempty content ≡ true
    → (content ≡ t.content) ⊎ (content ≡ tool_result_placeholder)
unfolding turn_content
turn_content_lem clear t content h p = elim (Bool-cases (clear && t.has_tool_payload)) [
  | inl a ↦ inr (cc (rw a at h))
  | inr a ↦ elim (Bool-cases (nonempty t.content)) [
    | inl b ↦ inl (cc (rw (a, b) at h))
    | inr b ↦ absurd (cc (raw_guard_empty t.raw_content content (rw (a, b) at h)))
  ]
]

-- A property of both branches is one of the test.
if_either {ℓ κ} :
    {A : Type ℓ} (P : A → Type κ) (b : Bool) (x y : A) → P x → P y → P (if b then x else y)
if_either P true x y h k = h
if_either P false x y h k = k

module _ {κ} (count : Text → ℕ) (Q : ContextTurn → Type κ) where
  -- The state of the walk, of which the turns left have the property.
  abbrev FromTurns : List ContextTurn → Walk count → Type κ
  FromTurns ts w = All Q ts × All (FromTurn Q) w.0

  from_rules : (clear : Bool) (position : Option ℕ) → Rules count clear position FromTurns
  from_rules clear position = record {
    passed = λ t ts w p h. (h.0.1, h.1);
    omitted = λ t ts content w r p h. (h.0.1, h.1);
    shown = λ t ts content w r p h. (
      h.0.1,
      All-append (FromTurn Q) w.0 _ h.1
          ((t, h.0.0, refl, turn_content_lem clear t content r.1 r.2), tt),
    );
  }

  module _ (current : Text) where
    abbrev Allowed : Context → Type κ
    Allowed c = All (IsAllowed Q current) c.messages

    layers-Allowed :
        (markers : Bool) (ls : List Text)
        → All (IsAllowed Q current) (layer_messages count markers ls)
    layers-Allowed markers [] = tt
    layers-Allowed markers (l ∷ ls) = (inl refl, layers-Allowed markers ls)

    with_summary-Allowed :
        (markers : Bool) (ls : List Text) (c : Context)
        → Allowed c
        → Allowed (with_summary count markers ls c)
    unfolding with_summary
    with_summary-Allowed markers [] c h = h
    with_summary-Allowed markers (l ∷ ls) c h =
        if_either (λ c'. Allowed c') _ _ _
          (All-append (IsAllowed Q current) c.messages _ h
            (layers-Allowed markers (layer_texts (l ∷ ls))))
          h

    with_memory-Allowed :
        (fs : List Text) (c : Context) → Allowed c → Allowed (with_memory count fs c)
    unfolding with_memory
    with_memory-Allowed [] c h = h
    with_memory-Allowed (f ∷ fs) c h =
        if_either (λ c'. Allowed c') _ _ _
          (All-append (IsAllowed Q current) c.messages _ h (inl refl, tt)) h

    doc_loop-Allowed :
        (i : ℕ) (ds : List Doc) (c : Context) → Allowed c → Allowed (doc_loop count i ds c)
    unfolding doc_loop
    doc_loop-Allowed i [] c h = h
    doc_loop-Allowed i (d ∷ ds) c h =
        if_either (λ c'. Allowed c') _ _ _ h
          (doc_loop-Allowed (suc i) ds _
            (All-append (IsAllowed Q current) c.messages _ h (inl refl, tt)))

    weaken : (ms : List Message) → All (FromTurn Q) ms → All (IsAllowed Q current) ms
    weaken [] h = tt
    weaken (m ∷ ms) (a, b) = (inr (inr a), weaken ms b)

    -- `E` holds, too, of an assembly that ends with a context.
    abbrev Result : Type 0 → Assembly → Type κ
    Result E (assembled c) = Allowed c × E
    Result E _ = Unit

    with_current-Result :
        (E : Type 0) (c : Context) → E → Allowed c → Result E (with_current count current c)
    unfolding with_current
    with_current-Result E c e h = elim (Bool-cases (ltb c.remaining (count current))) [
      | inl p ↦ rw p tt
      | inr p ↦ rw p (
        All-append (IsAllowed Q current) c.messages
            (record { role = codes "user"; content = current; cache_control = false } ∷ []) h
            (inr (inl refl), tt),
        e,
      )
    ]

    kept_rules :
        (clear : Bool) (position : Option ℕ)
        → Rules count clear position (λ ts w. FromTurns ts w × Allowed w.1)
    kept_rules clear position =
        let r = from_rules clear position in
        record {
          passed = λ t ts w p h. (r.passed t ts w p h.0, h.1);
          omitted = λ t ts content w s p h. (r.omitted t ts content w s p h.0, h.1);
          shown = λ t ts content w s p h. (r.shown t ts content w s p h.0, h.1);
        }

module _ {κ} (count : Text → ℕ) (Q : ContextTurn → Type κ) (l : Loader) (i : Inputs) where
  abbrev AllGuarded : Type 0
  AllGuarded =
      All (λ t. Speaks t → IsGuarded i.clear_tool_payloads i.summary_position t) i.history_turns

  stable_blocks-Allowed :
      (budget : ℕ) → Allowed count Q i.current_message (stable_blocks count l i budget)
  unfolding stable_blocks
  stable_blocks-Allowed budget = with_memory-Allowed count Q i.current_message i.memory_facts _ (
      with_summary-Allowed count Q i.current_message (markers_of l i)
        (normalize_layers i.summary_layers i.summary) _ (inl refl, tt))

  finish-Result :
      (o : Option (Walk count))
      → ((w : Walk count) → o ≡ some w → AllGuarded)
      → Holds (λ w. FromTurns count Q [] w × Allowed count Q i.current_message w.1) o
      → Result count Q i.current_message AllGuarded (finish count l i o)
  finish-Result none g h = tt
  finish-Result (some (ms, c)) g ((_, a), b) =
      let K = i.current_message in
      with_current-Result count Q K AllGuarded _ (g (ms, c) refl) (
        doc_loop-Allowed count Q K 0 _ (render_tail count (ms, c)) (
          All-append (IsAllowed Q K) c.messages _ b
            (All-reverse (IsAllowed Q K) ms (weaken count Q K ms a))))

  assemble_with-Result :
      All Q i.history_turns → Result count Q i.current_message AllGuarded (assemble_with count l i)
  unfolding assemble_with
  assemble_with-Result turns =
      let K = i.current_message in
      let budget = window_of l i - l.output_reserve_tokens in
      let clear = i.clear_tool_payloads in
      let position = i.summary_position in
      let recent = recent_turns_first i.history_turns in
      let start : Walk count = ([], stable_blocks count l i budget) in
      elim (Bool-cases (leb (window_of l i) l.output_reserve_tokens)) [
        | inl p ↦ rw p tt
        | inr p ↦ rw p (elim (Bool-cases (ltb budget (count i.system_prompt))) [
          | inl q ↦ rw q tt
          | inr q ↦ rw q (
              finish-Result (tail_loop count clear position recent start)
                (λ w found.
                  All-of_recent_turns_first (IsGuarded clear position) i.history_turns
                    (tail_loop-IsGuarded count clear position recent start w found))
                (walk_induction count clear position
                  (λ ts w. FromTurns count Q ts w × Allowed count Q K w.1)
                  (kept_rules count Q K clear position) recent start
                  (
                    (All-recent_turns_first Q i.history_turns turns, tt),
                    stable_blocks-Allowed budget,
                  )))
        ])
      ]

-- What an assembled context says of the history, for any property that its turns have.
abbrev pub IsRedacted {κ} : (ContextTurn → Type κ) → Inputs → Assembly → Type κ
IsRedacted Q i (assembled c) =
    All (IsAllowed Q i.current_message) c.messages
    × All (λ t. Speaks t → IsGuarded i.clear_tool_payloads i.summary_position t) i.history_turns
IsRedacted Q i _ = Unit

Result-IsRedacted {κ} :
    (count : Text → ℕ) (Q : ContextTurn → Type κ) (l : Loader) (i : Inputs) (a : Assembly)
    → Result count Q i.current_message (AllGuarded count Q l i) a
    → IsRedacted Q i a
Result-IsRedacted count Q l i (assembled c) h = h
Result-IsRedacted count Q l i budget_exceeded h = tt
Result-IsRedacted count Q l i redaction_violation h = tt

-- Whenever a context is assembled, each of its messages is a system block, the message of the user,
-- or the redacted content of a turn of the history, or stands for a cleared tool result; and each
-- turn of the user or the assistant is one that the summary reaches, or a tool's payload that is
-- cleared, or has redacted content, or has no raw content either.
pub assemble-IsRedacted {κ} :
    (Q : ContextTurn → Type κ) (l : Loader) (i : Inputs)
    → All Q i.history_turns
    → IsRedacted Q i (assemble l i)
unfolding assemble
assemble-IsRedacted Q l i h =
    let count = estimate l.estimator i.provider i.model in
    Result-IsRedacted count Q l i _ (assemble_with-Result count Q l i h)
