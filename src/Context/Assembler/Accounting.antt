-- ===== src/Context/Assembler/Accounting.antt =====
-- The tokens of the assembled messages against the budget.
use mathlib.Core.List.{reverse-cons}
use agent_studio.Base.{
  ℕ, suc, ◌+◌, ◌-◌, ◌≡◌, refl, Bool, false, inl, inr, Option, none, some, List, [], ◌∷◌, ◌++◌,
  arith, reverse, ltb, leb, Bool-cases,
}
use agent_studio.Base.Text.{Text, codes}
use agent_studio.Context.Estimator.{estimate}
use agent_studio.Context.Prompt.{
  Context, Message, total_tokens, layer_texts, memory_text, ContextTurn, Doc, source_block,
  assembled, Assembly, normalize_layers,
}
use agent_studio.Context.Assembler.{
  message_tokens, with_summary, with_memory, layer_messages, Walk, render_tail, doc_loop,
  with_current, Inputs, Loader, assemble, assemble_with, stable_blocks, finish, opening, window_of,
  markers_of, show_turn, turn_message, system_message,
}
use agent_studio.Context.Assembler.Walk.{Rules, Holds, walk_induction}

module _ (count : Text → ℕ) where
  message_tokens_none : message_tokens count [] ≡ 0
  unfolding message_tokens
  message_tokens_none = refl

  message_tokens-append :
      (ms ns : List Message)
      → message_tokens count (ms ++ ns) ≡ message_tokens count ms + message_tokens count ns
  unfolding message_tokens
  message_tokens-append [] ns = omega arith
  message_tokens-append (m ∷ ms) ns = omega (arith, message_tokens-append ms ns)

  message_tokens_more :
      (m : Message) (ms : List Message)
      → message_tokens count (m ∷ ms) ≡ count m.content + message_tokens count ms
  unfolding message_tokens
  message_tokens_more m ms = refl

  message_tokens_one :
      (ms : List Message) (m : Message)
      → message_tokens count (ms ++ (m ∷ [])) ≡ message_tokens count ms + count m.content
  unfolding message_tokens
  message_tokens_one ms m = ground (arith, message_tokens-append ms (m ∷ []))

  -- The counts and what remains are the budget, and the counts are the tokens of the messages and
  -- of those that wait to be added.
  abbrev pub Accounted : ℕ → List Message → Context → Type 0
  Accounted budget ms c =
      (total_tokens c + c.remaining ≡ budget)
      × (message_tokens count c.messages + message_tokens count ms ≡ total_tokens c)
      × (c.current ≡ 0)

  with_summary-Accounted :
      (budget : ℕ) (markers : Bool) (ls : List Text) (c : Context)
      → c.summary ≡ 0
      → Accounted budget [] c
      → Accounted budget [] (with_summary count markers ls c)
  unfolding with_summary
  with_summary-Accounted budget markers [] c z h = h
  with_summary-Accounted budget markers (l ∷ ls) c z h = ground (
    arith,
    h,
    z,
    message_tokens-append c.messages (layer_messages count markers (layer_texts (l ∷ ls))),
  )

  memory-with_summary :
      (markers : Bool) (ls : List Text) (c : Context)
      → c.memory ≡ 0
      → (with_summary count markers ls c).memory ≡ 0
  unfolding with_summary
  memory-with_summary markers [] c z = z
  memory-with_summary markers (l ∷ ls) c z = ground (arith, z)

  opening-Accounted :
      (budget : ℕ) (markers : Bool) (prompt : Text)
      → ltb budget (count prompt) ≡ false
      → Accounted budget [] (opening markers prompt (count prompt) budget)
  unfolding message_tokens
  opening-Accounted budget markers prompt fits = ground (arith, fits)

  with_memory-Accounted :
      (budget : ℕ) (fs : List Text) (c : Context)
      → c.memory ≡ 0
      → Accounted budget [] c
      → Accounted budget [] (with_memory count fs c)
  unfolding with_memory
  with_memory-Accounted budget [] c z h = h
  with_memory-Accounted budget (f ∷ fs) c z h = ground (
    arith,
    h,
    z,
    message_tokens_one c.messages (system_message false (memory_text (f ∷ fs))),
    message_tokens_none,
  )

  show_turn-Accounted :
      (budget : ℕ) (t : ContextTurn) (content : Text) (w : Walk count)
      → ltb w.1.remaining (count content) ≡ false
      → Accounted budget w.0 w.1
      → Accounted budget (show_turn count t content w).0 (show_turn count t content w).1
  show_turn-Accounted budget t content (ms, c) fits h =
      ground (arith, fits, h, message_tokens_one ms (turn_message count t content))

  Accounted-rules :
      (clear : Bool) (position : Option ℕ) (budget : ℕ)
      → Rules count clear position (λ ts w. Accounted budget w.0 w.1)
  Accounted-rules clear position budget = record {
    passed = λ t ts w p h. h;
    omitted = λ t ts content w r p h. h;
    shown = λ t ts content w r fits h. show_turn-Accounted budget t content w fits h;
  }

  message_tokens-reverse :
      (ms : List Message) → message_tokens count (reverse ms) ≡ message_tokens count ms
  message_tokens-reverse [] = refl
  message_tokens-reverse (m ∷ ms) = rw (reverse-cons m ms) (
      ground (
        arith,
        message_tokens_one (reverse ms) m,
        message_tokens-reverse ms,
        message_tokens_more m ms,
      ))

  render_tail-Accounted :
      (budget : ℕ) (w : Walk count)
      → Accounted budget w.0 w.1
      → Accounted budget [] (render_tail count w)
  unfolding message_tokens
  render_tail-Accounted budget (ms, c) h =
      ground (arith, h, message_tokens-append c.messages (reverse ms), message_tokens-reverse ms)

  doc_loop-Accounted :
      (budget i : ℕ) (ds : List Doc) (c : Context)
      → Accounted budget [] c
      → Accounted budget [] (doc_loop count i ds c)
  unfolding doc_loop
  doc_loop-Accounted budget i [] c h = h
  doc_loop-Accounted budget i (d ∷ ds) c h =
      elim (Bool-cases (ltb c.remaining (count (source_block i d)))) [
        | inl p ↦ rw p h
        | inr p ↦ rw p (
            doc_loop-Accounted budget (suc i) ds _ (
              ground (
                arith,
                h,
                p,
                message_tokens_one c.messages (system_message false (source_block i d)),
              )))
      ]

  -- What an assembled context keeps of the budget.
  abbrev pub IsWithin : ℕ → Assembly → Type 0
  IsWithin budget (assembled c) =
      (total_tokens c + c.remaining ≡ budget) × (message_tokens count c.messages ≡ total_tokens c)
  IsWithin budget _ = Unit

  with_current-IsWithin :
      (budget : ℕ) (text : Text) (c : Context)
      → Accounted budget [] c
      → IsWithin budget (with_current count text c)
  unfolding with_current message_tokens
  with_current-IsWithin budget text c h = elim (Bool-cases (ltb c.remaining (count text))) [
    | inl p ↦ rw p tt
    | inr p ↦ rw p (
        ground (
          arith,
          h,
          p,
          message_tokens_one c.messages
              (record { role = codes "user"; content = text; cache_control = false }),
        ))
  ]

  module _ (l : Loader) (i : Inputs) where
    stable_blocks-Accounted :
        (budget : ℕ)
        → ltb budget (count i.system_prompt) ≡ false
        → Accounted budget [] (stable_blocks count l i budget)
    unfolding stable_blocks
    stable_blocks-Accounted budget fits =
        let c = opening (markers_of l i) i.system_prompt (count i.system_prompt) budget in
        let layers = normalize_layers i.summary_layers i.summary in
        with_memory-Accounted budget i.memory_facts _
          (memory-with_summary (markers_of l i) layers c refl)
          (with_summary-Accounted budget (markers_of l i) layers c refl
            (opening-Accounted budget (markers_of l i) i.system_prompt fits))

    finish-IsWithin :
        (budget : ℕ) (o : Option (Walk count))
        → Holds (λ w. Accounted budget w.0 w.1) o
        → IsWithin budget (finish count l i o)
    finish-IsWithin budget none h = tt
    finish-IsWithin budget (some w) h =
        with_current-IsWithin budget i.current_message _
          (doc_loop-Accounted budget 0 _ (render_tail count w) (render_tail-Accounted budget w h))

    assemble_with-IsWithin :
        IsWithin (window_of l i - l.output_reserve_tokens) (assemble_with count l i)
    unfolding assemble_with
    assemble_with-IsWithin =
        let budget = window_of l i - l.output_reserve_tokens in
        elim (Bool-cases (leb (window_of l i) l.output_reserve_tokens)) [
          | inl p ↦ rw p tt
          | inr p ↦ rw p (elim (Bool-cases (ltb budget (count i.system_prompt))) [
            | inl q ↦ rw q tt
            | inr q ↦ rw q (
                finish-IsWithin budget _ (
                  walk_induction count i.clear_tool_payloads i.summary_position
                    (λ ts w. Accounted budget w.0 w.1)
                    (Accounted-rules i.clear_tool_payloads i.summary_position budget) _ _
                    (stable_blocks-Accounted budget q)))
          ])
        ]

-- Whenever a context is assembled, its token counts are the estimates of its messages, and they and
-- what remains add up to the window less the reserve, so the prompt never exceeds its budget.
pub assemble-IsWithin :
    (l : Loader) (i : Inputs)
    → IsWithin
        (estimate l.estimator i.provider i.model)
        (window_of l i - l.output_reserve_tokens)
        (assemble l i)
unfolding assemble
assemble-IsWithin l i = assemble_with-IsWithin (estimate l.estimator i.provider i.model) l i
