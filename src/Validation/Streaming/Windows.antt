-- ===== src/Validation/Streaming/Windows.antt =====
-- The moderation window of backend/app/application/validation/streaming.py, as the generator of
-- backend/app/api/routes/conversations.py uses it, against its description: cut the stream into
-- windows, and judge them in order until one is blocked.
use agent_studio.Base.{
  ℕ, zero, suc, ◌≤◌, ◌<◌, ◌≡◌, ◌⊎◌, ◌∙◌, ap, sym, refl, Bool, true, false, inl, inr, Option, none,
  some, List, [], ◌∷◌, ◌++◌, All, append_assoc, append-nil, length, ltb, ltb→lt, not_ltb→le,
  Bool-cases, if◌then◌else◌,
}
use agent_studio.Base.Text.{Text}
use agent_studio.Validation.Streaming.{
  Verdict, allowed, blocked, raised, Config, Window, release_of, push, finish,
}
use agent_studio.Validation.Streaming.Driver.{
  End, Item, Frame, Next, waits, answers, raises, returns, Delivery, send_tail, send_release,
  conclude, deliver_from, deliver,
}

abbrev pub join : List Text → Text
join [] = []
join (t ∷ ts) = t ++ join ts

-- The chunks of the stream, and what the queue says at its end, if it does.
abbrev pub chunks_of : List Item → List Text
chunks_of [] = []
chunks_of (Item.heartbeat ∷ items) = chunks_of items
chunks_of (Item.delta chunk ∷ items) = chunk ∷ chunks_of items
chunks_of (Item.over end ∷ items) = []

abbrev pub end_of : List Item → Option End
end_of [] = none
end_of (Item.heartbeat ∷ items) = end_of items
end_of (Item.delta chunk ∷ items) = end_of items
end_of (Item.over end ∷ items) = some end

-- The full windows of a stream of which `pending` is held, and the text that is held at its end.
unfoldable pub cut : ℕ → Text → List Text → List Text × Text
cut size pending [] = ([], pending)
cut size pending (chunk ∷ chunks) =
    let hold = cut size (pending ++ chunk) chunks in
    let (ws, rest) = cut size [] chunks in
    if ltb (length (pending ++ chunk)) size then hold else ((pending ++ chunk) ∷ ws, rest)

-- The number of the last of so many deltas.
abbrev pub last_id : (ℕ → ℕ) → ℕ → Option ℕ
last_id seq zero = none
last_id seq (suc n) = some (seq n)

-- What a verdict makes of a window: a text to show, or violations for which it is withheld.
pub data Judgement (V : Type 0) : Type 0 where
  shown : (text : Text) → Judgement V
  withheld : (violations : List V) → Judgement V

module _ {V : Type 0} where
  -- A validator that fails is taken for one that allows.
  abbrev pub judgement : Text → Verdict V → Judgement V
  judgement text (allowed none) = shown text
  judgement text (allowed (some redacted)) = shown redacted
  judgement text (blocked violations) = withheld violations
  judgement text raised = shown text

  abbrev without_heartbeats : List (Frame V) → List (Frame V)
  without_heartbeats [] = []
  without_heartbeats (Frame.heartbeat ∷ fs) = without_heartbeats fs
  without_heartbeats (f ∷ fs) = f ∷ without_heartbeats fs

  -- A delivery without its heartbeats.
  abbrev pub content_of : Delivery V → Delivery V
  content_of d = record { frames = without_heartbeats d.frames; next = d.next }

  abbrev nothing : Next → Delivery V
  nothing next = record { frames = []; next = next }

  abbrev in_front : Frame V → Delivery V → Delivery V
  in_front f d = record { frames = f ∷ d.frames; next = d.next }

  abbrev retracted : List V → Option ℕ → Delivery V
  retracted violations last = record {
    frames = Frame.redaction violations ∷ Frame.retraction violations last ∷ [];
    next = returns;
  }

  module _ (validate : Text → Verdict V) (seq : ℕ → ℕ) where
    -- An empty text is not sent at the end.
    abbrev close_with : ℕ → Judgement V → Delivery V
    close_with n (shown []) = nothing answers
    close_with n (shown (c ∷ text)) = in_front (Frame.delta (c ∷ text) (seq n)) (nothing answers)
    close_with n (withheld violations) = retracted violations (last_id seq n)

    -- What the text that is held comes to: only a result has it judged.
    abbrev pub close : ℕ → Text → Option End → Delivery V
    close n rest none = nothing waits
    close n rest (some (End.error message)) = in_front (Frame.error message) (nothing returns)
    close n rest (some End.done) = nothing returns
    close n rest (some End.exception) = nothing raises
    close n [] (some End.result) = nothing answers
    close n (c ∷ rest) (some End.result) = close_with n (judgement (c ∷ rest) (validate (c ∷ rest)))

    -- A window after `n` deltas, and what follows if it is shown.
    abbrev tell : ℕ → Judgement V → Delivery V → Delivery V
    tell n (shown text) go_on = in_front (Frame.delta text (seq n)) go_on
    tell n (withheld violations) go_on = retracted violations (last_id seq n)

    abbrev pub judged_in_order : ℕ → List Text → Text → Option End → Delivery V
    judged_in_order n [] rest end = close n rest end
    judged_in_order n (w ∷ ws) rest end =
        tell n (judgement w (validate w)) (judged_in_order (suc n) ws rest end)

  module _ (cfg : Config V) (validate : Text → Verdict V) (on : cfg.validator ≡ some validate)
      (seq : ℕ → ℕ) where
    abbrev holding : Text → Bool → Window
    holding pending truncated = record { pending = pending; truncated = truncated }

    push-held :
        (chunk pending : Text)
        → ltb (length (pending ++ chunk)) cfg.window_size ≡ true
        → push cfg chunk (holding pending false) ≡ (none, holding (pending ++ chunk) false)
    unfolding push
    push-held chunk pending h = rw (on, h) refl

    push-judged :
        (chunk pending : Text)
        → ltb (length (pending ++ chunk)) cfg.window_size ≡ false
        → let text = pending ++ chunk in
          let r = release_of cfg.fallback_text text (validate text) in
          push cfg chunk (holding pending false) ≡ (some r, holding [] r.truncated)
    unfolding push
    push-judged chunk pending h = rw (on, h) refl

    send_tail-close_with :
        (n : ℕ) (c : ℕ) (text : Text) (v : Verdict V)
        → content_of
            (send_tail seq n (last_id seq n) (some (release_of cfg.fallback_text (c ∷ text) v)))
          ≡ close_with validate seq n (judgement (c ∷ text) v)
    send_tail-close_with n c text (allowed none) = refl
    send_tail-close_with n c text (allowed (some [])) = refl
    send_tail-close_with n c text (allowed (some (d ∷ redacted))) = refl
    send_tail-close_with n c text (blocked violations) = refl
    send_tail-close_with n c text raised = refl

    finish-close :
        (n : ℕ) (pending : Text)
        → content_of (send_tail seq n (last_id seq n) (finish cfg (holding pending false)).0)
          ≡ close validate seq n pending (some End.result)
    unfolding finish
    finish-close n [] = rw on refl
    finish-close n (c ∷ pending) = rw on (send_tail-close_with n c pending (validate (c ∷ pending)))

    conclude-close :
        (n : ℕ) (pending : Text) (end : End)
        → content_of (conclude seq cfg n (last_id seq n) (holding pending false) end)
          ≡ close validate seq n pending (some end)
    conclude-close n pending (End.error message) = refl
    conclude-close n pending End.result = finish-close n pending
    conclude-close n pending End.done = refl
    conclude-close n pending End.exception = refl

    release-tell :
        (n : ℕ) (text : Text) (v : Verdict V) (items : List Item) (d : Delivery V)
        → content_of (deliver_from seq cfg (suc n) (some (seq n)) (holding [] false) items) ≡ d
        → let r = release_of cfg.fallback_text text v in
          content_of (
            send_release seq n
              (last_id seq n)
              (some r)
              λ n' last. deliver_from seq cfg n' last (holding [] r.truncated) items)
          ≡ tell validate seq n (judgement text v) d
    release-tell n text (allowed none) items d h = ap (in_front (Frame.delta text (seq n))) h
    release-tell n text (allowed (some redacted)) items d h =
        ap (in_front (Frame.delta redacted (seq n))) h
    release-tell n text (blocked violations) items d h = refl
    release-tell n text raised items d h = ap (in_front (Frame.delta text (seq n))) h

    deliver_from-judged :
        (n : ℕ) (pending : Text) (items : List Item)
        → let (ws, rest) = cut cfg.window_size pending (chunks_of items) in
          content_of (deliver_from seq cfg n (last_id seq n) (holding pending false) items)
          ≡ judged_in_order validate seq n ws rest (end_of items)
    unfolding deliver_from cut
    deliver_from-judged n pending [] = refl
    deliver_from-judged n pending (Item.heartbeat ∷ items) = deliver_from-judged n pending items
    deliver_from-judged n pending (Item.over end ∷ items) = conclude-close n pending end
    deliver_from-judged n pending (Item.delta chunk ∷ items) =
        elim (Bool-cases (ltb (length (pending ++ chunk)) cfg.window_size)) [
          | inl p ↦
              rw (p, push-held chunk pending p) (deliver_from-judged n (pending ++ chunk) items)
          | inr p ↦
              rw (p, push-judged chunk pending p)
                (release-tell n (pending ++ chunk) (validate (pending ++ chunk)) items _
                  (deliver_from-judged (suc n) [] items))
        ]

-- The windows are full, what is held is less than one, and together they are the text.
abbrev pub IsCut : ℕ → Text → List Text → Text → Type 0
IsCut size text ws rest =
    (join ws ++ rest ≡ text) × All (λ w. size ≤ length w) ws × ((rest ≡ []) ⊎ (length rest < size))

cut-IsCut :
    (size : ℕ) (pending : Text) (chunks : List Text)
    → (pending ≡ []) ⊎ (length pending < size)
    → let (ws, rest) = cut size pending chunks in IsCut size (pending ++ join chunks) ws rest
unfolding cut
cut-IsCut size pending [] h = (sym (append-nil pending), tt, h)
cut-IsCut size pending (chunk ∷ chunks) h =
    elim (Bool-cases (ltb (length (pending ++ chunk)) size)) [
      | inl p ↦ rw p (
          let (a, b, c) = cut-IsCut size (pending ++ chunk) chunks (inr (ltb→lt _ _ p)) in
          (a ∙ append_assoc pending chunk (join chunks), b, c))
      | inr p ↦ rw p (
          let (a, b, c) = cut-IsCut size [] chunks (inl refl) in
          (
            append_assoc (pending ++ chunk) (join (cut size [] chunks).0) (cut size [] chunks).1
                ∙ ap (λ t. (pending ++ chunk) ++ t) a
                ∙ append_assoc pending chunk (join chunks),
            (not_ltb→le _ _ p, b),
            c,
          ))
    ]

-- When there is a validator, whatever comes through the queue, what the client is sent is decided window by window: the chunks
-- up to the end of the stream are cut into windows of at least window_size characters and a rest of
-- less, without loss. Each window is judged in turn and sent as a delta, redacted if the validator
-- says so; at the first that is blocked the client gets its violations as a redaction, and a
-- retraction from the last delta that was sent, and nothing more. If none is blocked, the rest is
-- judged, and sent unless it is empty, only when a result comes, before it; with an error the client
-- is told, and the rest is dropped, as it is when the stream ends otherwise. Heartbeats change
-- nothing of this.
pub deliver_lem :
    {V : Type 0} (cfg : Config V) (validate : Text → Verdict V) (seq : ℕ → ℕ) (items : List Item)
    → cfg.validator ≡ some validate
    → let (ws, rest) = cut cfg.window_size [] (chunks_of items) in
      (content_of (deliver seq cfg items) ≡ judged_in_order validate seq 0 ws rest (end_of items))
      × IsCut cfg.window_size (join (chunks_of items)) ws rest
unfolding deliver
deliver_lem cfg validate seq items on = (
  deliver_from-judged cfg validate on seq 0 [] items,
  cut-IsCut cfg.window_size [] (chunks_of items) (inl refl),
)
