-- ===== src/Context/Assembler/Guard.antt =====
-- A walk over the turns that comes to its end has met no turn without redacted content.
use agent_studio.Base.{
  ℕ, suc, ◌≡◌, ◌⊎◌, ◌≤◌, ◌&&◌, leb→le, refl, ◌≢◌, Bool, true, false, inl, inr, Option, none, some,
  List, [], ◌∷◌, map, Bool-cases, Option-cases, All,
}
use agent_studio.Base.Eq.{nat_eq, list_eq}
use agent_studio.Base.Sort.{All-sort_by, All-of_sort_by}
use agent_studio.Base.Text.{Text, codes, nonempty}
use agent_studio.Context.Prompt.{
  ContextTurn, turn_content, raw_guard, is_covered, is_speaker, recent_turns_first, eligible, newer,
}
use agent_studio.Context.Assembler.{Walk, tail_step, place_turn, tail_loop}

-- The summary reaches as far as the turn.
abbrev pub IsSummarized : Option ℕ → ContextTurn → Type 0
IsSummarized position t = (p : ℕ) × (n : ℕ) × (position ≡ some p) × (t.seq ≡ some n) × (n ≤ p)

-- It is the payload of a tool, and these are cleared.
abbrev pub IsCleared : Bool → ContextTurn → Type 0
IsCleared clear t = (clear ≡ true) × (t.has_tool_payload ≡ true)

-- There is no text at all.
abbrev pub IsBlank : Option Text → Type 0
IsBlank o = (o ≡ none) ⊎ (o ≡ some [])

-- The summary reaches as far as the turn, or it is a tool's payload that is cleared, or it has
-- redacted content, or it has no raw content either.
abbrev pub IsGuarded : Bool → Option ℕ → ContextTurn → Type 0
IsGuarded clear position t =
    IsSummarized position t ⊎ IsCleared clear t ⊎ (t.content ≢ []) ⊎ IsBlank t.raw_content

-- One of the two speakers of a conversation.
abbrev pub Speaks : ContextTurn → Type 0
Speaks t = (t.role ≡ codes "user") ⊎ (t.role ≡ codes "assistant")

Speaks-is_speaker : (t : ContextTurn) → Speaks t → is_speaker t ≡ true
Speaks-is_speaker t (inl h) = rw h refl
Speaks-is_speaker t (inr h) = rw h refl

covered-IsSummarized :
    (position : Option ℕ) (t : ContextTurn) → is_covered position t ≡ true → IsSummarized position t
covered-IsSummarized none t h = absurd (cc)
covered-IsSummarized (some p) t h = elim (Option-cases t.seq) [
  | inl a ↦ absurd (cc (rw a at h))
  | inr (n, a) ↦ (p, n, refl, a, leb→le n p (rw a at h))
]

and_parts : (a b : Bool) → (a && b) ≡ true → (a ≡ true) × (b ≡ true)
and_parts true b h = (refl, h)
and_parts false b h = absurd (cc)

nonempty_text : (s : Text) → nonempty s ≡ true → s ≢ []
nonempty_text s h e = cc (rw e at h)

-- Without redacted content, raw content is a violation.
raw_guard-IsBlank : (o : Option Text) → raw_guard o ≢ none → IsBlank o
unfolding raw_guard
raw_guard-IsBlank none h = inl refl
raw_guard-IsBlank (some []) h = inr refl
raw_guard-IsBlank (some (c ∷ raw)) h = absurd (h refl)

turn_content-IsGuarded :
    (clear : Bool) (position : Option ℕ) (t : ContextTurn)
    → turn_content clear t ≢ none
    → IsGuarded clear position t
unfolding turn_content
turn_content-IsGuarded clear position t h = elim (Bool-cases (clear && t.has_tool_payload)) [
  | inl a ↦ inr (inl (and_parts clear t.has_tool_payload a))
  | inr a ↦ elim (Bool-cases (nonempty t.content)) [
    | inl b ↦ inr (inr (inl (nonempty_text t.content b)))
    | inr b ↦ inr (inr (inr (raw_guard-IsBlank t.raw_content (rw (a, b) at h))))
  ]
]

module _ (count : Text → ℕ) (clear : Bool) (position : Option ℕ) where
  placed :
      (t : ContextTurn) (o : Option Text) (w next : Walk count)
      → place_turn count t o w ≡ some next
      → o ≢ none
  unfolding place_turn
  placed t o w next h bad = cc (rw bad at h)

  tail_step-IsGuarded :
      (t : ContextTurn) (w next : Walk count)
      → tail_step count clear position t w ≡ some next
      → IsGuarded clear position t
  unfolding tail_step
  tail_step-IsGuarded t w next h = elim (Bool-cases (is_covered position t)) [
    | inl p ↦ inl (covered-IsSummarized position t p)
    | inr p ↦
        turn_content-IsGuarded clear position t (placed t (turn_content clear t) w next (rw p at h))
  ]

  pub tail_loop-IsGuarded :
      (ts : List ContextTurn) (w last : Walk count)
      → tail_loop count clear position ts w ≡ some last
      → All (IsGuarded clear position) ts
  unfolding tail_loop
  tail_loop-IsGuarded [] w last h = tt
  tail_loop-IsGuarded (t ∷ ts) w last h = elim (Option-cases (tail_step count clear position t w)) [
    | inl none_left ↦ absurd (cc (rw (tail_loop, none_left) at h))
    | inr (next, step) ↦ (
      tail_step-IsGuarded t w next step,
      tail_loop-IsGuarded ts next last (rw (tail_loop, step) at h),
    )
  ]

module _ {κ} (P : ContextTurn → Type κ) where
  All-eligible :
      (i : ℕ) (ts : List ContextTurn)
      → All P ts
      → All (λ (p : ContextTurn × ℕ). P p.0) (eligible i ts)
  unfolding eligible
  All-eligible i [] h = tt
  All-eligible i (t ∷ ts) (a, b) = elim (Bool-cases (is_speaker t)) [
    | inl p ↦ rw p (a, All-eligible (suc i) ts b)
    | inr p ↦ rw p (All-eligible (suc i) ts b)
  ]

  All-of_eligible :
      (i : ℕ) (ts : List ContextTurn)
      → All (λ (p : ContextTurn × ℕ). P p.0) (eligible i ts)
      → All (λ t. is_speaker t ≡ true → P t) ts
  unfolding eligible
  All-of_eligible i [] h = tt
  All-of_eligible i (t ∷ ts) h = elim (Bool-cases (is_speaker t)) [
    | inl p ↦ let (a, b) = (rw p at h) in (λ _. a, All-of_eligible (suc i) ts b)
    | inr p ↦ (λ q. absurd (cc), All-of_eligible (suc i) ts (rw p at h))
  ]

  All-map :
      (ps : List (ContextTurn × ℕ))
      → All (λ (p : ContextTurn × ℕ). P p.0) ps
      → All P (map (λ (p : ContextTurn × ℕ). p.0) ps)
  All-map [] h = tt
  All-map (p ∷ ps) (a, b) = (a, All-map ps b)

  All-of_map :
      (ps : List (ContextTurn × ℕ))
      → All P (map (λ (p : ContextTurn × ℕ). p.0) ps)
      → All (λ (p : ContextTurn × ℕ). P p.0) ps
  All-of_map [] h = tt
  All-of_map (p ∷ ps) (a, b) = (a, All-of_map ps b)

  pub All-recent_turns_first : (ts : List ContextTurn) → All P ts → All P (recent_turns_first ts)
  unfolding recent_turns_first
  All-recent_turns_first ts h =
      All-map _ (All-sort_by newer (λ (p : ContextTurn × ℕ). P p.0) _ (All-eligible 0 ts h))

  All-Speaks :
      (ts : List ContextTurn)
      → All (λ t. is_speaker t ≡ true → P t) ts
      → All (λ t. Speaks t → P t) ts
  All-Speaks [] h = tt
  All-Speaks (t ∷ ts) (a, b) = (λ s. a (Speaks-is_speaker t s), All-Speaks ts b)

  pub All-of_recent_turns_first :
      (ts : List ContextTurn) → All P (recent_turns_first ts) → All (λ t. Speaks t → P t) ts
  unfolding recent_turns_first
  All-of_recent_turns_first ts h = All-Speaks ts (
      All-of_eligible 0 ts
        (All-of_sort_by newer (λ (p : ContextTurn × ℕ). P p.0) _ (All-of_map _ h)))
