-- ===== src/Context/Assembler/Walk.antt =====
-- Induction over the walk through the turns.
use agent_studio.Base.{
  ℕ, ◌≡◌, refl, Bool, true, false, inl, inr, Option, none, some, List, [], ◌∷◌, ltb, Bool-cases,
}
use agent_studio.Base.Text.{Text, nonempty}
use agent_studio.Context.Prompt.{ContextTurn, turn_content, is_covered}
use agent_studio.Context.Assembler.{Walk, place_turn, tail_step, tail_loop, omit_turn, show_turn}

-- The property holds of the value, if there is one.
abbrev pub Holds {ℓ κ} : {A : Type ℓ} → (A → Type κ) → Option A → Type κ
Holds P none = Unit
Holds P (some x) = P x

bind-Holds {ℓ κ μ} :
    {A : Type ℓ} (P : A → Type κ) (Q : A → Type μ) (o : Option A) (f : A → Option A)
    → Holds P o
    → ((x : A) → P x → Holds Q (f x))
    → Holds Q (elim o [ none ↦ none | some x ↦ f x ])
bind-Holds P Q none f h k = tt
bind-Holds P Q (some x) f h k = k x h

module _ (count : Text → ℕ) (clear : Bool) (position : Option ℕ) where
  -- The turn is rendered as `content`, if it fits.
  abbrev pub Renders : ContextTurn → Text → Type 0
  Renders t content =
      (is_covered position t ≡ false)
      × (turn_content clear t ≡ some content)
      × (nonempty content ≡ true)

  -- The turn is passed over.
  abbrev pub Passes : ContextTurn → Type 0
  Passes t =
      is_covered position t ≡ false
      → (content : Text) × (turn_content clear t ≡ some content) × (nonempty content ≡ false)

  -- What the walk keeps, of the turns that are left and of where it stands.
  pub record Rules {κ} (P : List ContextTurn → Walk count → Type κ) : Type κ where
    pub passed :
        (t : ContextTurn) (ts : List ContextTurn) (w : Walk count)
        → Passes t
        → P (t ∷ ts) w
        → P ts w
    pub omitted :
        (t : ContextTurn) (ts : List ContextTurn) (content : Text) (w : Walk count)
        → Renders t content
        → ltb w.1.remaining (count content) ≡ true
        → P (t ∷ ts) w
        → P ts (w.0, omit_turn count t w.1)
    pub shown :
        (t : ContextTurn) (ts : List ContextTurn) (content : Text) (w : Walk count)
        → Renders t content
        → ltb w.1.remaining (count content) ≡ false
        → P (t ∷ ts) w
        → P ts (show_turn count t content w)

  tail_step_covered :
      (t : ContextTurn) (w : Walk count)
      → is_covered position t ≡ true
      → tail_step count clear position t w ≡ some w
  unfolding tail_step
  tail_step_covered t w p = rw p refl

  tail_step_open :
      (t : ContextTurn) (w : Walk count)
      → is_covered position t ≡ false
      → tail_step count clear position t w ≡ place_turn count t (turn_content clear t) w
  unfolding tail_step
  tail_step_open t w p = rw p refl

  module _ {κ} (P : List ContextTurn → Walk count → Type κ) (rules : Rules P) where
    place_turn-Holds :
        (t : ContextTurn) (ts : List ContextTurn) (content : Option Text) (w : Walk count)
        → is_covered position t ≡ false
        → turn_content clear t ≡ content
        → P (t ∷ ts) w
        → Holds (P ts) (place_turn count t content w)
    unfolding place_turn
    place_turn-Holds t ts none w a b h = tt
    place_turn-Holds t ts (some content) (ms, c) a b h = elim (Bool-cases (nonempty content)) [
      | inl p ↦ rw p (elim (Bool-cases (ltb c.remaining (count content))) [
        | inl q ↦ rw q (rules.omitted t ts content (ms, c) (a, b, p) q h)
        | inr q ↦ rw q (rules.shown t ts content (ms, c) (a, b, p) q h)
      ])
      | inr p ↦ rw p (rules.passed t ts (ms, c) (λ _. (content, b, p)) h)
    ]

    tail_step-Holds :
        (t : ContextTurn) (ts : List ContextTurn) (w : Walk count)
        → P (t ∷ ts) w
        → Holds (P ts) (tail_step count clear position t w)
    tail_step-Holds t ts w h = elim (Bool-cases (is_covered position t)) [
      | inl p ↦ rw (tail_step_covered t w p) (rules.passed t ts w (λ q. absurd (cc)) h)
      | inr p ↦ rw (tail_step_open t w p) (place_turn-Holds t ts (turn_content clear t) w p refl h)
    ]

    pub walk_induction :
        (ts : List ContextTurn) (w : Walk count)
        → P ts w
        → Holds (P []) (tail_loop count clear position ts w)
    unfolding tail_loop
    walk_induction [] w h = h
    walk_induction (t ∷ ts) w h =
        bind-Holds (P ts) (P []) (tail_step count clear position t w)
          (tail_loop count clear position ts) (tail_step-Holds t ts w h)
          (λ next k. walk_induction ts next k)
