-- ===== src/Gateway/Fallback/Classes.antt =====
-- How the text of an exception decides its failure class.
use agent_studio.Base.{
  ℕ, ◌≡◌, ◌≢◌, refl, Bool, true, false, ◌||◌, List, [], ◌∷◌, arith, Bool-cases, inl, inr,
}
use agent_studio.Base.Eq.{nat_eq, list_eq, elem, list_beq, elem-nil, elem-cons, list_beq_iff}
use agent_studio.Base.Text.{Text, lower, lower_char, contains, contains_any}
use agent_studio.Gateway.Chain.{general, context_window}
use agent_studio.Gateway.Fallback.{
  context_window_markers, content_policy_markers, classify_failure, is_overflow_failure,
}

lower_char-lower_char : (c : ℕ) → lower_char (lower_char c) ≡ lower_char c
unfolding lower_char
lower_char-lower_char c = ground arith

lower-lower : (s : Text) → lower (lower s) ≡ lower s
unfolding lower
lower-lower [] = refl
lower-lower (c ∷ s) = ground (arith, lower_char-lower_char c, lower-lower s)

any_step :
    (here rest this : Bool)
    → (here ≡ true → this ≡ true)
    → (rest ≡ true → this ≡ true)
    → (here || rest) ≡ true
    → this ≡ true
any_step true rest this f g h = f refl
any_step false rest this f g h = g h

or_left : (a b : Bool) → a ≡ true → (a || b) ≡ true
or_left true b h = refl
or_left false b h = absurd (cc h)

or_right : (a : Bool) {b : Bool} → b ≡ true → (a || b) ≡ true
or_right true h = refl
or_right false h = h

contains_any_of :
    (m text : Text) (markers : List Text)
    → elem m markers ≡ true
    → contains m text ≡ true
    → contains_any markers text ≡ true
unfolding contains_any
contains_any_of m text [] h k = absurd (cc (elem-nil m, h))
contains_any_of m text (x ∷ xs) h k =
    any_step (list_beq x m) (elem m xs) (contains_any (x ∷ xs) text)
      (λ same. or_left (contains x text) _ (rw ((list_beq_iff x m).0 same) k))
      (λ there. or_right (contains x text) (contains_any_of m text xs there k)) (rw elem-cons at h)

same_class : (message : Text) → classify_failure (lower message) ≡ classify_failure message
unfolding classify_failure
same_class message = rw (lower-lower message) refl

overflow :
    (message : Text)
    → contains_any context_window_markers (lower message) ≡ true
    → classify_failure message ≡ context_window
unfolding classify_failure
overflow message h = rw h refl

not_general :
    (message : Text)
    → contains_any content_policy_markers (lower message) ≡ true
    → classify_failure message ≢ general
unfolding classify_failure
not_general message h g = elim (Bool-cases (contains_any context_window_markers (lower message))) [
  | inl p ↦ cc (rw p at g)
  | inr p ↦ cc (rw h at (rw p at g))
]

overflow_test :
    (message : Text)
    → is_overflow_failure message ≡ contains_any context_window_markers (lower message)
unfolding is_overflow_failure
overflow_test message = elim (Bool-cases (contains_any context_window_markers (lower message))) [
  | inl p ↦ rw p refl
  | inr p ↦ rw p elim (Bool-cases (contains_any content_policy_markers (lower message))) [
    | inl q ↦ rw q refl
    | inr q ↦ rw q refl
  ]
]

-- The class depends on the message up to the case of its letters. A message that holds a marker of
-- a context overflow is one, whatever else it holds; one that holds a marker of a refusal and none
-- of an overflow is a refusal; and only a message that holds no marker is a general failure.
pub classify_failure-markers :
    (message m : Text)
    → (classify_failure (lower message) ≡ classify_failure message)
      × (elem m context_window_markers ≡ true
          → contains m (lower message) ≡ true
          → classify_failure message ≡ context_window)
      × (elem m content_policy_markers ≡ true
          → contains m (lower message) ≡ true
          → classify_failure message ≢ general)
      × (is_overflow_failure message ≡ contains_any context_window_markers (lower message))
classify_failure-markers message m = (
  same_class message,
  λ h k. overflow message (contains_any_of m (lower message) context_window_markers h k),
  λ h k g. not_general message (contains_any_of m (lower message) content_policy_markers h k) g,
  overflow_test message,
)
