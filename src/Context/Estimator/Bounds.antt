-- ===== src/Context/Estimator/Bounds.antt =====
-- How the estimate stands to the length of a text.
use native.Mathlib.Nat.{div-lt_iff_lt-mul, lt-div-mul-add, add-mul}
use agent_studio.Base.{
  ℕ, ◌+◌, ◌-◌, ◌*◌, ◌≤◌, ◌<◌, ◌≡◌, refl, true, [], ◌∷◌, ◌++◌, arith, length, length-append, ltb,
}
use agent_studio.Base.Text.{Text}
use agent_studio.Context.Estimator.{ceil_div, tokens_at}

ceil_div_least : (n d k : ℕ) → 0 < d → n ≤ k * d → ceil_div n d ≤ k
unfolding ceil_div
ceil_div_least n d k pos h =
    let below =
      (div-lt_iff_lt-mul {k = d} {x = n + (d - 1)} {y = k + 1} pos).1
        (omega (arith, h, pos, add-mul k 1 d)) in
    omega (arith, below)

ceil_div_reaches : (n d : ℕ) → 0 < d → n ≤ ceil_div n d * d
unfolding ceil_div
ceil_div_reaches n d pos = omega (arith, pos, lt-div-mul-add {a = n + (d - 1)} {b = d} pos)

positive : (n : ℕ) → 0 < n → ltb 0 n ≡ true
positive n h = ground arith

tokens_at-ceil_div :
    (per : ℕ) (text : Text) → 0 < per → tokens_at per text ≡ ceil_div (100 * length text) per
unfolding tokens_at
tokens_at-ceil_div per [] pos = omega (arith, ceil_div_least 0 per 0 pos (omega arith))
tokens_at-ceil_div per (c ∷ text) pos = rw (positive per pos) refl

-- For a positive number of characters per token, the estimate is the least number of tokens that
-- holds the text, and the estimate of two texts in one is at most the sum of theirs.
pub tokens_at_lem :
    (per : ℕ) (a b : Text)
    → 0 < per
    → (100 * length a ≤ tokens_at per a * per)
      × ((k : ℕ) → 100 * length a ≤ k * per → tokens_at per a ≤ k)
      × (tokens_at per (a ++ b) ≤ tokens_at per a + tokens_at per b)
tokens_at_lem per a b pos =
    rw
      (
        tokens_at-ceil_div per a pos,
        tokens_at-ceil_div per b pos,
        tokens_at-ceil_div per (a ++ b) pos,
      )
      (
        ceil_div_reaches (100 * length a) per pos,
        λ k h. ceil_div_least (100 * length a) per k pos h,
        ceil_div_least (100 * length (a ++ b)) per _ pos (
            omega (
              arith,
              length-append a b,
              ceil_div_reaches (100 * length a) per pos,
              ceil_div_reaches (100 * length b) per pos,
              add-mul (ceil_div (100 * length a) per) (ceil_div (100 * length b) per) per,
            )),
      )
