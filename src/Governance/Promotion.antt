-- ===== src/Governance/Promotion.antt =====
-- backend/app/governance/promotion.py. The hash is a parameter: `digest` is the number of the first
-- two bytes of the SHA-256 of a key. A percentage is a natural number; the code treats a negative
-- one as 0.
use agent_studio.Base.{
  ℕ, ◌%◌, ◌≤◌, ◌≡◌, refl, Bool, true, false, not, ◌||◌, Option, none, some, arith, ltb, leb,
  if◌then◌else◌,
}
use agent_studio.Base.Eq.{nat_eq, list_eq}
use agent_studio.Base.Text.{Text, nonempty}

-- The statuses; another text is `other_status`.
pub data Status : Type 0 where
  no_status pending validated running passed failed regressed other_status : Status

pub data Gate : Type 0 where
  promoted failed_validation eval_not_passed : Gate

unfoldable pub promotion_gate : Status → Status → Gate
promotion_gate failed eval = failed_validation
promotion_gate regressed eval = failed_validation
promotion_gate _ failed = eval_not_passed
promotion_gate _ _ = promoted

unfoldable pub validate_canary_percent : Option ℕ → Bool
validate_canary_percent none = true
validate_canary_percent (some p) = leb p 100

module _ (digest : Text → ℕ) where
  unfoldable pub canary_bucket : Text → Option ℕ → Bool
  canary_bucket key none = true
  canary_bucket key (some p) =
      if leb 100 p
      then true
      else if leb p 0 || not (nonempty key)
      then false
      else ltb (digest key % 100) p

  -- A key that is in the rollout stays in it when the percentage grows; at 0 none is in it, and at
  -- 100 each is, those without a key included.
  pub canary_bucket-grows :
      (key : Text) (p q : ℕ)
      → p ≤ q
      → (canary_bucket key (some p) ≡ true → canary_bucket key (some q) ≡ true)
        × (canary_bucket key (some 0) ≡ false)
        × (canary_bucket key (some 100) ≡ true)
  unfolding canary_bucket
  canary_bucket-grows key p q h = (λ k. ground arith, refl, refl)
