-- ===== src/Governance/Budgets/Surface.antt =====
-- The check of backend/app/governance/budgets.py that mirrors the reserve script, against the
-- reservation of backend/app/gateway/quota.py itself.
use agent_studio.Base.{
  ℕ, ◌+◌, ◌≡◌, ◌∙◌, refl, Bool, true, false, not, ◌&&◌, Option, none, some, List, arith, ltb,
}
use agent_studio.Base.Text.{Text}
use agent_studio.Gateway.Quota.{
  HashStore, reserved, spent, Level, platform, tenant, surface, end_user, levels, Limits,
  level_limit, Payer, level_key, Result, over_budget, reserve,
}
use agent_studio.Gateway.Quota.Reserve.{first_over, Agrees, limited_keys}
use agent_studio.Gateway.Quota.Atomic.{reserve-Agrees}
use agent_studio.Governance.Budgets.{surface_over_budget_while_tenant_fine}

abbrev pub is_surface : Option Level → Bool
is_surface (some surface) = true
is_surface _ = false

-- The reservation was refused by the budget of the surface.
abbrev pub refused_by_surface : Result → Bool
refused_by_surface (over_budget surface limit used) = true
refused_by_surface _ = false

module _ {S : Type 0} (redis : HashStore S) (limits : Limits) (p : Payer) (est : ℕ) (s : S) where
  -- What a level has spent and holds.
  abbrev pub used_at : Level → ℕ
  used_at l = redis.hget (level_key p l) spent s + redis.hget (level_key p l) reserved s

  first_over-surface : is_surface (first_over redis limits (level_key p) est s levels) ≡ (
      not (ltb 0 limits.platform_usd && ltb limits.platform_usd (used_at platform + est))
      && surface_over_budget_while_tenant_fine limits.tenant_usd limits.surface_usd
          (used_at tenant)
          (used_at surface)
          est)
  unfolding first_over level_limit surface_over_budget_while_tenant_fine
  first_over-surface = ground arith

  Agrees-surface :
      (o : Option Level) (keys : List Text) (t : S) (r : Result)
      → Agrees redis limits (level_key p) est s o keys (t, r)
      → refused_by_surface r ≡ is_surface o
  Agrees-surface none keys t r (alerts, same, h) = rw same refl
  Agrees-surface (some platform) keys t r (same, h) = rw same refl
  Agrees-surface (some tenant) keys t r (same, h) = rw same refl
  Agrees-surface (some surface) keys t r (same, h) = rw same refl
  Agrees-surface (some end_user) keys t r (same, h) = rw same refl

  -- When every call of the scripts is answered and the platform has room, the reservation is
  -- refused by the budget of the surface exactly if the check says so, for what the tenant and the
  -- surface have spent and hold.
  pub surface_over_budget-reserve :
      (up : ℕ → Bool) (soft : ℕ)
      → ((n : ℕ) → up n ≡ true)
      → ltb 0 est ≡ true
      → (ltb 0 limits.platform_usd && ltb limits.platform_usd (used_at platform + est)) ≡ false
      → refused_by_surface (reserve redis true up soft limits p est s).1
        ≡ surface_over_budget_while_tenant_fine limits.tenant_usd limits.surface_usd
            (used_at tenant)
            (used_at surface)
            est
  surface_over_budget-reserve up soft ok pos room =
      Agrees-surface (first_over redis limits (level_key p) est s levels)
        (limited_keys redis limits (level_key p) est levels) _ _
        (reserve-Agrees redis up soft limits p est s ok pos)
      ∙ first_over-surface
      ∙ rw room refl
