-- ===== src/Governance/Budgets.antt =====
-- backend/app/governance/budgets.py and `quota_limits_from_cfg` of backend/app/gateway/service.py:
-- the way of the budgets from a compiled configuration to the quota of the gateway. Money is in
-- millionths of a dollar, and an absent budget is 0.
pub mod Surface
use agent_studio.Base.{
  ℕ, ◌+◌, Bool, true, false, not, ◌&&◌, Option, none, some, List, [], ◌∷◌, ltb, if◌then◌else◌,
}
use agent_studio.Base.Dict.{Dict, lookup}
use agent_studio.Base.Eq.{nat_eq, list_eq}
use agent_studio.Base.Text.{Text, codes}
use agent_studio.Gateway.Quota.{Limits}

abbrev pub or_default {ℓ} : {V : Type ℓ} → V → Option V → V
or_default default none = default
or_default default (some v) = v

-- `d.get(key, default)`
unfoldable pub get_or {ℓ} : {V : Type ℓ} → Text → V → Dict Text V → V
unfolding lookup
get_or k default d = or_default default (lookup k d)

unfoldable pub build_gateway_budget_cfg : Dict Text ℕ → Dict Text ℕ
unfolding get_or
build_gateway_budget_cfg budgets =
    (codes "quota_platform_usd", get_or (codes "quota_platform_usd") 0 budgets)
    ∷ (codes "quota_tenant_usd", get_or (codes "quota_tenant_usd") 0 budgets)
    ∷ (codes "quota_surface_usd", get_or (codes "quota_surface_usd") 0 budgets)
    ∷ (codes "quota_end_user_usd", get_or (codes "quota_end_user_usd") 0 budgets)
    ∷ []

unfoldable pub quota_limits_from_cfg : Dict Text ℕ → Limits
unfolding get_or
quota_limits_from_cfg cfg = record {
  platform_usd = get_or (codes "quota_platform_usd") 0 cfg;
  tenant_usd = get_or (codes "quota_tenant_usd") 0 cfg;
  surface_usd = get_or (codes "quota_surface_usd") 0 cfg;
  end_user_usd = get_or (codes "quota_end_user_usd") 0 cfg;
}

unfoldable pub surface_over_budget_while_tenant_fine :
    (tenant_usd surface_usd tenant_spent surface_spent estimated_usd : ℕ) → Bool
surface_over_budget_while_tenant_fine tenant_usd surface_usd tenant_spent surface_spent
      estimated_usd =
    if not (ltb 0 surface_usd)
    then false
    else (ltb surface_usd (surface_spent + estimated_usd)
        && not (ltb 0 tenant_usd && ltb tenant_usd (tenant_spent + estimated_usd)))
