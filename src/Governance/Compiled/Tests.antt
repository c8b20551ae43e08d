-- ===== src/Governance/Compiled/Tests.antt =====
-- A tenant that disables two of its guardrails, and a surface of it.
use agent_studio.Base.{ℕ, ◌≡◌, ◌↔◌, refl, true, false, none, some, [], ◌∷◌, ◌++◌, map}
use agent_studio.Base.Dict.{lookup}
use agent_studio.Base.Eq.{elem}
use agent_studio.Base.Text.{codes}
use agent_studio.Governance.Budgets.{get_or, build_gateway_budget_cfg, quota_limits_from_cfg}
use agent_studio.Governance.Compiled.{
  ingress_rail_order, egress_rail_order, TenantConfig, Settings, SurfaceRow, compile_surface_config,
}
use agent_studio.Governance.Compiled.Laws.{
  allowed_by, denied_by, rails_of, budgets_of, rails-compile_surface_config,
  allowed_by-compile_surface_config, limits-compile_surface_config, switched_on, IsActive,
}

abbrev settings : Settings
settings = record { quota_platform_usd = 5000; quota_tenant_usd = 700 }

abbrev tenant_config : TenantConfig
tenant_config = record {
  guardrail_config = (codes "nemo_rails", false) ∷ (codes "pii_detection", false) ∷ [];
  budgets = (codes "quota_platform_usd", 9) ∷ (codes "monthly_usd", 300) ∷ [];
}

abbrev widget : SurfaceRow ℕ
widget = record {
  id = codes "w";
  tool_allowlist = codes "search" ∷ codes "lookup" ∷ [];
  knowledge_allowlist = [];
  brand_voice_override = none;
  active = some true;
  budgets = (codes "monthly_usd", 100) ∷ [];
}

rails-compile_surface_config_example :
    rails_of (compile_surface_config settings true tenant_config (some widget) 1)
    ≡ map switched_on (ingress_rail_order ++ egress_rail_order)
unfolding lookup
rails-compile_surface_config_example =
    rails-compile_surface_config settings tenant_config (some widget) 1 refl

allowed_by-compile_surface_config_example :
    (allowed_by
        (compile_surface_config settings true tenant_config (some widget) 1)
        (codes "lookup")
      ≡ true)
    × ((denied_by (compile_surface_config settings true tenant_config (some widget) 1) ≡ false)
        ↔ IsActive (some widget))
unfolding lookup elem
allowed_by-compile_surface_config_example =
    allowed_by-compile_surface_config settings tenant_config (some widget) 1 (codes "lookup") refl

limits-compile_surface_config_example :
    quota_limits_from_cfg (
      build_gateway_budget_cfg
        (budgets_of (compile_surface_config settings true tenant_config (some widget) 1)))
    ≡ record { platform_usd = 5000; tenant_usd = 300; surface_usd = 100; end_user_usd = 0 }
unfolding lookup get_or
limits-compile_surface_config_example =
    limits-compile_surface_config settings tenant_config (some widget) 1 refl
