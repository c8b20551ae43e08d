-- ===== src/Governance/Compiled/Laws.antt =====
-- What backend/app/governance/compiled.py compiles, and what the gateway's quota makes of it.
use agent_studio.Base.{
  ℕ, ◌≡◌, ◌⊎◌, ◌↔◌, inl, inr, ◌∙◌, ap, sym, refl, Bool, true, false, not, ◌&&◌, Option, none, some,
  List, [], ◌∷◌, ◌++◌, map, if◌then◌else◌,
}
use agent_studio.Base.Dict.{Dict, lookup, insert, lookup-insert}
use agent_studio.Base.Eq.{nat_eq, list_eq, list_beq, elem, elem-nil, filter_by}
use agent_studio.Base.Sort.{elem-sort_by}
use agent_studio.Base.Text.{Text, codes, text_le, nonempty}
use agent_studio.Gateway.Quota.{Limits}
use agent_studio.Governance.Budgets.{
  or_default, get_or, build_gateway_budget_cfg, quota_limits_from_cfg,
}
use agent_studio.Governance.Compiled.{
  ingress_rail_order, egress_rail_order, RailBinding, TenantConfig, Settings, SurfaceRow,
  CompiledSurfaceConfig, Compiled, compiled, allows_tool, rail_enabled, with_rails, rails,
  surface_budgets, compile_budgets, quota_key, deny_for, compile_surface_config,
}

elem-nonempty : (name : Text) (xs : List Text) → (nonempty xs && elem name xs) ≡ elem name xs
elem-nonempty name [] = sym (elem-nil name)
elem-nonempty name (x ∷ xs) = refl

or_default-if :
    (b : Bool) (default v : ℕ) (o : Option ℕ)
    → or_default default (if b then some v else o) ≡ (if b then v else or_default default o)
or_default-if true default v o = refl
or_default-if false default v o = refl

get_or-insert :
    (k j : Text) (default v : ℕ) (d : Dict Text ℕ)
    → get_or j default (insert k v d) ≡ (if list_beq k j then v else get_or j default d)
unfolding get_or
get_or-insert k j default v d =
    ap (or_default default) (lookup-insert k j v d)
    ∙ or_default-if (list_beq k j) default v (lookup j d)

abbrev platform_key : Text
platform_key = codes "quota_platform_usd"

abbrev tenant_key : Text
tenant_key = codes "quota_tenant_usd"

abbrev surface_key : Text
surface_key = codes "quota_surface_usd"

abbrev end_user_key : Text
end_user_key = codes "quota_end_user_usd"

-- The four quotas written over some budgets are read back.
quotas_over : (l : Limits) (d : Dict Text ℕ) → Dict Text ℕ
quotas_over l d = insert end_user_key l.end_user_usd (
    insert surface_key l.surface_usd
      (insert tenant_key l.tenant_usd (insert platform_key l.platform_usd d)))

module _ (l : Limits) (d : Dict Text ℕ) where
  abbrev d1 : Dict Text ℕ
  d1 = insert platform_key l.platform_usd d

  abbrev d2 : Dict Text ℕ
  d2 = insert tenant_key l.tenant_usd d1

  abbrev d3 : Dict Text ℕ
  d3 = insert surface_key l.surface_usd d2

  platform_read : get_or platform_key 0 (quotas_over l d) ≡ l.platform_usd
  unfolding quotas_over
  platform_read =
      get_or-insert end_user_key platform_key 0 l.end_user_usd d3
      ∙ get_or-insert surface_key platform_key 0 l.surface_usd d2
      ∙ get_or-insert tenant_key platform_key 0 l.tenant_usd d1
      ∙ get_or-insert platform_key platform_key 0 l.platform_usd d

  tenant_read : get_or tenant_key 0 (quotas_over l d) ≡ l.tenant_usd
  unfolding quotas_over
  tenant_read =
      get_or-insert end_user_key tenant_key 0 l.end_user_usd d3
      ∙ get_or-insert surface_key tenant_key 0 l.surface_usd d2
      ∙ get_or-insert tenant_key tenant_key 0 l.tenant_usd d1

  surface_read : get_or surface_key 0 (quotas_over l d) ≡ l.surface_usd
  unfolding quotas_over
  surface_read =
      get_or-insert end_user_key surface_key 0 l.end_user_usd d3
      ∙ get_or-insert surface_key surface_key 0 l.surface_usd d2

  end_user_read : get_or end_user_key 0 (quotas_over l d) ≡ l.end_user_usd
  unfolding quotas_over
  end_user_read = get_or-insert end_user_key end_user_key 0 l.end_user_usd d3

  limits-quotas_over : quota_limits_from_cfg (build_gateway_budget_cfg (quotas_over l d)) ≡ l
  unfolding quota_limits_from_cfg build_gateway_budget_cfg
  limits-quotas_over = rw (platform_read, tenant_read, surface_read, end_user_read) refl

module _ {B : Type 0} where
  -- What a compiled configuration says of a tool; a failed compilation allows none.
  abbrev pub allowed_by : Compiled B → Text → Bool
  allowed_by (compiled c) name = allows_tool c name
  allowed_by _ name = false

  abbrev pub denied_by : Compiled B → Bool
  denied_by (compiled c) = c.deny_by_default
  denied_by _ = true

  abbrev pub rails_of : Compiled B → List RailBinding
  rails_of (compiled c) = c.ingress_rails ++ c.egress_rails
  rails_of _ = []

  abbrev pub budgets_of : Compiled B → Dict Text ℕ
  budgets_of (compiled c) = c.budgets
  budgets_of _ = []

  abbrev pub tools_of : Option (SurfaceRow B) → List Text
  tools_of none = []
  tools_of (some s) = s.tool_allowlist

  -- The surface is there and is not inactive.
  abbrev pub IsActive : Option (SurfaceRow B) → Type 0
  IsActive none = ⊥
  IsActive (some s) = (s.active ≡ none) ⊎ (s.active ≡ some true)

  allows_tool-elem :
      (c : CompiledSurfaceConfig B) (name : Text) → allows_tool c name ≡ elem name c.tool_allowlist
  unfolding allows_tool
  allows_tool-elem c name = elem-nonempty name c.tool_allowlist

deny_for_lem :
    (active : Option Bool) → (deny_for active ≡ false) ↔ ((active ≡ none) ⊎ (active ≡ some true))
deny_for_lem none = (λ p. inl refl, λ p. refl)
deny_for_lem (some true) = (λ p. inr refl, λ p. refl)
deny_for_lem (some false) = (λ p. absurd cc, λ p. elim p [ inl q ↦ cc | inr q ↦ cc ])

abbrev pub switched_on : Text → RailBinding
switched_on rail = record { name = rail; enabled = true }

rails_lem :
    (cfg : Dict Text Bool) (order : List Text)
    → lookup (codes "guardrail_config") cfg ≡ none
    → rails cfg order ≡ some (map switched_on order)
unfolding rails rail_enabled get_or lookup
rails_lem cfg [] h = refl
rails_lem cfg (rail ∷ order) h = rw (h, rails_lem cfg order h) refl

module _ {B : Type 0} (settings : Settings) (tenant : TenantConfig)
    (surface : Option (SurfaceRow B)) (version : ℕ) where
  abbrev result : Compiled B
  result = compile_surface_config settings true tenant surface version

  compile_lem :
      lookup (codes "guardrail_config") tenant.guardrail_config ≡ none
      → result
        ≡ with_rails settings version
            (compile_budgets settings tenant.budgets surface)
            surface
            (some (map switched_on ingress_rail_order))
            (some (map switched_on egress_rail_order))
  unfolding compile_surface_config
  compile_lem h =
      rw
        (
          rails_lem tenant.guardrail_config ingress_rail_order h,
          rails_lem tenant.guardrail_config egress_rail_order h,
        )
        refl

  -- Whatever a tenant's configuration says of its guardrails, each of them is enabled in what is
  -- compiled, unless it has an entry named `guardrail_config`.
  pub rails-compile_surface_config :
      lookup (codes "guardrail_config") tenant.guardrail_config ≡ none
      → rails_of result ≡ map switched_on (ingress_rail_order ++ egress_rail_order)
  rails-compile_surface_config h = rw (compile_lem h) (by_surface surface)
    where
      by_surface :
          (sf : Option (SurfaceRow B))
          → rails_of (
              with_rails settings version
                (compile_budgets settings tenant.budgets surface)
                sf
                (some (map switched_on ingress_rail_order))
                (some (map switched_on egress_rail_order)))
            ≡ map switched_on (ingress_rail_order ++ egress_rail_order)
      by_surface none = refl
      by_surface (some sf) = refl

  -- What is compiled for a surface allows exactly the tools of the surface's list, in whatever
  -- order they stand there, and does not deny by default exactly if there is a surface that is active,
  -- as one is that does not say. The tenant has no guardrail named guardrail_config.
  pub allowed_by-compile_surface_config :
      (name : Text)
      → lookup (codes "guardrail_config") tenant.guardrail_config ≡ none
      → (allowed_by result name ≡ elem name (tools_of surface))
        × ((denied_by result ≡ false) ↔ IsActive surface)
  allowed_by-compile_surface_config name h = rw (compile_lem h) (by_surface surface)
    where
      by_surface :
          (sf : Option (SurfaceRow B))
          → let c =
              with_rails settings version
                (compile_budgets settings tenant.budgets surface)
                sf
                (some (map switched_on ingress_rail_order))
                (some (map switched_on egress_rail_order)) in
            (allowed_by c name ≡ elem name (tools_of sf)) × ((denied_by c ≡ false) ↔ IsActive sf)
      by_surface none = (allows_tool-elem _ name, (λ p. absurd (cc), λ p. absurd p))
      by_surface (some sf) = (
        allows_tool-elem _ name ∙ elem-sort_by text_le name sf.tool_allowlist,
        deny_for_lem sf.active,
      )

  -- The limits that the settings, the tenant and the surface ask for.
  abbrev pub limits_asked : Limits
  limits_asked = record {
    platform_usd = settings.quota_platform_usd;
    tenant_usd = get_or (codes "monthly_usd") settings.quota_tenant_usd tenant.budgets;
    surface_usd = get_or (codes "monthly_usd") 0 (surface_budgets surface);
    end_user_usd = get_or (codes "end_user_monthly_usd") 0 (surface_budgets surface);
  }

  -- The tenant's own budgets without the two keys that it must not set.
  abbrev own_budgets : Dict Text ℕ
  own_budgets = filter_by (λ kv. not (quota_key kv)) tenant.budgets

  compile_budgets-inserts :
      compile_budgets settings tenant.budgets surface ≡ quotas_over limits_asked own_budgets
  unfolding compile_budgets quotas_over
  compile_budgets-inserts = refl

  -- The limits that the gateway's quota enforces for what is compiled: the platform's are those of
  -- the settings, whatever the tenant writes among its budgets, the tenant's are its monthly budget
  -- or the default, and the surface's and the end user's are those of the surface, or none.
  pub limits-compile_surface_config :
      lookup (codes "guardrail_config") tenant.guardrail_config ≡ none
      → quota_limits_from_cfg (build_gateway_budget_cfg (budgets_of result)) ≡ limits_asked
  limits-compile_surface_config h = rw (compile_lem h) (by_surface surface)
    where
      asked :
          quota_limits_from_cfg
            (build_gateway_budget_cfg (compile_budgets settings tenant.budgets surface))
          ≡ limits_asked
      asked = rw compile_budgets-inserts (limits-quotas_over limits_asked own_budgets)

      by_surface :
          (sf : Option (SurfaceRow B))
          → quota_limits_from_cfg (
              build_gateway_budget_cfg (
                budgets_of (
                  with_rails settings version
                    (compile_budgets settings tenant.budgets surface)
                    sf
                    (some (map switched_on ingress_rail_order))
                    (some (map switched_on egress_rail_order)))))
            ≡ limits_asked
      by_surface none = asked
      by_surface (some sf) = asked
