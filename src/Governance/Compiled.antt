-- ===== src/Governance/Compiled.antt =====
-- `compile_surface_config` of backend/app/governance/compiled.py. The JSON schema of a tenant's
-- configuration is checked by a library, whose answer is an argument; a valid one has booleans for
-- guardrails. The hash of the source and the tenant's id are left out. `B` are brand voices.
pub mod Laws
mod Tests
use agent_studio.Base.{
  ℕ, Bool, true, false, not, ◌&&◌, ◌||◌, Option, none, some, List, [], ◌∷◌, map, if◌then◌else◌,
}
use agent_studio.Base.Dict.{Dict, lookup, insert}
use agent_studio.Base.Eq.{nat_eq, list_eq, list_beq, elem, filter_by}
use agent_studio.Base.Sort.{sort_by}
use agent_studio.Base.Text.{Text, codes, text_le, nonempty}
use agent_studio.Governance.Budgets.{get_or}

abbrev pub ingress_rail_order : List Text
ingress_rail_order =
    codes "regex_fastpath"
    ∷ codes "classifier"
    ∷ codes "nemo_rails"
    ∷ codes "spotlighting"
    ∷ codes "pii_detection"
    ∷ []

abbrev pub egress_rail_order : List Text
egress_rail_order =
    codes "output_validation" ∷ codes "pii_detection" ∷ codes "jailbreak_detection" ∷ []

pub record RailBinding : Type 0 where
  pub name : Text
  pub enabled : Bool

pub record TenantConfig : Type 0 where
  pub guardrail_config : Dict Text Bool
  pub budgets : Dict Text ℕ

-- The quotas of the settings.
pub record Settings : Type 0 where
  pub quota_platform_usd : ℕ
  pub quota_tenant_usd : ℕ

pub record SurfaceRow (B : Type 0) : Type 0 where
  pub id : Text
  pub tool_allowlist : List Text
  pub knowledge_allowlist : List Text
  pub brand_voice_override : Option B
  pub active : Option Bool
  pub budgets : Dict Text ℕ

pub record CompiledSurfaceConfig (B : Type 0) : Type 0 where
  pub surface_id : Option Text
  pub version : ℕ
  pub ingress_rails : List RailBinding
  pub egress_rails : List RailBinding
  pub tool_allowlist : List Text
  pub budgets : Dict Text ℕ
  pub knowledge_allowlist : List Text
  pub brand_voice : Option B
  pub deny_by_default : Bool

-- `invalid` is ConfigValidationError, `crashed` an exception of the compiler itself.
pub data Compiled (B : Type 0) : Type 0 where
  invalid crashed : Compiled B
  compiled : CompiledSurfaceConfig B → Compiled B

unfoldable pub allows_tool : {B : Type 0} → CompiledSurfaceConfig B → Text → Bool
unfolding elem
allows_tool c name = nonempty c.tool_allowlist && elem name c.tool_allowlist

-- What `cfg.get("guardrail_config") or {}` gives for a boolean: an empty dictionary, unless it is
-- `true`, which has no `get`.
abbrev inner_config : Option Bool → Option (Dict Text Bool)
inner_config none = some []
inner_config (some false) = some []
inner_config (some true) = none

abbrev enabled_in : Text → Option (Dict Text Bool) → Option Bool
enabled_in rail none = none
enabled_in rail (some guardrails) = some (get_or rail true guardrails)

-- `_rail_enabled`, which reads `guardrail_config` in what it is given, and that is the tenant's
-- `guardrail_config` itself
unfoldable pub rail_enabled : Dict Text Bool → Text → Option Bool
unfolding get_or lookup
rail_enabled cfg rail = enabled_in rail (inner_config (lookup (codes "guardrail_config") cfg))

abbrev pub bind_rail : Text → Option Bool → Option (List RailBinding) → Option (List RailBinding)
bind_rail rail (some b) (some rest) = some (record { name = rail; enabled = b } ∷ rest)
bind_rail rail _ _ = none

unfoldable pub rails : Dict Text Bool → List Text → Option (List RailBinding)
unfolding rail_enabled
rails cfg [] = some []
rails cfg (rail ∷ order) = bind_rail rail (rail_enabled cfg rail) (rails cfg order)

abbrev pub quota_key : Text × ℕ → Bool
quota_key (k, _) = list_beq k (codes "quota_platform_usd") || list_beq k (codes "quota_tenant_usd")

abbrev pub surface_budgets : {B : Type 0} → Option (SurfaceRow B) → Dict Text ℕ
surface_budgets none = []
surface_budgets (some s) = s.budgets

-- `not surface.get("active", True)`
abbrev pub deny_for : Option Bool → Bool
deny_for none = false
deny_for (some active) = not active

module _ {B : Type 0} (settings : Settings) where
  unfoldable pub compile_budgets : Dict Text ℕ → Option (SurfaceRow B) → Dict Text ℕ
  unfolding filter_by insert get_or
  compile_budgets tenant_budgets surface =
      let b0 = filter_by (λ kv. not (quota_key kv)) tenant_budgets in
      let b1 = insert (codes "quota_platform_usd") settings.quota_platform_usd b0 in
      let b2 =
        insert (codes "quota_tenant_usd")
          (get_or (codes "monthly_usd") settings.quota_tenant_usd tenant_budgets) b1 in
      let b3 =
        insert (codes "quota_surface_usd")
          (get_or (codes "monthly_usd") 0 (surface_budgets surface)) b2 in
      insert (codes "quota_end_user_usd")
        (get_or (codes "end_user_monthly_usd") 0 (surface_budgets surface)) b3

  abbrev pub with_rails :
      ℕ
      → Dict Text ℕ
      → Option (SurfaceRow B)
      → Option (List RailBinding)
      → Option (List RailBinding)
      → Compiled B
  with_rails version budgets none (some ingress) (some egress) = compiled (record {
    surface_id = none;
    version = version;
    ingress_rails = ingress;
    egress_rails = egress;
    tool_allowlist = [];
    budgets = budgets;
    knowledge_allowlist = [];
    brand_voice = none;
    deny_by_default = true;
  })
  with_rails version budgets (some s) (some ingress) (some egress) = compiled (record {
    surface_id = some s.id;
    version = version;
    ingress_rails = ingress;
    egress_rails = egress;
    tool_allowlist = sort_by text_le s.tool_allowlist;
    budgets = budgets;
    knowledge_allowlist = sort_by text_le s.knowledge_allowlist;
    brand_voice = s.brand_voice_override;
    deny_by_default = deny_for s.active;
  })
  with_rails version budgets surface _ _ = crashed

  -- `compile_surface_config`; `valid` is the answer of the schema's validator
  unfoldable pub compile_surface_config :
      Bool → TenantConfig → Option (SurfaceRow B) → ℕ → Compiled B
  unfolding rails compile_budgets sort_by text_le
  compile_surface_config false tenant surface version = invalid
  compile_surface_config true tenant surface version =
      with_rails version (compile_budgets tenant.budgets surface) surface
        (rails tenant.guardrail_config ingress_rail_order)
        (rails tenant.guardrail_config egress_rail_order)
