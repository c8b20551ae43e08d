-- ===== src/Governance/Tests.antt =====
-- The gates on small inputs.
use agent_studio.Base.{◌≡◌, refl, false, none, some, [], ◌∷◌}
use agent_studio.Base.Eq.{nat_eq, list_eq, elem}
use agent_studio.Base.Text.{Text, codes}
use agent_studio.Governance.Residency.{deployment_shape}
use agent_studio.Governance.Promotion.{
  validated, pending, promoted, promotion_gate, validate_canary_percent,
}
use agent_studio.Governance.Isolation.{TenantContext, redis_key, vector_namespace, key-tenant_id}

-- A pending evaluation does not hold a promotion up.
pending_promoted : promotion_gate validated pending ≡ promoted
unfolding promotion_gate
pending_promoted = refl

too_many_percent : validate_canary_percent (some 101) ≡ false
unfolding validate_canary_percent
too_many_percent = refl

shared_shape : deployment_shape false ≡ codes "shared"
unfolding deployment_shape
shared_shape = refl

abbrev search_tool : Text
search_tool = codes "search"

abbrev context : Text → Text → TenantContext
context tenant user = record { tenant_id = tenant; surface_id = none; end_user_id = user }

-- A tenant-wide key can spell the key of an end user.
same_key :
    redis_key (context (codes "a") (codes "b")) (codes "x" ∷ [])
    ≡ redis_key (context (codes "a") []) (codes "end_user" ∷ codes "b" ∷ codes "x" ∷ [])
unfolding redis_key
same_key = refl

namespace_of_base : vector_namespace (context (codes "a") []) (codes "b") ≡ codes "tenant_a_kb_b"
unfolding vector_namespace
namespace_of_base = refl

key-tenant_id_example : codes "a" ≡ codes "a"
unfolding elem
key-tenant_id_example =
    (key-tenant_id (context (codes "a") (codes "b")) (context (codes "a") []) (codes "x" ∷ [])
        (codes "end_user" ∷ codes "b" ∷ codes "x" ∷ [])).0
      refl refl same_key
