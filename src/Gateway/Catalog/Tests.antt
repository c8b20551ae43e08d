-- ===== src/Gateway/Catalog/Tests.antt =====
-- The catalog at the seed table.
use agent_studio.Base.{◌≡◌, refl, some}
use agent_studio.Base.Eq.{nat_eq, list_eq}
use agent_studio.Base.Text.{codes}
use agent_studio.Gateway.Catalog.{Catalog, new_catalog, seed_specs, estimate_cost}

abbrev seed : Catalog
seed = new_catalog seed_specs

cost_of_mini : estimate_cost seed (codes " OpenAI") (codes "GPT-4o-mini ") 1000 256 ≡ some 303600
unfolding new_catalog estimate_cost
cost_of_mini = refl
