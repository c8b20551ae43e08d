-- ===== src/Gateway/Router/Tests.antt =====
-- The router over the seed catalog, for a request to OpenAI with one fallback of the tenant.
use agent_studio.Base.{◌≡◌, refl, Bool, true, false, not, Option, none, some, [], ◌∷◌, length}
use agent_studio.Base.Eq.{nat_eq, list_eq, pair_eq, list_beq}
use agent_studio.Base.Text.{codes}
use agent_studio.Gateway.Catalog.{new_catalog, seed_specs}
use agent_studio.Gateway.Router.{
  Deployment, Deployment, cost, strategy_of, Request, GatewayCfg, Router, cheap_deployment,
  preferred, gathered, cheaper, RouteDecision, decide,
}
use agent_studio.Gateway.Router.Ranking.{gathered-Distinct, StartsWith}
use agent_studio.Gateway.Router.Decision.{decide-best, Decides}

abbrev router : Router
router = record {
  catalog = new_catalog seed_specs;
  latencies = [];
  cheap_model_fallback = codes "gpt-4o-mini";
}

abbrev request : Bool → Request
request tiered = record {
  provider = codes "openai";
  model = some (codes "gpt-4o-mini");
  strategy = codes "cost";
  tiered = tiered;
  simple_query = tiered;
  estimated_input_tokens = none;
  pinned_to = none;
}

abbrev cfg : GatewayCfg
cfg = record {
  fallback_models = codes "anthropic:claude-3-5-sonnet" ∷ [];
  cheap_model = none;
  cross_family_fallback = false;
}

abbrev openai_down : Deployment → Bool
openai_down d = not (list_beq d.0 (codes "openai"))

two_candidates : length (gathered router (request false) cfg) ≡ 2
unfolding gathered
two_candidates = refl

decided : Option RouteDecision → Option Deployment
decided none = none
decided (some d) = some d.deployment

other_family :
    decided (decide router (request false) openai_down cfg)
    ≡ some (codes "anthropic", codes "claude-3-5-sonnet")
unfolding decide decided new_catalog
other_family = refl

abbrev mini : Deployment
mini = (codes "openai", codes "gpt-4o-mini")

gathered-Distinct_example : StartsWith (mini ∷ mini ∷ []) (gathered router (request true) cfg)
unfolding cheap_deployment preferred
gathered-Distinct_example = ((gathered-Distinct router (request true) cfg).1 refl).1 refl

decide-best_example :
    (dec : RouteDecision) × (decide router (request false) openai_down cfg ≡ some dec)
    × Decides
        (cheaper cost router (request false))
        openai_down
        (gathered router (request false) cfg)
        dec
        dec.reason
unfolding strategy_of
decide-best_example = decide-best router (request false) openai_down cfg refl refl
