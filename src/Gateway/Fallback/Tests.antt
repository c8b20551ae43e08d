-- ===== src/Gateway/Fallback/Tests.antt =====
-- The fallback chain of a request to OpenAI, over the seed catalog.
use agent_studio.Base.{◌≡◌, refl, true, false, none, [], ◌∷◌}
use agent_studio.Base.Eq.{nat_eq, list_eq, pair_eq}
use agent_studio.Base.Text.{Text, codes}
use agent_studio.Gateway.Catalog.{new_catalog, seed_specs}
use agent_studio.Gateway.Chain.{content_policy}
use agent_studio.Gateway.Router.{Deployment}
use agent_studio.Gateway.Fallback.{FallbackChain, targets}

abbrev mini : Deployment
mini = (codes "openai", codes "gpt-4o-mini")

abbrev sonnet : Deployment
sonnet = (codes "anthropic", codes "claude-3-5-sonnet")

abbrev chain : FallbackChain
chain = record {
  request = record {
    provider = codes "openai";
    model = none;
    strategy = [];
    tiered = false;
    simple_query = false;
    estimated_input_tokens = none;
    pinned_to = none;
  };
  candidates = mini ∷ sonnet ∷ mini ∷ [];
  cfg = record {
    fallback_models = codes "google: gemini-2.0-flash" ∷ [];
    cheap_model = none;
    cross_family_fallback = true;
  };
  catalog = new_catalog seed_specs;
}

refusal_targets :
    targets chain content_policy
    ≡ mini ∷ sonnet ∷ sonnet ∷ (codes "google", codes "gemini-2.0-flash") ∷ []
unfolding targets
refusal_targets = refl

abbrev too_long : Text
too_long = codes "Error: Prompt is TOO LONG, refused"
