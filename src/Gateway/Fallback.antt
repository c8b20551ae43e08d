-- ===== src/Gateway/Fallback.antt =====
-- backend/app/gateway/fallback.py: failure classes, and the deployments to try for each.
pub mod Targets
pub mod Classes
mod Tests
use agent_studio.Base.{
  ℕ, zero, suc, Bool, true, false, not, ◌&&◌, ◌||◌, Option, none, some, List, [], ◌∷◌, ◌++◌, leb,
  if◌then◌else◌,
}
use agent_studio.Base.Eq.{Eq, nat_eq, list_eq, pair_eq, list_beq, elem, any_of, append_new}
use agent_studio.Base.Text.{Text, codes, strip, lower, contains_any, split_once}
use agent_studio.Base.Sort.{sort_by}
use agent_studio.Gateway.Catalog.{Catalog, ModelSpec, list_all}
use agent_studio.Gateway.Chain.{FailureClass, general, content_policy, context_window}
use agent_studio.Gateway.Router.{Deployment, GatewayCfg, Request, tenant_fallback_candidates}

abbrev pub content_policy_markers : List Text
content_policy_markers =
    codes "content policy"
    ∷ codes "content_policy"
    ∷ codes "safety system"
    ∷ codes "refused"
    ∷ codes "refusal"
    ∷ codes "output blocked"
    ∷ codes "output_blocked"
    ∷ codes "inappropriate content"
    ∷ codes "filtered"
    ∷ codes "blocked by policy"
    ∷ codes "violates our policy"
    ∷ codes "responses_to_same"
    ∷ codes "moderation"
    ∷ codes "policy violation"
    ∷ []

abbrev pub context_window_markers : List Text
context_window_markers =
    codes "maximum context length"
    ∷ codes "context length exceeded"
    ∷ codes "context window"
    ∷ codes "prompt is too long"
    ∷ codes "input is too long"
    ∷ codes "context_length_exceeded"
    ∷ codes "maximum tokens"
    ∷ codes "token limit exceeded"
    ∷ codes "too many tokens"
    ∷ []

-- `classify_failure` of the text of an exception
unfoldable pub classify_failure : Text → FailureClass
classify_failure message =
    let text = lower message in
    if contains_any context_window_markers text
    then context_window
    else if contains_any content_policy_markers text
    then content_policy
    else general

abbrev is_context_window : FailureClass → Bool
is_context_window context_window = true
is_context_window _ = false

unfoldable pub is_overflow_failure : Text → Bool
unfolding classify_failure
is_overflow_failure message = is_context_window (classify_failure message)

-- `_FAMILY_CROSS_FALLBACK.get(provider, ())`
unfoldable pub cross_families : Text → List Text
cross_families p =
    if list_beq p (codes "openai")
    then codes "anthropic" ∷ codes "google" ∷ []
    else if list_beq p (codes "anthropic")
    then codes "openai" ∷ codes "google" ∷ []
    else if list_beq p (codes "google")
    then codes "openai" ∷ codes "anthropic" ∷ []
    else if list_beq p (codes "azure")
    then codes "openai" ∷ []
    else if list_beq p (codes "custom")
    then codes "openai" ∷ []
    else []

pub record FallbackChain : Type 0 where
  pub request : Request
  pub candidates : List Deployment
  pub cfg : GatewayCfg
  pub catalog : Catalog

-- The candidates of one provider that are not in `result`, appended.
add_candidates : Text → List Deployment → List Deployment → List Deployment
unfolding append_new
add_candidates p [] result = result
add_candidates p (c ∷ cs) result =
    add_candidates p cs (if list_beq c.0 p then append_new result c else result)

-- A tenant entry of the provider, as the code splits it here.
entry_at : Text → Option (Text × Text) → Option Deployment
unfolding strip lower
entry_at p none = none
entry_at p (some (a, m)) =
    if list_beq (lower (strip a)) p then some (lower (strip a), strip m) else none

entry_of : Text → Text → Option Deployment
unfolding split_once entry_at
entry_of p entry = entry_at p (split_once b':' entry)

add_entry : Option Deployment → List Deployment → List Deployment
unfolding append_new
add_entry none result = result
add_entry (some d) result = append_new result d

add_entries : Text → List Text → List Deployment → List Deployment
unfolding entry_of add_entry
add_entries p [] result = result
add_entries p (t ∷ ts) result = add_entries p ts (add_entry (entry_of p t) result)

-- One round of the loop over the families.
add_family : FallbackChain → Text → List Deployment → List Deployment
unfolding add_candidates add_entries tenant_fallback_candidates any_of
add_family f p result =
    let found = add_candidates p f.candidates result in
    if any_of (λ (c : Deployment). list_beq c.0 p) found
    then found
    else add_entries p (tenant_fallback_candidates f.cfg) found

add_families : FallbackChain → List Text → List Deployment → List Deployment
unfolding add_family
add_families f [] result = result
add_families f (p ∷ ps) result = add_families f ps (add_family f p result)

-- `_cross_family`
unfoldable pub cross_family : FallbackChain → List Deployment
unfolding add_families cross_families
cross_family f = add_families f (cross_families f.request.provider) []

-- The loop over the candidates of the specs: the first `left` that are neither seen nor taken.
take_new {ℓ} : {A : Type ℓ} ⦃e : Eq A⦄ → ℕ → List A → List A → List A → List A
unfolding elem
take_new zero seen cs result = result
take_new (suc left) seen [] result = result
take_new (suc left) seen (c ∷ cs) result =
    let skip = take_new (suc left) seen cs result in
    let more = take_new left seen cs (result ++ (c ∷ [])) in
    if elem c seen || elem c result then skip else more

spec_deployments : List ModelSpec → List Deployment
spec_deployments [] = []
spec_deployments (s ∷ ss) = (s.provider, s.model) ∷ spec_deployments ss

-- `_large_window`
unfoldable pub large_window : FallbackChain → List Deployment
unfolding take_new list_all sort_by spec_deployments
large_window f =
    take_new 2 f.candidates
      (spec_deployments
        (sort_by (λ s t. leb t.context_window s.context_window) (list_all f.catalog)))
      []

-- `if candidate not in ordered: ordered.append(candidate)`
pub dedupe_onto : List Deployment → List Deployment → List Deployment
unfolding append_new
dedupe_onto ordered [] = ordered
dedupe_onto ordered (c ∷ cs) = dedupe_onto (append_new ordered c) cs

pub tail_at : FallbackChain → FailureClass → List Deployment
unfolding cross_family large_window
tail_at f general = []
tail_at f content_policy = if f.cfg.cross_family_fallback then cross_family f else []
tail_at f context_window = large_window f

-- `targets`
unfoldable pub targets : FallbackChain → FailureClass → List Deployment
unfolding dedupe_onto tail_at
targets f c = dedupe_onto [] f.candidates ++ tail_at f c
