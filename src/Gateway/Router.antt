-- ===== src/Gateway/Router.antt =====
-- `Router` and the helpers of backend/app/gateway/router.py. A latency is a whole number of
-- microseconds, 0 where none is known; a score of `none` is `float("inf")`.
pub mod Ranking
pub mod Decision
mod Tests
use agent_studio.Base.{
  ℕ, Bool, true, false, not, ◌&&◌, Option, none, some, List, [], ◌∷◌, ◌++◌, length, ltb, leb,
  if◌then◌else◌,
}
use agent_studio.Base.Eq.{Eq, nat_eq, list_eq, pair_eq, list_beq, filter_by, append_new}
use agent_studio.Base.Dict.{Dict, lookup}
use agent_studio.Base.Text.{Text, codes, strip, lower, contains, split_once, nonempty}
use agent_studio.Base.Sort.{sort_by}
use agent_studio.Gateway.Catalog.{Catalog, ModelSpec, get, estimate_cost, list_all}

abbrev pub Deployment : Type 0
Deployment = Text × Text

pub data Strategy : Type 0 where
  cost latency quality pinned : Strategy

-- `is_valid_strategy`, with the fallback to cost
unfoldable pub strategy_of : Text → Strategy
strategy_of s =
    if list_beq s (codes "latency")
    then latency
    else if list_beq s (codes "quality")
    then quality
    else if list_beq s (codes "pinned")
    then pinned
    else cost

-- The fields of `GatewayRequest` that routing reads. `none` and an empty text are both falsy.
pub record Request : Type 0 where
  pub provider : Text
  pub model : Option Text
  pub strategy : Text
  pub tiered : Bool
  pub simple_query : Bool
  pub estimated_input_tokens : Option ℕ
  pub pinned_to : Option Text

-- The keys of the tenant's gateway configuration that routing reads.
pub record GatewayCfg : Type 0 where
  pub fallback_models : List Text
  pub cheap_model : Option Text
  pub cross_family_fallback : Bool

-- `a or b`
abbrev pub or_text : Option Text → Text → Text
or_text none b = b
or_text (some a) b = if nonempty a then a else b

abbrev pub or_number : Option ℕ → ℕ → ℕ
or_number none b = b
or_number (some ℕ.zero) b = b
or_number (some (ℕ.suc n)) b = ℕ.suc n

pub default_fallback : Text → Option Text
default_fallback p =
    if list_beq p (codes "openai")
    then some (codes "gpt-4o-mini")
    else if list_beq p (codes "anthropic")
    then some (codes "claude-3-5-haiku")
    else if list_beq p (codes "google")
    then some (codes "gemini-2.0-flash")
    else if list_beq p (codes "azure")
    then some (codes "gpt-4o-mini")
    else if list_beq p (codes "custom")
    then some (codes "gpt-4o-mini")
    else none

family_default : Text → Option Text
family_default p =
    if list_beq p (codes "anthropic") then some (codes "claude-3-5-sonnet") else default_fallback p

map_strip : List Text → List Text
unfolding strip
map_strip [] = []
map_strip (c ∷ cs) = strip c ∷ map_strip cs

unfoldable pub tenant_fallback_candidates : GatewayCfg → List Text
unfolding map_strip filter_by
tenant_fallback_candidates cfg = filter_by nonempty (map_strip cfg.fallback_models)

first_of_provider : Text → List ModelSpec → Option Text
first_of_provider p [] = none
first_of_provider p (s ∷ ss) =
    if list_beq s.provider p then some s.model else first_of_provider p ss

abbrev or_default : Option Text → Text → Text
or_default none d = d
or_default (some a) d = a

-- `_default_model_for`
default_model_for : Catalog → Text → Text
unfolding get list_all first_of_provider family_default default_fallback
default_model_for c p = elim (family_default p) [
  | none ↦ or_default (first_of_provider p (list_all c)) (codes "gpt-4o-mini")
  | some m ↦ elim (get c p m) [
    | none ↦ or_default (first_of_provider p (list_all c)) m
    | some _ ↦ m
  ]
]

-- `_split_deployment`
unfoldable pub split_deployment : Text → Deployment
unfolding split_once strip lower
split_deployment entry = elim (split_once b':' entry) [
  | none ↦ (lower (strip entry), strip entry)
  | some (p, m) ↦ (lower (strip p), strip m)
]

-- one tenant entry after the other
pub append_all : List Deployment → List Text → List Deployment
unfolding append_new split_deployment
append_all ds [] = ds
append_all ds (t ∷ ts) = append_all (append_new ds (split_deployment t)) ts

-- What the router holds: the catalog, the latency of each `provider:model`, and its cheap model.
pub record Router : Type 0 where
  pub catalog : Catalog
  pub latencies : Dict Text ℕ
  pub cheap_model_fallback : Text

-- The cheap model of a tiered request.
pub cheap_deployment : Router → Request → GatewayCfg → Deployment
unfolding contains split_deployment
cheap_deployment r q cfg =
    let cheap = or_text cfg.cheap_model r.cheap_model_fallback in
    if contains (codes ":") cheap then split_deployment cheap else (q.provider, cheap)

pub preferred : Router → Request → Deployment
unfolding default_model_for
preferred r q = (q.provider, or_text q.model (default_model_for r.catalog q.provider))

pub with_cheap : Router → Request → GatewayCfg → List Deployment → List Deployment
unfolding cheap_deployment
with_cheap r q cfg ds =
    if q.tiered && q.simple_query then ds ++ (cheap_deployment r q cfg ∷ []) else ds

pub with_default : Request → List Deployment → List Deployment
unfolding default_fallback append_new
with_default q ds = elim (default_fallback q.provider) [
  | none ↦ ds
  | some m ↦ append_new ds (q.provider, m)
]

-- The candidates before they are ranked.
unfoldable pub gathered : Router → Request → GatewayCfg → List Deployment
unfolding preferred with_cheap append_all tenant_fallback_candidates with_default
gathered r q cfg =
    with_default q
      (append_all (with_cheap r q cfg (preferred r q ∷ [])) (tenant_fallback_candidates cfg))

score_at : Strategy → Router → Request → Deployment → Option ℕ
unfolding estimate_cost lookup
score_at cost r q (p, m) = estimate_cost r.catalog p m (or_number q.estimated_input_tokens 1000) 256
score_at latency r q (p, m) = elim (lookup (p ++ (codes ":" ++ m)) r.latencies) [
  | none ↦ none
  | some l ↦ if ltb 0 l then some l else none
]
score_at _ r q d = some 0

-- `_score`
unfoldable pub score : Strategy → Router → Request → Deployment → Option ℕ
unfolding score_at
score = score_at

abbrev pub score_le : Option ℕ → Option ℕ → Bool
score_le (some a) (some b) = leb a b
score_le (some a) none = true
score_le none (some b) = false
score_le none none = true

abbrev pub cheaper : Strategy → Router → Request → Deployment → Deployment → Bool
cheaper s r q d d' = score_le (score s r q d) (score s r q d')

rank : Strategy → Router → Request → List Deployment → List Deployment
unfolding sort_by score
rank cost r q ds = if ltb 1 (length ds) then sort_by (cheaper cost r q) ds else ds
rank latency r q ds = if ltb 1 (length ds) then sort_by (cheaper latency r q) ds else ds
rank _ r q ds = ds

unfoldable pub candidates : Router → Request → GatewayCfg → List Deployment
unfolding strategy_of gathered rank split_deployment
candidates r q cfg =
    if nonempty (or_text q.pinned_to [])
    then split_deployment (or_text q.pinned_to []) ∷ []
    else rank (strategy_of q.strategy) r q (gathered r q cfg)

pub data Reason : Type 0 where
  available all_deployments_cooldown : Reason

pub record RouteDecision : Type 0 where
  pub deployment : Deployment
  pub strategy : Strategy
  pub candidates_considered : ℕ
  pub reason : Reason

first_available {ℓ} : {A : Type ℓ} → (A → Bool) → List A → Option A
first_available up [] = none
first_available up (d ∷ ds) = if up d then some d else first_available up ds

-- `decide` on the ranked candidates; there is always a first, the preferred deployment.
choose : (Deployment → Bool) → Strategy → Deployment → List Deployment → RouteDecision
unfolding first_available
choose up s first ds = elim (first_available up ds) [
  | none ↦ record {
    deployment = first;
    strategy = s;
    candidates_considered = length ds;
    reason = all_deployments_cooldown;
  }
  | some d ↦ record {
    deployment = d;
    strategy = s;
    candidates_considered = length ds;
    reason = available;
  }
]

-- `candidates[0]`; an empty list would raise `IndexError`
head_or_fail : (Deployment → Bool) → Strategy → List Deployment → Option RouteDecision
unfolding choose
head_or_fail up s [] = none
head_or_fail up s (d ∷ ds) = some (choose up s d (d ∷ ds))

unfoldable pub decide : Router → Request → (Deployment → Bool) → GatewayCfg → Option RouteDecision
unfolding candidates head_or_fail
decide r q up cfg = head_or_fail up (strategy_of q.strategy) (candidates r q cfg)
