-- ===== src/Gateway/Catalog.antt =====
-- `ModelSpec` and `ModelCatalog` of backend/app/gateway/catalog.py. Prices are thousandths of a
-- dollar for a thousand tokens, so that a cost is a whole number of millionths of a dollar; every
-- price of the seed table is such a number.
pub mod Facts
mod Tests
use agent_studio.Base.{
  ℕ, ◌+◌, ◌*◌, Option, none, some, List, [], ◌∷◌, ◌++◌, map, Bool, if◌then◌else◌,
}
use agent_studio.Base.Eq.{nat_eq, list_eq}
use agent_studio.Base.Dict.{Dict, lookup, insert}
use agent_studio.Base.Text.{Text, codes, strip, lower, text_le}
use agent_studio.Base.Sort.{sort_by}

abbrev pub default_context_window : ℕ
default_context_window = 128000

unfoldable pub model_key : Text → Text → Text
unfolding strip lower
model_key provider model = lower (strip provider) ++ (codes ":" ++ lower (strip model))

pub record ModelSpec : Type 0 where
  pub provider : Text
  pub model : Text
  pub context_window : ℕ
  pub input_price_per_1k : ℕ
  pub output_price_per_1k : ℕ

abbrev pub spec_key : ModelSpec → Text
spec_key s = model_key s.provider s.model

abbrev pub Catalog : Type 0
Catalog = Dict Text ModelSpec

unfoldable pub register : ModelSpec → Catalog → Catalog
unfolding insert
register s c = insert (spec_key s) s c

-- `ModelCatalog(specs)`
register_all : List ModelSpec → Catalog → Catalog
unfolding register
register_all [] c = c
register_all (s ∷ ss) c = register_all ss (register s c)

unfoldable pub new_catalog : List ModelSpec → Catalog
unfolding register_all
new_catalog specs = register_all specs []

unfoldable pub get : Catalog → Text → Text → Option ModelSpec
unfolding lookup model_key
get c provider model = lookup (model_key provider model) c

unfoldable pub context_window : Catalog → Text → Text → ℕ
unfolding get
context_window c provider model = elim (get c provider model) [
  | none ↦ default_context_window
  | some s ↦ s.context_window
]

abbrev pub spec_cost : ModelSpec → ℕ → ℕ → ℕ
spec_cost s input_tokens output_tokens =
    input_tokens * s.input_price_per_1k + output_tokens * s.output_price_per_1k

-- in millionths of a dollar
unfoldable pub estimate_cost : Catalog → Text → Text → ℕ → ℕ → Option ℕ
unfolding get
estimate_cost c provider model input_tokens output_tokens = elim (get c provider model) [
  | none ↦ none
  | some s ↦ some (spec_cost s input_tokens output_tokens)
]

values : Catalog → List ModelSpec
values c = map (λ (p : Text × ModelSpec). p.1) c

unfoldable pub list_all : Catalog → List ModelSpec
unfolding values text_le model_key sort_by
list_all c = sort_by (λ s t. text_le (spec_key s) (spec_key t)) (values c)

-- a field of `upsert`: the argument, or the spec that is there, or the default
abbrev pub field_or : Option ℕ → Option ModelSpec → (ModelSpec → ℕ) → ℕ → ℕ
field_or (some n) old f d = n
field_or none (some s) f d = f s
field_or none none f d = d

-- the spec that `upsert` registers
abbrev pub merged : Text → Text → Option ℕ → Option ℕ → Option ℕ → Option ModelSpec → ModelSpec
merged provider model window input output old = record {
  provider = provider;
  model = model;
  context_window = field_or window old (λ s. s.context_window) default_context_window;
  input_price_per_1k = field_or input old (λ s. s.input_price_per_1k) 0;
  output_price_per_1k = field_or output old (λ s. s.output_price_per_1k) 0;
}

unfoldable pub upsert : Text → Text → Option ℕ → Option ℕ → Option ℕ → Catalog → ModelSpec × Catalog
unfolding get register
upsert provider model window input output c =
    let s = merged provider model window input output (get c provider model) in (s, register s c)

abbrev spec : Text → Text → ℕ → ℕ → ℕ → ModelSpec
spec provider model window input output = record {
  provider = provider;
  model = model;
  context_window = window;
  input_price_per_1k = input;
  output_price_per_1k = output;
}

-- `_SEED_SPECS`
abbrev pub seed_specs : List ModelSpec
seed_specs =
    spec (codes "openai") (codes "gpt-4o") 128000 2500 10000
    ∷ spec (codes "openai") (codes "gpt-4o-mini") 128000 150 600
    ∷ spec (codes "openai") (codes "gpt-4.1") 1000000 2000 8000
    ∷ spec (codes "openai") (codes "gpt-4-turbo") 128000 10000 30000
    ∷ spec (codes "openai") (codes "gpt-4") 8192 30000 60000
    ∷ spec (codes "openai") (codes "o1") 200000 15000 60000
    ∷ spec (codes "openai") (codes "o1-mini") 128000 1100 4400
    ∷ spec (codes "openai") (codes "o3") 200000 2000 8000
    ∷ spec (codes "openai") (codes "o3-mini") 200000 1100 4400
    ∷ spec (codes "openai") (codes "o4-mini") 200000 1100 4400
    ∷ spec (codes "anthropic") (codes "claude-3-5-sonnet") 200000 3000 15000
    ∷ spec (codes "anthropic") (codes "claude-3-5-haiku") 200000 800 4000
    ∷ spec (codes "anthropic") (codes "claude-3-7-sonnet") 200000 3000 15000
    ∷ spec (codes "anthropic") (codes "claude-3-haiku") 200000 250 1250
    ∷ spec (codes "anthropic") (codes "claude-sonnet-4") 200000 3000 15000
    ∷ spec (codes "anthropic") (codes "claude-sonnet-4.5") 200000 3000 15000
    ∷ spec (codes "anthropic") (codes "claude-sonnet-4.6") 200000 3000 15000
    ∷ spec (codes "anthropic") (codes "claude-opus-4") 200000 15000 75000
    ∷ spec (codes "anthropic") (codes "claude-opus-4.5") 200000 5000 25000
    ∷ spec (codes "anthropic") (codes "claude-haiku-4.5") 200000 1000 5000
    ∷ spec (codes "google") (codes "gemini-1.5-pro") 1000000 1250 5000
    ∷ spec (codes "google") (codes "gemini-1.5-flash") 1000000 75 300
    ∷ spec (codes "google") (codes "gemini-2.0-flash") 1000000 100 400
    ∷ spec (codes "google") (codes "gemini-2.5-pro") 1000000 1250 10000
    ∷ []
