-- ===== src/Gateway/Catalog/Facts.antt =====
-- What the catalog answers after a registration and after an update.
use agent_studio.Base.{ℕ, ◌+◌, ◌*◌, ◌≡◌, ◌≢◌, Option, some, arith, if◌then◌else◌}
use agent_studio.Base.Eq.{nat_eq, list_eq, list_beq, list_beq_iff}
use agent_studio.Base.Dict.{lookup-insert}
use agent_studio.Base.Text.{Text}
use agent_studio.Gateway.Catalog.{
  ModelSpec, Catalog, model_key, spec_key, register, get, context_window, estimate_cost, field_or,
  merged, upsert, default_context_window,
}

-- A lookup after a registration finds the new spec under every spelling of its name, and is what
-- it was before for every other model.
get-register :
    (s : ModelSpec) (c : Catalog) (provider model : Text)
    → get (register s c) provider model
      ≡ (if list_beq (spec_key s) (model_key provider model) then some s else get c provider model)
unfolding get register
get-register s c provider model = lookup-insert (spec_key s) (model_key provider model) s c

-- After an update the window and the cost of the model are those given; what was not given is what
-- the catalog said before, or the defaults; other models keep their window and their cost.
pub upsert_lem :
    (provider model : Text) (window input output : Option ℕ) (c : Catalog) (p m : Text) (i o : ℕ)
    → let old = get c provider model in
      let c' = (upsert provider model window input output c).1 in
      (model_key p m ≡ model_key provider model
        → (context_window c' p m
            ≡ field_or window old (λ s. s.context_window) default_context_window)
          × (estimate_cost c' p m i o
              ≡ some (
                  i * field_or input old (λ s. s.input_price_per_1k) 0
                  + o * field_or output old (λ s. s.output_price_per_1k) 0)))
      × (model_key p m ≢ model_key provider model
          → (context_window c' p m ≡ context_window c p m)
            × (estimate_cost c' p m i o ≡ estimate_cost c p m i o))
unfolding upsert context_window estimate_cost
upsert_lem provider model window input output c p m i o =
    let s = merged provider model window input output (get c provider model) in
    ground (
      arith,
      lookup-insert (spec_key s) (model_key p m) s c,
      list_beq_iff (model_key provider model) (model_key p m),
    )
