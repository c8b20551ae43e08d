-- ===== src/Gateway/Quota/Tests.antt =====
-- The quota over a store that is a function, for a surface with little left.
use agent_studio.Base.{ℕ, ◌≡◌, refl, Bool, true, ◌&&◌, List, [], ◌∷◌, if◌then◌else◌}
use agent_studio.Base.Eq.{list_eq, nat_eq, list_beq}
use agent_studio.Base.Text.{Text, codes}
use agent_studio.Gateway.Quota.{
  HashStore, Field, reserved, field_beq, surface, levels, Limits, Payer, level_key, holds,
  over_budget, reserve, reserve_script,
}
use agent_studio.Gateway.Quota.Reserve.{first_over, Agrees, limited_keys}
use agent_studio.Gateway.Quota.Atomic.{reserve-Agrees}
use agent_studio.Gateway.Quota.Ledger.{History, History-Balanced, sum}

abbrev pub Store : Type 0
Store = Text → Field → ℕ

abbrev pub functions : HashStore Store
functions = record {
  hget = λ j g s. s j g;
  hset = λ k f n s j g. if list_beq k j && field_beq f g then n else s j g;
  hget-hset = λ k j f g n s. refl;
}

abbrev pub empty : Store
empty k f = 0

abbrev pub limits : Limits
limits = record { platform_usd = 0; tenant_usd = 1000; surface_usd = 100; end_user_usd = 0 }

abbrev pub payer : Payer
payer = record {
  prefix = codes "q:";
  tenant_id = codes "a";
  surface_id = codes "s";
  end_user_id = codes "u";
  window = codes "2026-01";
}

abbrev pub answers : ℕ → Bool
answers n = true

abbrev surface_key : Text
surface_key = codes "q:t:a:s:s:2026-01"

abbrev both_keys : List Text
both_keys = codes "q:t:a:2026-01" ∷ surface_key ∷ []

-- Four fifths of the surface's budget are in use, and there is no alert, since the reply of the script
-- is in whole dollars.
reserve_80 : (reserve functions true answers 80 limits payer 80 empty).1 ≡ holds both_keys []
unfolding reserve
reserve_80 = refl

too_much : (reserve functions true answers 80 limits payer 101 empty).1 ≡ over_budget surface 100 0
unfolding reserve
too_much = refl

-- The reply of a script is in whole dollars.
rounded_down : (reserve_script functions surface_key 0 1900000 empty).2 ≡ 1000000
unfolding reserve_script
rounded_down = refl

reserve-Agrees_example :
    Agrees functions limits
      (level_key payer)
      101
      empty
      (first_over functions limits (level_key payer) 101 empty levels)
      (limited_keys functions limits (level_key payer) 101 levels)
      (reserve functions true answers 80 limits payer 101 empty)
reserve-Agrees_example = reserve-Agrees functions answers 80 limits payer 101 empty (λ n. refl) refl

charged :
    History functions surface_key 100
      (reserve_script functions surface_key 100 60 empty).0
      (60 ∷ [])
      0
      0
unfolding reserve_script
charged = History.charge empty [] 0 0 60 (History.fresh empty refl refl) refl

History-Balanced_example :
    (reserve_script functions surface_key 100 60 empty).0 surface_key reserved ≡ 60
unfolding sum
History-Balanced_example = (History-Balanced functions surface_key 100 _ (60 ∷ []) 0 0 charged).0
