-- ===== src/Gateway/Chain/Universe.antt =====
-- The deployments that a fallback chain can come to hold the targets of every failure class.
use agent_studio.Base.{◌<◌, ◌≡◌, true, false, List, [], ◌∷◌, ◌++◌, arith, length}
use agent_studio.Base.Eq.{
  Eq, elem, unseen, Subset, elem-append, elem-unseen, elem-cons, length-pos_of_elem,
}
use agent_studio.Gateway.Chain.{FailureClass, general, content_policy, context_window, universe}

module _ {ℓ} {D : Type ℓ} ⦃e : Eq D⦄ where
  pub no_room :
      (seen us : List D) (d : D)
      → elem d seen ≡ false
      → elem d us ≡ true
      → 0 < length (unseen seen us)
  no_room seen us d new there =
      length-pos_of_elem d (unseen seen us) (rw elem-unseen (rw (new, there)))

  pub unseen-Subset : (seen ts us : List D) → Subset ts us → Subset (unseen seen ts) us
  unseen-Subset seen ts us h x p = h x (ground (arith, elem-unseen x seen ts))

  pub first_Subset : (first : D) (ds : List D) → Subset (first ∷ []) (first ∷ ds)
  unfolding elem
  first_Subset first ds x h = ground arith

module _ {ℓ} {D : Type ℓ} ⦃e : Eq D⦄ (targets : FailureClass → List D) where
  pub targets-Subset : (first : D) (c : FailureClass) → Subset (targets c) (universe targets first)
  targets-Subset first general x h = ground (
    arith,
    elem-cons x first (targets general ++ targets content_policy ++ targets context_window),
    elem-append x (targets general ++ targets content_policy) (targets context_window),
    elem-append x (targets general) (targets content_policy),
  )
  targets-Subset first c x h = ground (
    arith,
    elem-cons x first (targets general ++ targets content_policy ++ targets context_window),
    elem-append x (targets general ++ targets content_policy) (targets context_window),
    elem-append x (targets general) (targets content_policy),
  )
