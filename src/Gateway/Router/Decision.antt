-- ===== src/Gateway/Router/Decision.antt =====
-- The router decides for the best candidate that is available.
use agent_studio.Base.{
  ◌≡◌, refl, sym, ◌∙◌, ℕ, length, Bool, true, false, ◌&&◌, inl, inr, Option, none, some, List, [],
  ◌∷◌, arith, Bool-cases, Option-cases, All,
}
use agent_studio.Base.Eq.{
  Eq, nat_eq, list_eq, pair_eq, elem, elem-cons, elem-cons_self, elem-cons_of, elem-nil, append_new,
  elem-append_new, All-elem,
}
use agent_studio.Base.Text.{Text}
use agent_studio.Base.Sort.{IsSorted}
use agent_studio.Gateway.Router.{
  Deployment, Strategy, strategy_of, Request, GatewayCfg, Router, gathered, score, score_le,
  cheaper, candidates, first_available, head_or_fail, decide, RouteDecision, Reason, available,
  all_deployments_cooldown, preferred, append_all, split_deployment, with_default, with_cheap,
  default_fallback, tenant_fallback_candidates,
}
use agent_studio.Gateway.Router.Ranking.{
  is_scored, is_pinned, candidates-gathered, gathered_parts, tiered_list, untiered_list,
}

module _ {ℓ} {A : Type ℓ} ⦃e : Eq A⦄ (le : A → A → Bool) (up : A → Bool) where
  -- `d` is available, and at most any other available one of the list.
  abbrev IsBest : List A → A → Type ℓ
  IsBest ds d =
      (up d ≡ true)
      × (elem d ds ≡ true)
      × ((x : A) → elem x ds ≡ true → up x ≡ true → le d x ≡ true)

  least :
      (refl_le : (x : A) → le x x ≡ true) (y : A) (ys : List A)
      → All (λ z. le y z ≡ true) ys
      → (x : A) → elem x (y ∷ ys) ≡ true
      → le y x ≡ true
  least refl_le y ys a x m =
      ground (arith, All-elem (le y) x ys a, refl_le y, e.beq_iff y x, elem-cons x y ys)

  first_available-IsBest :
      (refl_le : (x : A) → le x x ≡ true) (ds : List A) (d : A)
      → IsSorted le ds
      → first_available up ds ≡ some d
      → IsBest ds d
  unfolding first_available
  first_available-IsBest refl_le [] d s h = absurd (cc)
  first_available-IsBest refl_le (y ∷ ys) d s h = elim (Bool-cases (up y)) [
    | inl p ↦
        let q : y ≡ d = ground arith in
        rw (← q) (p, elem-cons_self y ys, λ x m u. least refl_le y ys s.0 x m)
    | inr p ↦
        let (a, b, c) = first_available-IsBest refl_le ys d s.1 (ground arith) in
        (a, elem-cons_of d y ys b, λ x m u. ground (arith, c x, e.beq_iff y x, elem-cons x y ys))
  ]

  none_available :
      (ds : List A) (x : A) → first_available up ds ≡ none → elem x ds ≡ true → up x ≡ false
  unfolding first_available
  none_available [] x h m = absurd (cc (elem-nil x))
  none_available (y ∷ ys) x h m =
      ground (arith, none_available ys x, e.beq_iff y x, elem-cons x y ys)

appended :
    (x d : Deployment) (ds : List Deployment) → elem x ds ≡ true → elem x (append_new ds d) ≡ true
appended x d ds h = ground (arith, elem-append_new x d ds)

elem-append_all :
    (x : Deployment) (ds : List Deployment) (ts : List Text)
    → elem x ds ≡ true
    → elem x (append_all ds ts) ≡ true
unfolding append_all
elem-append_all x ds [] h = h
elem-append_all x ds (t ∷ ts) h =
    elem-append_all x (append_new ds (split_deployment t)) ts (appended x (split_deployment t) ds h)

elem-with_default :
    (x : Deployment) (q : Request) (ds : List Deployment)
    → elem x ds ≡ true
    → elem x (with_default q ds) ≡ true
unfolding with_default
elem-with_default x q ds h = elim (Option-cases (default_fallback q.provider)) [
  | inl p ↦ rw (p, with_default) h
  | inr (m, p) ↦ rw (p, with_default) (appended x (q.provider, m) ds h)
]

elem-with_cheap :
    (r : Router) (q : Request) (cfg : GatewayCfg)
    → elem (preferred r q) (with_cheap r q cfg (preferred r q ∷ [])) ≡ true
elem-with_cheap r q cfg = elim (Bool-cases (q.tiered && q.simple_query)) [
  | inl h ↦ rw (tiered_list r q cfg h) (elem-cons_self (preferred r q) _)
  | inr h ↦ rw (untiered_list r q cfg h) (elem-cons_self (preferred r q) [])
]

-- The preferred deployment is always a candidate.
elem-gathered :
    (r : Router) (q : Request) (cfg : GatewayCfg) → elem (preferred r q) (gathered r q cfg) ≡ true
elem-gathered r q cfg = rw gathered_parts (
    elem-with_default _ q _
      (elem-append_all _ _ (tenant_fallback_candidates cfg) (elem-with_cheap r q cfg)))

-- What the decision says, by its reason.
abbrev pub Decides :
    (Deployment → Deployment → Bool)
    → (Deployment → Bool)
    → List Deployment
    → RouteDecision
    → Reason
    → Type 0
Decides le up ds dec available = IsBest le up ds dec.deployment
Decides le up ds dec all_deployments_cooldown =
    (elem dec.deployment ds ≡ true) × ((x : Deployment) → elem x ds ≡ true → up x ≡ false)

abbrev decision : Deployment → Strategy → List Deployment → Reason → RouteDecision
decision d s ds reason = record {
  deployment = d;
  strategy = s;
  candidates_considered = length ds;
  reason = reason;
}

head_or_fail_cases :
    (up : Deployment → Bool) (s : Strategy) (d : Deployment) (ds : List Deployment)
    (found : Option Deployment)
    → first_available up (d ∷ ds) ≡ found
    → head_or_fail up s (d ∷ ds)
      ≡ some (elim found [
        | none ↦ decision d s (d ∷ ds) all_deployments_cooldown
        | some b ↦ decision b s (d ∷ ds) available
      ])
unfolding head_or_fail
head_or_fail_cases up s d ds none h = ground arith
head_or_fail_cases up s d ds (some b) h = ground arith

head_or_fail-Decides :
    (le : Deployment → Deployment → Bool) (up : Deployment → Bool) (s : Strategy)
    (refl_le : (x : Deployment) → le x x ≡ true) (ds : List Deployment) (x : Deployment)
    → IsSorted le ds
    → elem x ds ≡ true
    → (dec : RouteDecision) × (head_or_fail up s ds ≡ some dec) × Decides le up ds dec dec.reason
head_or_fail-Decides le up s refl_le [] x sorted m = absurd (cc (elem-nil x))
head_or_fail-Decides le up s refl_le (d ∷ ds) x sorted m =
    elim (Option-cases (first_available up (d ∷ ds))) [
      | inl h ↦ (
        decision d s (d ∷ ds) all_deployments_cooldown,
        head_or_fail_cases up s d ds none h,
        (elem-cons_self d ds, λ y. none_available le up (d ∷ ds) y h),
      )
      | inr (b, h) ↦ (
        decision b s (d ∷ ds) available,
        head_or_fail_cases up s d ds (some b) h,
        first_available-IsBest le up refl_le (d ∷ ds) b sorted h,
      )
    ]

cheaper_refl : (s : Strategy) (r : Router) (q : Request) (x : Deployment) → cheaper s r q x x ≡ true
cheaper_refl s r q x = score_le_refl (score s r q x)
  where
    score_le_refl : (a : Option ℕ) → score_le a a ≡ true
    score_le_refl a = ground arith

decide-head :
    (r : Router) (q : Request) (up : Deployment → Bool) (cfg : GatewayCfg)
    → decide r q up cfg ≡ head_or_fail up (strategy_of q.strategy) (candidates r q cfg)
unfolding decide
decide-head r q up cfg = refl

Decides-same :
    (le : Deployment → Deployment → Bool) (up : Deployment → Bool) (ds es : List Deployment)
    (dec : RouteDecision) (reason : Reason)
    → ((x : Deployment) → elem x ds ≡ elem x es)
    → Decides le up ds dec reason
    → Decides le up es dec reason
Decides-same le up ds es dec available same (a, b, c) =
    (a, sym (same dec.deployment) ∙ b, λ x m u. c x (same x ∙ m) u)
Decides-same le up ds es dec all_deployments_cooldown same (a, b) =
    (sym (same dec.deployment) ∙ a, λ x m. b x (same x ∙ m))

-- Under the cost and the latency strategy, without a pin, the router always decides, for one of
-- the gathered deployments. For the reason `available` the deployment is available, and no other
-- available one has a smaller score; for the other reason no deployment gathered is available.
pub decide-best :
    (r : Router) (q : Request) (up : Deployment → Bool) (cfg : GatewayCfg)
    → is_pinned q ≡ false
    → is_scored (strategy_of q.strategy) ≡ true
    → (dec : RouteDecision) × (decide r q up cfg ≡ some dec)
      × Decides (cheaper (strategy_of q.strategy) r q) up (gathered r q cfg) dec dec.reason
decide-best r q up cfg unpinned scored =
    let s = strategy_of q.strategy in
    let (same, _, sorted, _) = candidates-gathered r q cfg unpinned in
    let (dec, found, says) =
      head_or_fail-Decides (cheaper s r q) up s (cheaper_refl s r q) (candidates r q cfg)
        (preferred r q) (sorted scored) (same (preferred r q) ∙ elem-gathered r q cfg) in
    (
      dec,
      decide-head r q up cfg ∙ found,
      Decides-same (cheaper s r q) up _ _ dec dec.reason same says,
    )
