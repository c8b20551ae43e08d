-- ===== src/Gateway/Router/Ranking.antt =====
-- Which deployments the router considers, and in which order.
use agent_studio.Base.{
  ℕ, ◌≡◌, refl, Bool, true, false, ◌&&◌, inl, inr, Option, List, [], ◌∷◌, ◌++◌, ◌∙◌, ap, sym,
  append_assoc, append-nil, arith, length, ltb, if◌then◌else◌, Bool-cases, Option-cases,
}
use agent_studio.Base.Eq.{nat_eq, list_eq, pair_eq, elem, Distinct, append_new, append_new-Distinct}
use agent_studio.Base.Text.{Text, nonempty}
use agent_studio.Base.Sort.{
  sort_by, IsSorted, IsTotal, sort_by-IsSorted, elem-sort_by, length-sort_by,
}
use agent_studio.Gateway.Router.{
  Deployment, Strategy, cost, latency, quality, pinned, strategy_of, Request, GatewayCfg, or_text,
  split_deployment, append_all, Router, cheap_deployment, preferred, with_cheap, with_default,
  gathered, score, score_le, cheaper, rank, candidates, tenant_fallback_candidates,
  default_fallback,
}

score_le_total : (a b : Option ℕ) → score_le a b ≡ false → score_le b a ≡ true
score_le_total a b h = ground arith

score_le_trans :
    (a b c : Option ℕ) → score_le a b ≡ true → score_le b c ≡ true → score_le a c ≡ true
score_le_trans a b c h k = ground arith

cheaper-IsTotal : (s : Strategy) (r : Router) (q : Request) → IsTotal (cheaper s r q)
cheaper-IsTotal s r q = record {
  total = λ x y. score_le_total (score s r q x) (score s r q y);
  trans = λ x y z. score_le_trans (score s r q x) (score s r q y) (score s r q z);
}

-- The strategies that rank by a score.
abbrev pub is_scored : Strategy → Bool
is_scored cost = true
is_scored latency = true
is_scored _ = false

sort_if_long :
    (le : Deployment → Deployment → Bool) (ds : List Deployment)
    → (if ltb 1 (length ds) then sort_by le ds else ds) ≡ sort_by le ds
unfolding sort_by
sort_if_long le [] = refl
sort_if_long le (d ∷ []) = refl
sort_if_long le (d ∷ d' ∷ ds) = ground arith

rank-sort_by :
    (s : Strategy) (r : Router) (q : Request) (ds : List Deployment)
    → is_scored s ≡ true
    → rank s r q ds ≡ sort_by (cheaper s r q) ds
unfolding rank
rank-sort_by cost r q ds h = sort_if_long (cheaper cost r q) ds
rank-sort_by latency r q ds h = sort_if_long (cheaper latency r q) ds
rank-sort_by quality r q ds h = absurd (cc)
rank-sort_by pinned r q ds h = absurd (cc)

abbrev pub is_pinned : Request → Bool
is_pinned q = nonempty (or_text q.pinned_to [])

rank_unscored :
    (s : Strategy) (r : Router) (q : Request) (ds : List Deployment)
    → is_scored s ≡ false
    → rank s r q ds ≡ ds
unfolding rank
rank_unscored cost r q ds h = absurd (cc)
rank_unscored latency r q ds h = absurd (cc)
rank_unscored quality r q ds h = refl
rank_unscored pinned r q ds h = refl

candidates-rank :
    (r : Router) (q : Request) (cfg : GatewayCfg)
    → is_pinned q ≡ false
    → candidates r q cfg ≡ rank (strategy_of q.strategy) r q (gathered r q cfg)
unfolding candidates
candidates-rank r q cfg h = rw h refl

elem-rank :
    (s : Strategy) (r : Router) (q : Request) (ds : List Deployment)
    → ((d : Deployment) → elem d (rank s r q ds) ≡ elem d ds) × (length (rank s r q ds) ≡ length ds)
elem-rank s r q ds = elim (Bool-cases (is_scored s)) [
  | inl h ↦
      rw (rank-sort_by s r q ds h)
        (λ d. elem-sort_by (cheaper s r q) d ds, length-sort_by (cheaper s r q) ds)
  | inr h ↦ rw (rank_unscored s r q ds h) (λ d. refl, refl)
]

-- Without a pin, ranking only reorders: the candidates are the gathered deployments, as many of
-- them, and sorted by score when the strategy is cost or latency, in the order gathered else.
pub candidates-gathered :
    (r : Router) (q : Request) (cfg : GatewayCfg)
    → is_pinned q ≡ false
    → ((d : Deployment) → elem d (candidates r q cfg) ≡ elem d (gathered r q cfg))
      × (length (candidates r q cfg) ≡ length (gathered r q cfg))
      × (is_scored (strategy_of q.strategy) ≡ true
          → IsSorted (cheaper (strategy_of q.strategy) r q) (candidates r q cfg))
      × (is_scored (strategy_of q.strategy) ≡ false → candidates r q cfg ≡ gathered r q cfg)
candidates-gathered r q cfg h =
    let s = strategy_of q.strategy in
    let ds = gathered r q cfg in
    let (same, as_many) = elem-rank s r q ds in
    rw (candidates-rank r q cfg h) (
      same,
      as_many,
      λ p.
          rw (rank-sort_by s r q ds p)
            (sort_by-IsSorted (cheaper s r q) (cheaper-IsTotal s r q) ds),
      rank_unscored s r q ds,
    )

append_all-Distinct :
    (ds : List Deployment) (ts : List Text) → Distinct ds → Distinct (append_all ds ts)
unfolding append_all
append_all-Distinct ds [] h = h
append_all-Distinct ds (t ∷ ts) h =
    append_all-Distinct (append_new ds (split_deployment t)) ts
      (append_new-Distinct ds (split_deployment t) h)

with_default-Distinct :
    (q : Request) (ds : List Deployment) → Distinct ds → Distinct (with_default q ds)
unfolding with_default
with_default-Distinct q ds h = elim (Option-cases (default_fallback q.provider)) [
  | inl p ↦ rw (p, with_default) h
  | inr (m, p) ↦ rw (p, with_default) (append_new-Distinct ds (q.provider, m) h)
]

pub gathered_parts :
    (r : Router) (q : Request) (cfg : GatewayCfg)
    → gathered r q cfg
      ≡ with_default q
          (append_all (with_cheap r q cfg (preferred r q ∷ [])) (tenant_fallback_candidates cfg))
unfolding gathered
gathered_parts r q cfg = refl

pub untiered_list :
    (r : Router) (q : Request) (cfg : GatewayCfg)
    → (q.tiered && q.simple_query) ≡ false
    → with_cheap r q cfg (preferred r q ∷ []) ≡ preferred r q ∷ []
unfolding with_cheap
untiered_list r q cfg h = rw h refl

untiered-Distinct :
    (r : Router) (q : Request) (cfg : GatewayCfg)
    → (q.tiered && q.simple_query) ≡ false
    → Distinct (gathered r q cfg)
unfolding with_cheap elem
untiered-Distinct r q cfg h = rw gathered_parts (
    with_default-Distinct q _
      (append_all-Distinct _ (tenant_fallback_candidates cfg) (rw h (refl, tt))))

pub tiered_list :
    (r : Router) (q : Request) (cfg : GatewayCfg)
    → (q.tiered && q.simple_query) ≡ true
    → with_cheap r q cfg (preferred r q ∷ []) ≡ preferred r q ∷ cheap_deployment r q cfg ∷ []
unfolding with_cheap
tiered_list r q cfg h = rw h refl

-- What starts with some deployments.
abbrev pub StartsWith : List Deployment → List Deployment → Type 0
StartsWith ds all = (rest : List Deployment) × (all ≡ ds ++ rest)

append_new-StartsWith : (ds : List Deployment) (d : Deployment) → StartsWith ds (append_new ds d)
unfolding append_new
append_new-StartsWith ds d = elim (Bool-cases (elem d ds)) [
  | inl p ↦ rw p ([], sym (append-nil ds))
  | inr p ↦ rw p (d ∷ [], refl)
]

StartsWith-trans :
    (ds es fs : List Deployment) → StartsWith ds es → StartsWith es fs → StartsWith ds fs
StartsWith-trans ds es fs (r, p) (q, h) = (r ++ q, h ∙ ap (λ xs. xs ++ q) p ∙ append_assoc ds r q)

append_all-StartsWith : (ds : List Deployment) (ts : List Text) → StartsWith ds (append_all ds ts)
unfolding append_all
append_all-StartsWith ds [] = ([], sym (append-nil ds))
append_all-StartsWith ds (t ∷ ts) =
    StartsWith-trans ds (append_new ds (split_deployment t)) _
      (append_new-StartsWith ds (split_deployment t))
      (append_all-StartsWith (append_new ds (split_deployment t)) ts)

with_default-StartsWith : (q : Request) (ds : List Deployment) → StartsWith ds (with_default q ds)
unfolding with_default
with_default-StartsWith q ds = elim (Option-cases (default_fallback q.provider)) [
  | inl p ↦ rw (p, with_default) ([], sym (append-nil ds))
  | inr (m, p) ↦ rw (p, with_default) (append_new-StartsWith ds (q.provider, m))
]

gathered-StartsWith :
    (r : Router) (q : Request) (cfg : GatewayCfg)
    → StartsWith (with_cheap r q cfg (preferred r q ∷ [])) (gathered r q cfg)
gathered-StartsWith r q cfg =
    let ds = with_cheap r q cfg (preferred r q ∷ []) in
    rw gathered_parts (
      StartsWith-trans ds (append_all ds (tenant_fallback_candidates cfg)) _
        (append_all-StartsWith ds (tenant_fallback_candidates cfg)) (with_default-StartsWith q _))

-- The gathered candidates begin with the preferred deployment, and are deduplicated unless the
-- request is served by tiers. Then the cheap deployment comes second, also if it is the preferred
-- one, which the candidates then hold twice.
pub gathered-Distinct :
    (r : Router) (q : Request) (cfg : GatewayCfg)
    → ((q.tiered && q.simple_query) ≡ false
        → StartsWith (preferred r q ∷ []) (gathered r q cfg) × Distinct (gathered r q cfg))
      × ((q.tiered && q.simple_query) ≡ true
          → StartsWith (preferred r q ∷ cheap_deployment r q cfg ∷ []) (gathered r q cfg)
            × (cheap_deployment r q cfg ≡ preferred r q
                → StartsWith (preferred r q ∷ preferred r q ∷ []) (gathered r q cfg)))
gathered-Distinct r q cfg = (
  λ h. (rw (untiered_list r q cfg h) at (gathered-StartsWith r q cfg), untiered-Distinct r q cfg h),
  λ h.
      let s = rw (tiered_list r q cfg h) at (gathered-StartsWith r q cfg) in
      (s, λ same. rw same at s),
)
