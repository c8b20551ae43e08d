-- ===== src/Gateway/Fallback/Targets.antt =====
-- Which deployments the fallback chain of a failure class consists of.
use agent_studio.Base.{
  ℕ, zero, suc, ◌+◌, ◌≤◌, ◌≡◌, ◌≢◌, refl, ap, subst, Bool, true, false, not, ◌||◌, inl, inr, Option,
  none, some, List, [], ◌∷◌, ◌++◌, arith, length, if◌then◌else◌, Bool-cases, length-append, leb,
}
use agent_studio.Base.Eq.{
  Eq, nat_eq, list_eq, pair_eq, list_beq, list_beq_iff, elem, elem-append, elem-cons, elem-nil,
  elem-cons_self, Distinct, Distinct-snoc, append_new, append_new-Distinct, append_new-each, any_of,
  elem-cons_of, elem-append_new,
}
use agent_studio.Base.Text.{Text, codes, strip, lower, split_once}
use agent_studio.Base.Sort.{sort_by}
use agent_studio.Gateway.Catalog.{ModelSpec, list_all}
use agent_studio.Gateway.Chain.{FailureClass}
use agent_studio.Gateway.Router.{Deployment, tenant_fallback_candidates}
use agent_studio.Gateway.Fallback.{
  FallbackChain, cross_families, add_candidates, add_entry, entry_of, entry_at, add_entries,
  add_family, add_families, cross_family, take_new, spec_deployments, large_window, dedupe_onto,
  tail_at, targets,
}

-- A family never falls back to itself.
elem-cross_families : (p : Text) → elem p (cross_families p) ≡ false
unfolding cross_families elem
elem-cross_families p = elim (Bool-cases (list_beq p (codes "openai"))) [
  | inl h ↦ rw ((list_beq_iff p (codes "openai")).0 h) refl
  | inr h ↦ rw h (elim (Bool-cases (list_beq p (codes "anthropic"))) [
    | inl h ↦ rw ((list_beq_iff p (codes "anthropic")).0 h) refl
    | inr h ↦ rw h (elim (Bool-cases (list_beq p (codes "google"))) [
      | inl h ↦ rw ((list_beq_iff p (codes "google")).0 h) refl
      | inr h ↦ rw h (elim (Bool-cases (list_beq p (codes "azure"))) [
        | inl h ↦ rw ((list_beq_iff p (codes "azure")).0 h) refl
        | inr h ↦ rw h (elim (Bool-cases (list_beq p (codes "custom"))) [
          | inl h ↦ rw ((list_beq_iff p (codes "custom")).0 h) refl
          | inr h ↦ rw h refl
        ])
      ])
    ])
  ])
]

-- The invariant of the list that `_cross_family` builds.
abbrev IsOf : List Text → List Deployment → Type 0
IsOf ps ds = Distinct ds × ((x : Deployment) → elem x ds ≡ true → elem x.0 ps ≡ true)

append_new-IsOf :
    (ps : List Text) (ds : List Deployment) (d : Deployment)
    → elem d.0 ps ≡ true
    → IsOf ps ds
    → IsOf ps (append_new ds d)
append_new-IsOf ps ds d m (a, b) =
    (append_new-Distinct ds d a, append_new-each (λ x. elem x.0 ps) ds d m b)

add_candidates-IsOf :
    (ps : List Text) (p : Text) (cs ds : List Deployment)
    → elem p ps ≡ true
    → IsOf ps ds
    → IsOf ps (add_candidates p cs ds)
unfolding add_candidates
add_candidates-IsOf ps p [] ds m h = h
add_candidates-IsOf ps p (c ∷ cs) ds m h = elim (Bool-cases (list_beq c.0 p)) [
  | inl q ↦ rw q (
      add_candidates-IsOf ps p cs (append_new ds c) m
        (append_new-IsOf ps ds c (rw ((list_beq_iff c.0 p).0 q) m) h))
  | inr q ↦ rw q (add_candidates-IsOf ps p cs ds m h)
]

if_some :
    (b : Bool) (x d : Deployment) → (if b then some x else none) ≡ some d → (b ≡ true) × (x ≡ d)
if_some b x d h = ground arith

entry_at-provider :
    (p : Text) (o : Option (Text × Text)) (d : Deployment)
    → entry_at p o ≡ some d
    → list_beq d.0 p ≡ true
unfolding entry_at
entry_at-provider p none d h = absurd (cc)
entry_at-provider p (some (a, m)) d h =
    let (q, same) = if_some (list_beq (lower (strip a)) p) (lower (strip a), strip m) d h in
    subst (λ (x : Deployment). list_beq x.0 p ≡ true) same q

add_entry-IsOf :
    (ps : List Text) (p : Text) (o : Option Deployment) (ds : List Deployment)
    → elem p ps ≡ true
    → ((d : Deployment) → o ≡ some d → list_beq d.0 p ≡ true)
    → IsOf ps ds
    → IsOf ps (add_entry o ds)
unfolding add_entry
add_entry-IsOf ps p none ds m k h = h
add_entry-IsOf ps p (some d) ds m k h =
    append_new-IsOf ps ds d (rw ((list_beq_iff d.0 p).0 (k d refl)) m) h

add_entries-IsOf :
    (ps : List Text) (p : Text) (ts : List Text) (ds : List Deployment)
    → elem p ps ≡ true
    → IsOf ps ds
    → IsOf ps (add_entries p ts ds)
unfolding add_entries
add_entries-IsOf ps p [] ds m h = h
add_entries-IsOf ps p (t ∷ ts) ds m h = add_entries-IsOf ps p ts (add_entry (entry_of p t) ds) m (
    add_entry-IsOf ps p (entry_of p t) ds m
      (unfold entry_of in entry_at-provider p (split_once b':' t)) h)

add_family-IsOf :
    (ps : List Text) (f : FallbackChain) (p : Text) (ds : List Deployment)
    → elem p ps ≡ true
    → IsOf ps ds
    → IsOf ps (add_family f p ds)
unfolding add_family
add_family-IsOf ps f p ds m h =
    elim (Bool-cases
      (any_of (λ (c : Deployment). list_beq c.0 p) (add_candidates p f.candidates ds))) [
        | inl q ↦ rw q (add_candidates-IsOf ps p f.candidates ds m h)
        | inr q ↦ rw q (
            add_entries-IsOf ps p (tenant_fallback_candidates f.cfg)
              (add_candidates p f.candidates ds) m (add_candidates-IsOf ps p f.candidates ds m h))
      ]

add_families-IsOf :
    (all ps : List Text) (f : FallbackChain) (ds : List Deployment)
    → ((p : Text) → elem p ps ≡ true → elem p all ≡ true)
    → IsOf all ds
    → IsOf all (add_families f ps ds)
unfolding add_families
add_families-IsOf all [] f ds sub h = h
add_families-IsOf all (p ∷ ps) f ds sub h =
    add_families-IsOf all ps f (add_family f p ds) (λ x m. sub x (elem-cons_of x p ps m))
      (add_family-IsOf all f p ds (sub p (elem-cons_self p ps)) h)

-- The extra targets of a refusal are distinct, and each belongs to a family that the provider of
-- the request may fall back to, which is never that provider itself.
pub cross_family-other :
    (f : FallbackChain)
    → Distinct (cross_family f)
      × ((d : Deployment)
          → elem d (cross_family f) ≡ true
          → (elem d.0 (cross_families f.request.provider) ≡ true) × (d.0 ≢ f.request.provider))
cross_family-other f =
    let ps = cross_families f.request.provider in
    let (a, b) : IsOf ps (cross_family f) =
      unfold cross_family in
      add_families-IsOf ps ps f [] (λ p m. m) (tt, λ x m. absurd (cc (elem-nil x, m))) in
    (
      a,
      λ d m. (
        b d m,
        λ same. cc (b d m, elem-cross_families f.request.provider, ap (λ p. elem p ps) same),
      ),
    )

module _ {ℓ} {A : Type ℓ} ⦃e : Eq A⦄ where
  record IsPick (seen : List A) (left : ℕ) (old new : List A) : Type ℓ where
    pub few : length new ≤ length old + left
    pub apart : Distinct new
    pub fresh : (d : A) → elem d new ≡ true → (elem d old || not (elem d seen)) ≡ true

  take_more :
      (seen : List A) (left : ℕ) (c : A) (old new : List A)
      → (elem c seen || elem c old) ≡ false
      → IsPick seen left (old ++ (c ∷ [])) new
      → IsPick seen (suc left) old new
  take_more seen left c old new q h = record {
    few = omega (arith, h.few, length-append old (c ∷ []));
    apart = h.apart;
    fresh = λ d m. ground (
      arith,
      h.fresh d m,
      elem-append d old (c ∷ []),
      elem-cons d c [],
      elem-nil d,
      e.beq_iff c d,
    );
  }

  take_new-IsPick :
      (seen : List A) (left : ℕ) (cs old : List A)
      → Distinct old
      → IsPick seen left old (take_new left seen cs old)
  unfolding take_new
  take_new-IsPick seen zero cs old h = record {
    few = omega arith;
    apart = h;
    fresh = λ d m. ground arith;
  }
  take_new-IsPick seen (suc left) [] old h = record {
    few = omega arith;
    apart = h;
    fresh = λ d m. ground arith;
  }
  take_new-IsPick seen (suc left) (c ∷ cs) old h = elim (Bool-cases (elem c seen || elem c old)) [
    | inl q ↦ rw q (take_new-IsPick seen (suc left) cs old h)
    | inr q ↦ rw q (
        take_more seen left c old _ q
          (take_new-IsPick seen left cs (old ++ (c ∷ [])) (Distinct-snoc c old (ground arith) h)))
  ]

-- The extra targets of a context overflow are at most two, distinct, and none of them is a
-- candidate, so that the overflow is not sent to the same deployment again.
pub large_window-fresh :
    (f : FallbackChain)
    → (length (large_window f) ≤ 2)
      × Distinct (large_window f)
      × ((d : Deployment) → elem d (large_window f) ≡ true → elem d f.candidates ≡ false)
unfolding large_window
large_window-fresh f =
    let h =
      take_new-IsPick f.candidates 2
        (spec_deployments (
          sort_by (λ (s t : ModelSpec). leb t.context_window s.context_window)
            (list_all f.catalog)))
        [] tt in
    (h.few, h.apart, λ d m. ground (arith, h.fresh d m, elem-nil d))

dedupe_onto_lem :
    (xs cs : List Deployment)
    → Distinct xs
    → Distinct (dedupe_onto xs cs)
      × ((d : Deployment) → elem d (dedupe_onto xs cs) ≡ (elem d xs || elem d cs))
unfolding dedupe_onto
dedupe_onto_lem xs [] h = (h, λ d. ground (arith, elem-nil d))
dedupe_onto_lem xs (c ∷ cs) h =
    let (a, b) = dedupe_onto_lem (append_new xs c) cs (append_new-Distinct xs c h) in
    (a, λ d. ground (arith, b d, elem-append_new d c xs, elem-cons d c cs))

-- For every failure class the targets begin with the candidates, each once, and go on with the
-- extra targets of the class.
pub targets-candidates :
    (f : FallbackChain) (c : FailureClass)
    → (head : List Deployment) × (targets f c ≡ head ++ tail_at f c)
      × Distinct head
      × ((d : Deployment) → elem d head ≡ elem d f.candidates)
unfolding targets
targets-candidates f c =
    let (a, b) = dedupe_onto_lem [] f.candidates tt in
    (dedupe_onto [] f.candidates, refl, a, λ d. ground (arith, b d, elem-nil d))
