-- ===== src/Governance/Residency.antt =====
-- backend/app/governance/residency.py: the region of a tenant.
use agent_studio.Base.{
  ◌≡◌, refl, Bool, true, false, Option, none, some, inl, inr, List, [], ◌∷◌, ◌++◌, if◌then◌else◌,
  Bool-cases, ap, sym, subst, All, ◌∙◌,
}
use agent_studio.Base.Eq.{nat_eq, list_eq, list_beq, list_beq_iff, elem, All-elem}
use agent_studio.Base.Text.{Text, codes, strip, lower}

abbrev pub default_region : Text
default_region = codes "eu-west-1"

abbrev pub supported_regions : List Text
supported_regions =
    codes "eu-west-1" ∷ codes "us-east-1" ∷ codes "us-west-2" ∷ codes "ap-southeast-1" ∷ []

abbrev check_region : Text → Option Text
check_region r = if elem r supported_regions then some r else none

-- `none` is the `ValueError`
unfoldable pub resolve_region : Option Text → Option Text
unfolding elem strip lower
resolve_region none = some default_region
resolve_region (some region) = check_region (lower (strip region))

unfoldable pub archive_prefix : Text → Option Text → Option Text
unfolding resolve_region
archive_prefix tenant_id region = elim (resolve_region region) [
  | none ↦ none
  | some r ↦ some (codes "tenant/" ++ (tenant_id ++ (codes "/archive/" ++ (r ++ codes "/"))))
]

-- `deployment_shape` by the feature `dedicated_deployment`
unfoldable pub deployment_shape : Bool → Text
deployment_shape dedicated = if dedicated then codes "dedicated" else codes "shared"

some_inj : {x y : Text} → some x ≡ some y → x ≡ y
some_inj h = cc

resolves_to_itself : Text → Bool
unfolding resolve_region
resolves_to_itself r = elim (resolve_region (some r)) [ none ↦ false | some x ↦ list_beq x r ]

supported_resolve : All (λ r. resolves_to_itself r ≡ true) supported_regions
unfolding resolves_to_itself
supported_resolve = (refl, (refl, (refl, (refl, tt))))

itself :
    (r : Text) (o : Option Text)
    → (elim o [ none ↦ false | some x ↦ list_beq x r ]) ≡ true
    → o ≡ some r
itself r none h = absurd (cc)
itself r (some x) h = ap some ((list_beq_iff x r).0 h)

resolve_region_fixed : (r : Text) → resolves_to_itself r ≡ true → resolve_region (some r) ≡ some r
unfolding resolves_to_itself
resolve_region_fixed r h = itself r (resolve_region (some r)) h

checked : (x r : Text) → check_region x ≡ some r → elem r supported_regions ≡ true
checked x r h = elim (Bool-cases (elem x supported_regions)) [
  | inl p ↦ subst (λ y. elem y supported_regions ≡ true) (some_inj (rw p at h)) p
  | inr p ↦ absurd (cc (rw p at h))
]

resolved :
    (o : Option Text) (r : Text) → resolve_region o ≡ some r → elem r supported_regions ≡ true
unfolding resolve_region
resolved none r h = subst (λ y. elem y supported_regions ≡ true) (some_inj h) refl
resolved (some x) r h = checked (lower (strip x)) r h

-- A region that resolves is a supported one, and resolves to itself again, so the prefix of an
-- archive is the same for a region and for what it resolves to.
pub resolve_region-resolve_region :
    (o : Option Text) (r tenant : Text)
    → resolve_region o ≡ some r
    → (elem r supported_regions ≡ true)
      × (resolve_region (some r) ≡ some r)
      × (archive_prefix tenant (some r) ≡ archive_prefix tenant o)
unfolding archive_prefix
resolve_region-resolve_region o r tenant h =
    let m = resolved o r h in
    let again =
      resolve_region_fixed r
        (All-elem resolves_to_itself r supported_regions supported_resolve m) in
    (
      m,
      again,
      ap
          (λ x. elim x [
            | none ↦ none
            | some y ↦ some (codes "tenant/" ++ (tenant ++ (codes "/archive/" ++ (y ++ codes "/"))))
          ])
          (again ∙ sym h),
    )
