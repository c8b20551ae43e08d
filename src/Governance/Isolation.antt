-- ===== src/Governance/Isolation.antt =====
-- backend/app/governance/isolation.py: the names under which a tenant's data is kept.
use mathlib.Core.List.{append_assoc}
use agent_studio.Base.{
  ℕ, ◌≡◌, ◌≢◌, refl, ap, sym, ◌∙◌, false, Option, inl, inr, List, [], ◌∷◌, ◌++◌, arith, drop,
  if◌then◌else◌, Bool-cases,
}
use agent_studio.Base.Eq.{nat_eq, list_eq, elem, elem-cons}
use agent_studio.Base.Text.{Text, codes, nonempty}

pub record TenantContext : Type 0 where
  pub tenant_id : Text
  pub surface_id : Option Text
  pub end_user_id : Text

-- An empty `end_user_id` is an absent one.
unfoldable pub redis_prefix : TenantContext → Text
redis_prefix c =
    if nonempty c.end_user_id
    then codes "tenant:" ++ (c.tenant_id ++ (codes ":end_user:" ++ (c.end_user_id ++ codes ":")))
    else codes "tenant:" ++ (c.tenant_id ++ codes ":")

unfoldable pub vector_namespace : TenantContext → Text → Text
vector_namespace c kb_id =
    let base = codes "tenant_" ++ c.tenant_id in
    if nonempty kb_id then base ++ (codes "_kb_" ++ kb_id) else base

unfoldable pub storage_prefix : TenantContext → Text
storage_prefix c = codes "tenant/" ++ (c.tenant_id ++ codes "/")

-- `sep.join(parts)`
join : ℕ → List Text → Text
join sep [] = []
join sep (p ∷ []) = p
join sep (p ∷ q ∷ ps) = p ++ (sep ∷ join sep (q ∷ ps))

unfoldable pub redis_key : TenantContext → List Text → Text
unfolding redis_prefix join
redis_key c parts = redis_prefix c ++ join b':' parts

unfoldable pub storage_key : TenantContext → List Text → Text
unfolding storage_prefix join
storage_key c parts = storage_prefix c ++ join b'/' parts

first : Text → ℕ
first [] = 0
first (c ∷ s) = c

differs : (sep c : ℕ) (x : Text) → elem sep (c ∷ x) ≡ false → c ≢ sep
differs sep c x h = ground (arith, h, elem-cons sep c x)

rest_free : (sep c : ℕ) (x : Text) → elem sep (c ∷ x) ≡ false → elem sep x ≡ false
rest_free sep c x h = ground (arith, h, elem-cons sep c x)

-- Two texts without the separator that go on with it are equal if the whole texts are.
upto_separator :
    (sep : ℕ) (x y a b : Text)
    → elem sep x ≡ false
    → elem sep y ≡ false
    → x ++ (sep ∷ a) ≡ y ++ (sep ∷ b)
    → x ≡ y
unfolding first
upto_separator sep [] [] a b h k same = refl
upto_separator sep [] (c ∷ y) a b h k same = absurd (differs sep c y k (sym (ap first same)))
upto_separator sep (c ∷ x) [] a b h k same = absurd (differs sep c x h (ap first same))
upto_separator sep (c ∷ x) (d ∷ y) a b h k same =
    let tails =
      upto_separator sep x y a b (rest_free sep c x h) (rest_free sep d y k) (ap (drop 1) same) in
    cc (ap first same, tails)

redis_key_of :
    (c : TenantContext) (parts : List Text)
    → (rest : Text) × (redis_key c parts ≡ codes "tenant:" ++ (c.tenant_id ++ (b':' ∷ rest)))
unfolding redis_key
redis_key_of c parts = elim (Bool-cases (nonempty c.end_user_id)) [
  | inl p ↦ (
    (codes "end_user:" ++ (c.end_user_id ++ codes ":")) ++ join b':' parts,
    rw p (
        ap (λ x. codes "tenant:" ++ x)
          (append_assoc c.tenant_id (codes ":end_user:" ++ (c.end_user_id ++ codes ":"))
            (join b':' parts))),
  )
  | inr p ↦ (
    join b':' parts,
    rw p (ap (λ x. codes "tenant:" ++ x) (append_assoc c.tenant_id (codes ":") (join b':' parts))),
  )
]

storage_key_of :
    (c : TenantContext) (parts : List Text)
    → (rest : Text) × (storage_key c parts ≡ codes "tenant/" ++ (c.tenant_id ++ (b'/' ∷ rest)))
unfolding storage_key
storage_key_of c parts = (
  join b'/' parts,
  ap (λ x. codes "tenant/" ++ x) (append_assoc c.tenant_id (codes "/") (join b'/' parts)),
)

-- Keys of two tenants never coincide, whatever their parts and whoever the end user is: neither in
-- Redis, for tenant ids without a colon, nor in the object storage, for tenant ids without a slash.
pub key-tenant_id :
    (c d : TenantContext) (ps qs : List Text)
    → (elem b':' c.tenant_id ≡ false
        → elem b':' d.tenant_id ≡ false
        → redis_key c ps ≡ redis_key d qs
        → c.tenant_id ≡ d.tenant_id)
      × (elem b'/' c.tenant_id ≡ false
          → elem b'/' d.tenant_id ≡ false
          → storage_key c ps ≡ storage_key d qs
          → c.tenant_id ≡ d.tenant_id)
key-tenant_id c d ps qs =
    let (r1, k1) = redis_key_of c ps in
    let (r2, k2) = redis_key_of d qs in
    let (s1, m1) = storage_key_of c ps in
    let (s2, m2) = storage_key_of d qs in
    (
      λ a b same.
          upto_separator b':' c.tenant_id d.tenant_id r1 r2 a b (ap (drop 7) (sym k1 ∙ same ∙ k2)),
      λ a b same.
          upto_separator b'/' c.tenant_id d.tenant_id s1 s2 a b (ap (drop 7) (sym m1 ∙ same ∙ m2)),
    )
