-- ===== src/Gateway/Quota/Keys.antt =====
-- The keys of the four levels of one payer are distinct.
use agent_studio.Base.{ℕ, ◌≡◌, ◌≢◌, refl, ap, [], ◌∷◌, ◌++◌, arith, length, drop, length-append}
use agent_studio.Base.Eq.{list_beq_unequal, list_eq, nat_eq}
use agent_studio.Base.Text.{Text, codes}
use agent_studio.Gateway.Quota.{
  Level, platform, tenant, surface, end_user, levels, Limits, Payer, level_key, HashStore,
}
use agent_studio.Gateway.Quota.Held.{held}
use agent_studio.Gateway.Quota.Reserve.{IsApart}

drop-length-append : (p x : Text) → drop (length p) (p ++ x) ≡ x
drop-length-append [] x = refl
drop-length-append (c ∷ p) x = drop-length-append p x

append_cancel : (p x y : Text) → p ++ x ≡ p ++ y → x ≡ y
append_cancel p x y h = cc (drop-length-append p x, drop-length-append p y, ap (drop (length p)) h)

head_of : Text → ℕ
head_of [] = 0
head_of (c ∷ x) = c

-- Two keys that go on with different characters are different.
fork : (p x y : Text) → head_of x ≢ head_of y → p ++ x ≢ p ++ y
fork p x y d h = d (ap head_of (append_cancel p x y h))

level_key_platform :
    (p : Payer) (rest : Text)
    → p.prefix ++ (codes "platform:" ++ p.window) ≢ p.prefix ++ (codes "t:" ++ rest)
unfolding head_of
level_key_platform p rest =
    fork p.prefix (codes "platform:" ++ p.window) (codes "t:" ++ rest) (omega arith)

longer : (w x : Text) (c d : ℕ) → w ≢ c ∷ d ∷ x ++ (codes ":" ++ w)
longer w x c d h = omega (arith, ap (length {A = ℕ}) h, length-append x (codes ":" ++ w))

level_key_tenant :
    (p : Payer) (c : ℕ) (x : Text)
    → level_key p tenant
      ≢ p.prefix
        ++ (codes "t:" ++ (p.tenant_id ++ (b':' ∷ c ∷ b':' ∷ x ++ (codes ":" ++ p.window))))
unfolding level_key
level_key_tenant p c x h =
    longer p.window x c b':'
      (ap (drop 1) (append_cancel p.tenant_id _ _ (ap (drop 2) (append_cancel p.prefix _ _ h))))

level_key_user : (p : Payer) → level_key p surface ≢ level_key p end_user
unfolding level_key head_of
level_key_user p h = omega (
  arith,
  ap (λ x. head_of (drop 1 x))
      (append_cancel p.tenant_id _ _ (ap (drop 2) (append_cancel p.prefix _ _ h))),
)

held_other : (est : ℕ) (j k : Text) → k ≢ j → held est j (k ∷ []) ≡ 0
unfolding held
held_other est j k d = rw (list_beq_unequal k j d) (omega arith)

held_none : (est : ℕ) (j : Text) → held est j [] ≡ 0
unfolding held
held_none est j = refl

platform_tenant : (p : Payer) → level_key p platform ≢ level_key p tenant
unfolding level_key
platform_tenant p = level_key_platform p _

platform_surface : (p : Payer) → level_key p platform ≢ level_key p surface
unfolding level_key
platform_surface p = level_key_platform p _

platform_user : (p : Payer) → level_key p platform ≢ level_key p end_user
unfolding level_key
platform_user p = level_key_platform p _

tenant_surface : (p : Payer) → level_key p tenant ≢ level_key p surface
tenant_surface p h = level_key_tenant p b's' p.surface_id (unfold level_key in h)

tenant_user : (p : Payer) → level_key p tenant ≢ level_key p end_user
tenant_user p h = level_key_tenant p b'u' p.end_user_id (unfold level_key in h)

module _ {S : Type 0} (redis : HashStore S) (limits : Limits) (p : Payer) (est : ℕ) where
  pub level_key-IsApart : IsApart redis limits (level_key p) est levels []
  level_key-IsApart =
      let free = λ (l : Level). held_none est (level_key p l) in
      let us = held_other est (level_key p end_user) (level_key p surface) (level_key_user p) in
      let ut = held_other est (level_key p end_user) (level_key p tenant) (tenant_user p) in
      let st = held_other est (level_key p surface) (level_key p tenant) (tenant_surface p) in
      let up = held_other est (level_key p end_user) (level_key p platform) (platform_user p) in
      let sp = held_other est (level_key p surface) (level_key p platform) (platform_surface p) in
      let tp = held_other est (level_key p tenant) (level_key p platform) (platform_tenant p) in
      (
        free platform,
        (
          free tenant,
          (free surface, (free end_user, tt, tt), (us, tt, tt)),
          (st, (ut, tt, tt), (us, tt, tt)),
        ),
        (tp, (sp, (up, tt, tt), (us, tt, tt)), (st, (ut, tt, tt), (us, tt, tt))),
      )
