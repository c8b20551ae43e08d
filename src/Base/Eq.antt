-- ===== src/Base/Eq.antt =====
-- Boolean equality as an interface, membership tests, and the library's `filter` on Booleans.
use Prim.Native.Nat.{ℕ, ◌≤◌, ◌<◌}
use Prim.Native.String.{String}
use mathlib.Core.Path.{◌≡◌, refl}
use mathlib.Core.Logic.{◌≢◌, ◌↔◌, inl, inr}
use mathlib.Core.Bool.{Bool, true, false, not, ◌&&◌, ◌||◌}
use mathlib.Core.List.{List, [], ◌∷◌, ◌++◌}
use native.Mathlib.Omega.{arith}
use text.Mathlib.Text.{◌==◌ as str_eq}
use text.Mathlib.TextEquality.{eq_iff}
use agent_studio.Base.Tests.{◌==◌ as nat_beq, if◌then◌else◌, Bool-cases}
use agent_studio.Base.Lists.{All, length}

pub record Eq {ℓ} (A : Type ℓ) : Type ℓ where
  pub beq : A → A → Bool
  pub beq_iff : (a b : A) → (beq a b ≡ true) ↔ (a ≡ b)

pub nat_beq_iff : (a b : ℕ) → (nat_beq a b ≡ true) ↔ (a ≡ b)
nat_beq_iff a b = ground arith

instance abbrev pub nat_eq : Eq ℕ
nat_eq = record { beq = nat_beq; beq_iff = nat_beq_iff }

instance abbrev pub string_eq : Eq String
string_eq = record { beq = str_eq; beq_iff = eq_iff }

module _ {ℓ} {A : Type ℓ} ⦃e : Eq A⦄ where
  abbrev pub list_beq : List A → List A → Bool
  list_beq [] [] = true
  list_beq [] (y ∷ ys) = false
  list_beq (x ∷ xs) [] = false
  list_beq (x ∷ xs) (y ∷ ys) = e.beq x y && list_beq xs ys

  pub list_beq_iff : (xs ys : List A) → (list_beq xs ys ≡ true) ↔ (xs ≡ ys)
  list_beq_iff [] [] = ground arith
  list_beq_iff [] (y ∷ ys) = ground arith
  list_beq_iff (x ∷ xs) [] = ground arith
  list_beq_iff (x ∷ xs) (y ∷ ys) = ground (arith, e.beq_iff x y, list_beq_iff xs ys)

  pub list_beq_unequal : (xs ys : List A) → xs ≢ ys → list_beq xs ys ≡ false
  list_beq_unequal xs ys d = ground (arith, list_beq_iff xs ys, d)

  instance abbrev pub list_eq : Eq (List A)
  list_eq = record { beq = list_beq; beq_iff = list_beq_iff }

  -- `x in xs`
  unfoldable pub elem : A → List A → Bool
  elem x [] = false
  elem x (y ∷ ys) = e.beq y x || elem x ys

  pub elem-append : (x : A) (ys zs : List A) → elem x (ys ++ zs) ≡ (elem x ys || elem x zs)
  unfolding elem
  elem-append x [] zs = refl
  elem-append x (y ∷ ys) zs = ground (arith, elem-append x ys zs)

  -- Every element of the first list is in the second.
  abbrev pub Subset : List A → List A → Type ℓ
  Subset xs ys = (x : A) → elem x xs ≡ true → elem x ys ≡ true

  -- No element stands twice.
  abbrev pub Distinct : List A → Type 0
  Distinct [] = Unit
  Distinct (x ∷ xs) = (elem x xs ≡ false) × Distinct xs

module _ {ℓ κ} {A : Type ℓ} {B : Type κ} ⦃d : Eq A⦄ ⦃e : Eq B⦄ where
  abbrev pub pair_beq : A × B → A × B → Bool
  pair_beq (a, b) (a', b') = d.beq a a' && e.beq b b'

  pub pair_beq_iff : (p q : A × B) → (pair_beq p q ≡ true) ↔ (p ≡ q)
  pair_beq_iff (a, b) (a', b') = ground (arith, d.beq_iff a a', e.beq_iff b b')

  instance abbrev pub pair_eq : Eq (A × B)
  pair_eq = record { beq = pair_beq; beq_iff = pair_beq_iff }

module _ {ℓ} {A : Type ℓ} where
  -- `[x for x in xs if p(x)]`
  unfoldable pub filter_by : (A → Bool) → List A → List A
  filter_by p [] = []
  filter_by p (x ∷ xs) = let rest = filter_by p xs in if p x then x ∷ rest else rest

  -- `any(p(x) for x in xs)`
  unfoldable pub any_of : (A → Bool) → List A → Bool
  any_of p [] = false
  any_of p (x ∷ xs) = p x || any_of p xs

module _ {ℓ} {A : Type ℓ} ⦃e : Eq A⦄ where
  pub elem-filter_by :
      (p : A → Bool) (x : A) (xs : List A) → elem x (filter_by p xs) ≡ (elem x xs && p x)
  unfolding elem filter_by
  elem-filter_by p x [] = refl
  elem-filter_by p x (y ∷ ys) = ground (arith, e.beq_iff y x, elem-filter_by p x ys)

  -- `[x for x in xs if x not in seen]`
  unfoldable pub unseen : List A → List A → List A
  unfolding elem filter_by
  unseen seen xs = filter_by (λ x. not (elem x seen)) xs

  pub elem-unseen :
      (x : A) (seen xs : List A) → elem x (unseen seen xs) ≡ (elem x xs && not (elem x seen))
  unfolding unseen
  elem-unseen x seen xs = elem-filter_by (λ y. not (elem y seen)) x xs

  length-unseen_more :
      (x : A) (seen xs : List A) → length (unseen (x ∷ seen) xs) ≤ length (unseen seen xs)
  unfolding unseen elem filter_by
  length-unseen_more x seen [] = omega arith
  length-unseen_more x seen (y ∷ ys) = ground (arith, length-unseen_more x seen ys)

  -- Seeing one more of the elements leaves fewer.
  pub length-unseen_cons :
      (x : A) (seen xs : List A)
      → elem x xs ≡ true
      → elem x seen ≡ false
      → length (unseen (x ∷ seen) xs) < length (unseen seen xs)
  unfolding unseen elem filter_by
  length-unseen_cons x seen [] h n = cc
  length-unseen_cons x seen (y ∷ ys) h n = ground (
    arith,
    e.beq_iff y x,
    e.beq_iff x y,
    length-unseen_cons x seen ys,
    length-unseen_more x seen ys,
  )

module _ {ℓ} {A : Type ℓ} ⦃e : Eq A⦄ where
  pub elem-cons : (x y : A) (ys : List A) → elem x (y ∷ ys) ≡ (e.beq y x || elem x ys)
  unfolding elem
  elem-cons x y ys = refl

  pub elem-nil : (x : A) → elem x [] ≡ false
  unfolding elem
  elem-nil x = refl

  pub elem-cons_self : (x : A) (xs : List A) → elem x (x ∷ xs) ≡ true
  unfolding elem
  elem-cons_self x xs = rw ((e.beq_iff x x).1 refl)

  pub elem-cons_of : (x y : A) (ys : List A) → elem x ys ≡ true → elem x (y ∷ ys) ≡ true
  unfolding elem
  elem-cons_of x y ys h = ground arith

  pub length-pos_of_elem : (x : A) (xs : List A) → elem x xs ≡ true → 0 < length xs
  unfolding elem
  length-pos_of_elem x [] h = cc
  length-pos_of_elem x (y ∷ ys) h = omega arith

  pub length-unseen-le : (seen xs : List A) → length (unseen seen xs) ≤ length xs
  unfolding unseen filter_by
  length-unseen-le seen [] = omega arith
  length-unseen-le seen (y ∷ ys) = ground (arith, length-unseen-le seen ys)

  pub Distinct-snoc :
      (x : A) (ys : List A) → elem x ys ≡ false → Distinct ys → Distinct (ys ++ (x ∷ []))
  unfolding elem
  Distinct-snoc x [] h d = (refl, tt)
  Distinct-snoc x (y ∷ ys) h d = (
    ground (arith, elem-append y ys (x ∷ []), e.beq_iff x y, e.beq_iff y x),
    Distinct-snoc x ys (ground arith) d.1,
  )

  -- What holds of all holds of each, for a test.
  pub All-elem :
      (p : A → Bool) (x : A) (xs : List A)
      → All (λ y. p y ≡ true) xs
      → elem x xs ≡ true
      → p x ≡ true
  unfolding elem
  All-elem p x [] a h = cc
  All-elem p x (y ∷ ys) a h = ground (arith, e.beq_iff y x, All-elem p x ys a.1)

  -- `if x not in xs: xs.append(x)`
  unfoldable pub append_new : List A → A → List A
  unfolding elem
  append_new xs x = if elem x xs then xs else xs ++ (x ∷ [])

  pub append_new-Distinct : (xs : List A) (x : A) → Distinct xs → Distinct (append_new xs x)
  unfolding append_new
  append_new-Distinct xs x h = elim (Bool-cases (elem x xs)) [
    | inl p ↦ rw p h
    | inr p ↦ rw p (Distinct-snoc x xs p h)
  ]

  pub elem-append_new :
      (y x : A) (xs : List A) → elem y (append_new xs x) ≡ (elem y xs || e.beq x y)
  unfolding append_new
  elem-append_new y x xs = elim (Bool-cases (elem x xs)) [
    | inl p ↦ rw p (ground (arith, e.beq_iff x y))
    | inr p ↦ rw p (ground (arith, elem-append y xs (x ∷ []), elem-cons y x [], elem-nil y))
  ]

  pub append_new-each :
      (q : A → Bool) (xs : List A) (x : A)
      → q x ≡ true
      → ((y : A) → elem y xs ≡ true → q y ≡ true)
      → (y : A) → elem y (append_new xs x) ≡ true
      → q y ≡ true
  append_new-each q xs x h all y m = ground (arith, elem-append_new y x xs, all y, e.beq_iff x y)
