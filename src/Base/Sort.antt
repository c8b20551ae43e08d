-- ===== src/Base/Sort.antt =====
-- Python's `sorted` with a key: a stable sort, as insertion into a sorted list.
use mathlib.Core.Path.{◌≡◌, refl}
use mathlib.Core.Bool.{Bool, true, false, ◌||◌}
use mathlib.Core.List.{List, [], ◌∷◌}
use mathlib.Core.Logic.{inl, inr}
use native.Mathlib.Omega.{arith}
use Prim.Native.Nat.{suc}
use agent_studio.Base.Tests.{if◌then◌else◌, Bool-cases}
use agent_studio.Base.Lists.{length, All}
use agent_studio.Base.Eq.{Eq, elem}

-- `le x y` says that the key of `x` is at most that of `y`.
module _ {ℓ} {A : Type ℓ} (le : A → A → Bool) where
  -- In front of the first element that is not smaller.
  unfoldable pub insert_sorted : A → List A → List A
  insert_sorted x [] = x ∷ []
  insert_sorted x (y ∷ ys) =
      let rest = insert_sorted x ys in if le x y then x ∷ y ∷ ys else y ∷ rest

  unfoldable pub sort_by : List A → List A
  unfolding insert_sorted
  sort_by [] = []
  sort_by (x ∷ xs) = insert_sorted x (sort_by xs)

  abbrev pub IsSorted : List A → Type 0
  IsSorted [] = Unit
  IsSorted (x ∷ xs) = All (λ y. le x y ≡ true) xs × IsSorted xs

  pub record IsTotal : Type ℓ where
    pub total : (x y : A) → le x y ≡ false → le y x ≡ true
    pub trans : (x y z : A) → le x y ≡ true → le y z ≡ true → le x z ≡ true

  module _ (t : IsTotal) where
    All-trans :
        (x y : A) (zs : List A)
        → le x y ≡ true
        → All (λ z. le y z ≡ true) zs
        → All (λ z. le x z ≡ true) zs
    All-trans x y [] h a = tt
    All-trans x y (z ∷ zs) h a = (t.trans x y z h a.0, All-trans x y zs h a.1)

    All-insert_sorted :
        (y x : A) (zs : List A)
        → le y x ≡ true
        → All (λ z. le y z ≡ true) zs
        → All (λ z. le y z ≡ true) (insert_sorted x zs)
    unfolding insert_sorted
    All-insert_sorted y x [] h a = (h, tt)
    All-insert_sorted y x (z ∷ zs) h a = elim (Bool-cases (le x z)) [
      | inl p ↦ rw p (h, a)
      | inr p ↦ rw p (a.0, All-insert_sorted y x zs h a.1)
    ]

    insert_sorted-IsSorted : (x : A) (ys : List A) → IsSorted ys → IsSorted (insert_sorted x ys)
    unfolding insert_sorted
    insert_sorted-IsSorted x [] s = (tt, tt)
    insert_sorted-IsSorted x (y ∷ ys) s = elim (Bool-cases (le x y)) [
      | inl p ↦ rw p ((p, All-trans x y ys p s.0), s)
      | inr p ↦ rw p (All-insert_sorted y x ys (t.total x y p) s.0, insert_sorted-IsSorted x ys s.1)
    ]

    pub sort_by-IsSorted : (xs : List A) → IsSorted (sort_by xs)
    unfolding sort_by
    sort_by-IsSorted [] = tt
    sort_by-IsSorted (x ∷ xs) = insert_sorted-IsSorted x (sort_by xs) (sort_by-IsSorted xs)

  module _ ⦃e : Eq A⦄ where
    elem-insert_sorted :
        (z x : A) (ys : List A) → elem z (insert_sorted x ys) ≡ (e.beq x z || elem z ys)
    unfolding insert_sorted elem
    elem-insert_sorted z x [] = refl
    elem-insert_sorted z x (y ∷ ys) = ground (arith, elem-insert_sorted z x ys)

    pub elem-sort_by : (z : A) (xs : List A) → elem z (sort_by xs) ≡ elem z xs
    unfolding sort_by elem
    elem-sort_by z [] = refl
    elem-sort_by z (x ∷ xs) = ground (arith, elem-sort_by z xs, elem-insert_sorted z x (sort_by xs))

  length-insert_sorted : (x : A) (ys : List A) → length (insert_sorted x ys) ≡ suc (length ys)
  unfolding insert_sorted
  length-insert_sorted x [] = refl
  length-insert_sorted x (y ∷ ys) = ground (arith, length-insert_sorted x ys)

  pub length-sort_by : (xs : List A) → length (sort_by xs) ≡ length xs
  unfolding sort_by
  length-sort_by [] = refl
  length-sort_by (x ∷ xs) = ground (arith, length-sort_by xs, length-insert_sorted x (sort_by xs))

-- A property of all elements before the sort is one of all after it, and the other way.
module _ {ℓ κ} {A : Type ℓ} (le : A → A → Bool) (P : A → Type κ) where
  All-insert : (x : A) (ys : List A) → P x → All P ys → All P (insert_sorted le x ys)
  unfolding insert_sorted
  All-insert x [] h a = (h, tt)
  All-insert x (y ∷ ys) h (b, c) = elim (Bool-cases (le x y)) [
    | inl p ↦ rw p (h, (b, c))
    | inr p ↦ rw p (b, All-insert x ys h c)
  ]

  All-of_insert : (x : A) (ys : List A) → All P (insert_sorted le x ys) → P x × All P ys
  unfolding insert_sorted
  All-of_insert x [] (h, _) = (h, tt)
  All-of_insert x (y ∷ ys) a = elim (Bool-cases (le x y)) [
    | inl p ↦ (rw p at a)
    | inr p ↦ let (b, c) = (rw p at a) in let (d, e) = All-of_insert x ys c in (d, (b, e))
  ]

  pub All-sort_by : (xs : List A) → All P xs → All P (sort_by le xs)
  unfolding sort_by
  All-sort_by [] h = tt
  All-sort_by (x ∷ xs) (a, b) = All-insert x (sort_by le xs) a (All-sort_by xs b)

  pub All-of_sort_by : (xs : List A) → All P (sort_by le xs) → All P xs
  unfolding sort_by
  All-of_sort_by [] h = tt
  All-of_sort_by (x ∷ xs) h =
      let (a, b) = All-of_insert x (sort_by le xs) h in (a, All-of_sort_by xs b)
