-- ===== src/StreamBuffer/Replay.antt =====
-- Chunks in ascending order, and what the merge of the tiers and the writes of the table do to them.
use agent_studio.Base.{
  ℕ, suc, ◌≡◌, ◌<◌, ap, refl, Bool, true, false, inl, inr, none, List, [], ◌∷◌, ◌++◌, map, arith,
  All, append_assoc, append-nil, ltb, ◌==◌, Bool-cases,
}
use agent_studio.Base.Dict.{lookup, insert}
use agent_studio.Base.Eq.{nat_eq, filter_by}
use agent_studio.Base.Sort.{insert_sorted, sort_by}
use agent_studio.StreamBuffer.Stores.{Chunk, place}
use agent_studio.StreamBuffer.Merge.{newer, id_le, value, by_id, add_hot, merge_tiers}

module _ {P : Type 0} where
  -- The numbers increase.
  abbrev pub Ascends : List (Chunk P) → Type 0
  Ascends [] = Unit
  Ascends (c ∷ cs) = All (λ d. c.id < d.id) cs × Ascends cs

  abbrev key : Chunk P → ℕ × Chunk P
  key c = (c.id, c)

  All-of_append :
      (n : ℕ) (cs ds : List (Chunk P))
      → All (λ d. n < d.id) (cs ++ ds)
      → All (λ d. n < d.id) cs × All (λ d. n < d.id) ds
  All-of_append n [] ds h = (tt, h)
  All-of_append n (c ∷ cs) ds (a, b) = let (x, y) = All-of_append n cs ds b in ((a, x), y)

  pub Ascends-init : (cs ds : List (Chunk P)) → Ascends (cs ++ ds) → Ascends cs
  Ascends-init [] ds h = tt
  Ascends-init (c ∷ cs) ds (a, b) = ((All-of_append c.id cs ds a).0, Ascends-init cs ds b)

  pub Ascends-tail : (cs ds : List (Chunk P)) → Ascends (cs ++ ds) → Ascends ds
  Ascends-tail [] ds h = h
  Ascends-tail (c ∷ cs) ds (a, b) = Ascends-tail cs ds b

  pub Ascends-snoc :
      (cs : List (Chunk P)) (d : Chunk P)
      → All (λ c. c.id < d.id) cs
      → Ascends cs
      → Ascends (cs ++ (d ∷ []))
  Ascends-snoc [] d h a = (tt, tt)
  Ascends-snoc (c ∷ cs) d (p, h) (a, b) = (below c.id cs p a, Ascends-snoc cs d h b)
    where
      below :
          (n : ℕ) (cs : List (Chunk P))
          → n < d.id
          → All (λ e. n < e.id) cs
          → All (λ e. n < e.id) (cs ++ (d ∷ []))
      below n [] p a = (p, tt)
      below n (c ∷ cs) p (q, a) = (q, below n cs p a)

  unequal : (x c : Chunk P) → x.id < c.id → (x.id == c.id) ≡ false
  unequal x c h = ground arith

  insert_new :
      (xs : List (Chunk P)) (c : Chunk P) (cs : List (Chunk P))
      → Ascends (xs ++ (c ∷ cs))
      → insert c.id c (map key xs) ≡ map key (xs ++ (c ∷ []))
  unfolding insert
  insert_new [] c cs h = refl
  insert_new (x ∷ xs) c cs (a, b) =
      let (p, q) = (All-of_append x.id xs (c ∷ cs) a).1 in
      rw (unequal x c p) (ap (λ d. key x ∷ d) (insert_new xs c cs b))

  lookup_new :
      (xs : List (Chunk P)) (c : Chunk P) (cs : List (Chunk P))
      → Ascends (xs ++ (c ∷ cs))
      → lookup c.id (map key xs) ≡ none
  unfolding lookup
  lookup_new [] c cs h = refl
  lookup_new (x ∷ xs) c cs (a, b) =
      let (p, q) = (All-of_append x.id xs (c ∷ cs) a).1 in ground (arith, lookup_new xs c cs b, p)

  regroup :
      (xs : List (Chunk P)) (c : Chunk P) (cs : List (Chunk P))
      → Ascends (xs ++ (c ∷ cs))
      → Ascends ((xs ++ (c ∷ [])) ++ cs)
  regroup xs c cs h = rw append_assoc h

  by_id-Ascends :
      (xs cs : List (Chunk P)) → Ascends (xs ++ cs) → by_id cs (map key xs) ≡ map key (xs ++ cs)
  unfolding by_id
  by_id-Ascends xs [] h = rw (append-nil xs) refl
  by_id-Ascends xs (c ∷ cs) h =
      rw (insert_new xs c cs h, by_id-Ascends (xs ++ (c ∷ [])) cs (regroup xs c cs h), append_assoc)
        refl

  add_hot-Ascends :
      (xs cs : List (Chunk P)) → Ascends (xs ++ cs) → add_hot cs (map key xs) ≡ map key (xs ++ cs)
  unfolding add_hot
  add_hot-Ascends xs [] h = rw (append-nil xs) refl
  add_hot-Ascends xs (c ∷ cs) h =
      rw
        (
          lookup_new xs c cs h,
          insert_new xs c cs h,
          add_hot-Ascends (xs ++ (c ∷ [])) cs (regroup xs c cs h),
          append_assoc,
        )
        refl

  insert_sorted-first :
      (c : Chunk P) (cs : List (Chunk P))
      → All (λ d. c.id < d.id) cs
      → insert_sorted id_le c cs ≡ c ∷ cs
  unfolding insert_sorted
  insert_sorted-first c [] h = refl
  insert_sorted-first c (d ∷ cs) (p, h) = ground (arith, p)

  sort_by-Ascends : (cs : List (Chunk P)) → Ascends cs → sort_by id_le cs ≡ cs
  unfolding sort_by
  sort_by-Ascends [] h = refl
  sort_by-Ascends (c ∷ cs) (a, b) = rw (sort_by-Ascends cs b) (insert_sorted-first c cs a)

  map-value : (cs : List (Chunk P)) → map value (map key cs) ≡ cs
  map-value [] = refl
  map-value (c ∷ cs) = rw (map-value cs)

  -- Tiers that follow one another are put one after the other.
  pub merge_tiers-Ascends :
      (old hot : List (Chunk P)) → Ascends (old ++ hot) → merge_tiers old hot ≡ old ++ hot
  unfolding merge_tiers
  merge_tiers-Ascends old hot h =
      rw (by_id-Ascends [] old (Ascends-init old hot h), add_hot-Ascends old hot h, map-value)
        (sort_by-Ascends (old ++ hot) h)

  pub filter_by-append :
      (p : Chunk P → Bool) (cs ds : List (Chunk P))
      → filter_by p (cs ++ ds) ≡ filter_by p cs ++ filter_by p ds
  unfolding filter_by
  filter_by-append p [] ds = refl
  filter_by-append p (c ∷ cs) ds = elim (Bool-cases (p c)) [
    | inl h ↦ rw h (rw (filter_by-append p cs ds))
    | inr h ↦ rw h (filter_by-append p cs ds)
  ]

  All-filter_by :
      (n : ℕ) (p : Chunk P → Bool) (cs ds : List (Chunk P))
      → All (λ d. n < d.id) (cs ++ ds)
      → All (λ d. n < d.id) (filter_by p cs ++ ds)
  unfolding filter_by
  All-filter_by n p [] ds h = h
  All-filter_by n p (c ∷ cs) ds (a, b) = elim (Bool-cases (p c)) [
    | inl h ↦ rw h (a, All-filter_by n p cs ds b)
    | inr h ↦ rw h (All-filter_by n p cs ds b)
  ]

  pub filter_by-Ascends :
      (p : Chunk P → Bool) (cs ds : List (Chunk P))
      → Ascends (cs ++ ds)
      → Ascends (filter_by p cs ++ ds)
  unfolding filter_by
  filter_by-Ascends p [] ds h = h
  filter_by-Ascends p (c ∷ cs) ds (a, b) = elim (Bool-cases (p c)) [
    | inl h ↦ rw h (All-filter_by c.id p cs ds a, filter_by-Ascends p cs ds b)
    | inr h ↦ rw h (filter_by-Ascends p cs ds b)
  ]

  pub filter_by-again :
      (p : Chunk P → Bool) (cs : List (Chunk P)) → filter_by p (filter_by p cs) ≡ filter_by p cs
  unfolding filter_by
  filter_by-again p [] = refl
  filter_by-again p (c ∷ cs) = elim (Bool-cases (p c)) [
    | inl h ↦ rw h (rw h (rw (filter_by-again p cs)))
    | inr h ↦ rw h (filter_by-again p cs)
  ]

  pub filter_by-all :
      (after : ℕ) (cs : List (Chunk P))
      → All (λ c. after < c.id) cs
      → filter_by (newer after) cs ≡ cs
  unfolding filter_by
  filter_by-all after [] h = refl
  filter_by-all after (c ∷ cs) (p, h) = rw (newer_true after c p, filter_by-all after cs h) refl
    where
      newer_true : (after : ℕ) (c : Chunk P) → after < c.id → ltb after c.id ≡ true
      newer_true after c p = ground arith

  place-last :
      (c : Chunk P) (cs : List (Chunk P)) → All (λ d. d.id < c.id) cs → place c cs ≡ cs ++ (c ∷ [])
  unfolding place
  place-last c [] h = refl
  place-last c (d ∷ ds) (p, h) = ground (arith, p, place-last c ds h)

  pub All-before :
      (cs : List (Chunk P)) (c : Chunk P) (ds : List (Chunk P))
      → Ascends (cs ++ (c ∷ ds))
      → All (λ d. d.id < c.id) cs
  All-before [] c ds h = tt
  All-before (d ∷ cs) c ds (a, b) = ((All-of_append d.id cs (c ∷ ds) a).1.0, All-before cs c ds b)

  pub place-Ascends :
      (cs : List (Chunk P)) (c : Chunk P) (ds : List (Chunk P))
      → Ascends (cs ++ (c ∷ ds))
      → place c cs ≡ cs ++ (c ∷ [])
  place-Ascends cs c ds h = place-last c cs (All-before cs c ds h)

  pub All-weaken :
      (n : ℕ) (cs : List (Chunk P)) → All (λ c. c.id < n) cs → All (λ c. c.id < suc n) cs
  All-weaken n [] h = tt
  All-weaken n (c ∷ cs) (p, h) = (omega arith, All-weaken n cs h)

  pub All-snoc :
      (n : ℕ) (cs : List (Chunk P)) (c : Chunk P)
      → All (λ c. c.id < n) cs
      → c.id < n
      → All (λ c. c.id < n) (cs ++ (c ∷ []))
  All-snoc n [] c h p = (p, tt)
  All-snoc n (d ∷ cs) c (q, h) p = (q, All-snoc n cs c h p)
