-- ===== src/Database/Replicas/Healthy.antt =====
-- The reads of backend/app/infrastructure/db/replicas.py that a replica serves.
use agent_studio.Base.{
  ℕ, zero, suc, ◌+◌, ◌%◌, ◌<◌, ◌≤◌, ◌≡◌, sym, ap, subst, refl, Bool, true, false, not, ◌&&◌, inl,
  inr, some, List, [], ◌∷◌, length, ◌==◌, Bool-cases, if◌then◌else◌, arith, ltb→lt,
}
use native.Mathlib.Nat.{mod-lt}
use agent_studio.Base.Eq.{nat_eq, elem, elem-unseen, unseen, filter_by, Distinct}
use agent_studio.Base.Text.{Text}
use agent_studio.Database.Replicas.{
  Router, replica_eligible, within_window, nth, next_replica, serve, Read, by_replica, failed_on,
  by_primary, no_replica, get_read_session,
}

beq-eq : (a b : ℕ) → (a == b) ≡ true → a ≡ b
beq-eq a b h = ground arith

unseen_skip : (x : ℕ) (seen ys : List ℕ) → elem x ys ≡ false → unseen (x ∷ seen) ys ≡ unseen seen ys
unfolding unseen filter_by elem
unseen_skip x seen [] h = refl
unseen_skip x seen (y ∷ ys) h = ground (arith, unseen_skip x seen ys)

unseen_one :
    (x : ℕ) (seen ys : List ℕ)
    → Distinct ys
    → length (unseen seen ys) ≤ suc (length (unseen (x ∷ seen) ys))
unfolding unseen filter_by elem
unseen_one x seen [] d = omega arith
unseen_one x seen (y ∷ ys) (n, d) = elim (Bool-cases (x == y)) [
  | inl p ↦
      let e = beq-eq x y p in
      let q = unseen_skip x seen ys (subst (λ z. elem z ys ≡ false) (sym e) n) in
      rw p (rw q (at_most_one (elem y seen) y (unseen seen ys)))
  | inr p ↦ rw p (one_each (elem y seen) y (unseen seen ys) _ (unseen_one x seen ys d))
]
  where
    at_most_one :
        (b : Bool) (y : ℕ) (us : List ℕ) → length (if not b then y ∷ us else us) ≤ suc (length us)
    at_most_one true y us = omega arith
    at_most_one false y us = omega arith

    one_each :
        (b : Bool) (y : ℕ) (us vs : List ℕ)
        → length us ≤ suc (length vs)
        → length (if not b then y ∷ us else us) ≤ suc (length (if not b then y ∷ vs else vs))
    one_each true y us vs h = h
    one_each false y us vs h = omega arith

unseen_none : (ys : List ℕ) → unseen [] ys ≡ ys
unfolding unseen filter_by elem
unseen_none [] = refl
unseen_none (y ∷ ys) = ap (λ zs. y ∷ zs) (unseen_none ys)

-- The engines that are not available are fewer than those that are left out.
unseen_room : (seen ys : List ℕ) → Distinct ys → length ys ≤ length (unseen seen ys) + length seen
unseen_room [] ys d = rw (unseen_none ys) (omega arith)
unseen_room (x ∷ seen) ys d =
    let h = unseen_room seen ys d in let g = unseen_one x seen ys d in omega arith

nth-elem :
    (n : ℕ) (xs : List ℕ) → n < length xs → (e : ℕ) × (nth n xs ≡ some e) × (elem e xs ≡ true)
unfolding elem
nth-elem n [] h = absurd (omega arith)
nth-elem zero (x ∷ xs) h = (x, refl, ground arith)
nth-elem (suc n) (x ∷ xs) h = let (e, p, q) = nth-elem n xs (omega arith) in (e, p, ground arith)

-- The engine of a read, if a replica served it, is one of the replicas and was available.
abbrev pub IsHealthy : List ℕ → List ℕ → Read → Type 0
IsHealthy replicas unavailable (by_replica e) =
    (elem e replicas ≡ true) × (elem e unavailable ≡ false)
IsHealthy replicas unavailable (failed_on e) =
    (elem e replicas ≡ true) × (elem e unavailable ≡ false)
IsHealthy replicas unavailable by_primary = Unit
IsHealthy replicas unavailable no_replica = ⊥

serve-IsHealthy :
    (breaks : Bool) (r : Router) (e : ℕ)
    → elem e (unseen r.unavailable r.replicas) ≡ true
    → next_replica r ≡ some e
    → IsHealthy r.replicas r.unavailable (serve breaks r (next_replica r)).1
serve-IsHealthy breaks r e h p = rw p (
    at_engine breaks (
      ground (arith, elem-unseen e r.unavailable r.replicas),
      ground (arith, elem-unseen e r.unavailable r.replicas),
    ))
  where
    at_engine :
        (b : Bool)
        → (elem e r.replicas ≡ true) × (elem e r.unavailable ≡ false)
        → IsHealthy r.replicas r.unavailable (serve b r (some e)).1
    at_engine true q = q
    at_engine false q = q

-- If no engine is listed twice, a read goes to the primary or to a replica that was available; there
-- is never a read that finds no candidate.
pub get_read_session-IsHealthy :
    (breaks : Bool) (now : ℕ) (keys : List Text) (r : Router)
    → Distinct r.replicas
    → IsHealthy r.replicas r.unavailable (get_read_session breaks now keys r).1
unfolding get_read_session replica_eligible next_replica
get_read_session-IsHealthy breaks now keys r d = elim (Bool-cases (replica_eligible now keys r)) [
  | inl p ↦
      let room = unseen_room r.unavailable r.replicas d in
      let fewer =
        ltb→lt (length r.unavailable) (length r.replicas)
          (second r.configured _ (not (within_window now keys r)) p) in
      let (e, q, h) =
        nth-elem (r.rr_index % length (unseen r.unavailable r.replicas))
          (unseen r.unavailable r.replicas) (mod-lt r.rr_index (omega arith)) in
      rw p (serve-IsHealthy breaks r e h q)
  | inr p ↦ rw p tt
]
  where
    second : (x y z : Bool) → (x && (y && z)) ≡ true → y ≡ true
    second x true z p = refl
    second true false z p = p
    second false false z p = p
