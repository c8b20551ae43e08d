-- ===== src/Database/Replicas/Reads.antt =====
-- Where the reads of backend/app/infrastructure/db/replicas.py go.
use agent_studio.Base.{
  ℕ, ◌+◌, ◌-◌, ◌<◌, ◌≤◌, ◌≡◌, ◌∙◌, sym, subst, refl, Bool, true, false, ◌&&◌, ◌||◌, inl, inr, ◌⊎◌,
  Option, none, some, List, [], ◌∷◌, length, ltb, Bool-cases, if◌then◌else◌, arith, lt→ltb,
}
use agent_studio.Base.Eq.{nat_eq, list_eq, list_beq, list_beq_iff, elem}
use agent_studio.Base.Dict.{Dict, lookup, insert, lookup-insert}
use agent_studio.Base.Text.{Text}
use agent_studio.Database.Replicas.{
  Router, max_tracked_write_keys, write_all, evict, mark_write, is_recent, within_window,
  replica_eligible, next_replica, serve, by_primary, get_read_session, check_health,
}

-- What is done to a router.
pub data Op : Type 0 where
  writes : (now : ℕ) (keys : List Text) → Op
  reads : (breaks : Bool) (now : ℕ) (keys : List Text) → Op
  checks : (answers : ℕ → Bool) → Op

abbrev pub step : Op → Router → Router
step (writes now keys) r = mark_write now keys r
step (reads breaks now keys) r = (get_read_session breaks now keys r).0
step (checks answers) r = record r { unavailable = check_health answers r.replicas r.unavailable }

abbrev pub steps : List Op → Router → Router
steps [] r = r
steps (o ∷ os) r = steps os (step o r)

-- A write is not before the time t, and leaves no more keys than are tracked.
abbrev pub Fits : ℕ → Op → Router → Type 0
Fits t (writes now keys) r =
    (t ≤ now) × (length (write_all now keys r.last_write) ≤ max_tracked_write_keys)
Fits t (reads breaks now keys) r = Unit
Fits t (checks answers) r = Unit

abbrev pub AllFit : ℕ → List Op → Router → Type 0
AllFit t [] r = Unit
AllFit t (o ∷ os) r = Fits t o r × AllFit t os (step o r)

-- The key was written at the time t or later.
abbrev IsMarked : ℕ → Text → Dict Text ℕ → Type 0
IsMarked t k d = (w : ℕ) × (lookup k d ≡ some w) × (t ≤ w)

write_all-IsMarked :
    (t now : ℕ) (keys : List Text) (k : Text) (d : Dict Text ℕ)
    → t ≤ now
    → IsMarked t k d
    → IsMarked t k (write_all now keys d)
unfolding write_all
write_all-IsMarked t now [] k d l m = m
write_all-IsMarked t now ([] ∷ keys) k d l m = write_all-IsMarked t now keys k d l m
write_all-IsMarked t now ((c ∷ j) ∷ keys) k d l (w, e, h) =
    write_all-IsMarked t now keys k (insert (c ∷ j) now d) l
      (elim (Bool-cases (list_beq (c ∷ j) k)) [
        | inl p ↦ (now, lookup-insert (c ∷ j) k now d ∙ rw p refl, l)
        | inr p ↦ (w, lookup-insert (c ∷ j) k now d ∙ rw p e, h)
      ])

write_all_marks :
    (now c : ℕ) (k : Text) (keys : List Text) (d : Dict Text ℕ)
    → elem (c ∷ k) keys ≡ true
    → IsMarked now (c ∷ k) (write_all now keys d)
unfolding write_all elem
write_all_marks now c k [] d h = absurd cc
write_all_marks now c k ([] ∷ keys) d h = write_all_marks now c k keys d h
write_all_marks now c k ((b ∷ j) ∷ keys) d h = elim (Bool-cases (list_beq (b ∷ j) (c ∷ k))) [
  | inl p ↦
      write_all-IsMarked now now keys (c ∷ k) (insert (b ∷ j) now d) (omega arith)
        (now, lookup-insert (b ∷ j) (c ∷ k) now d ∙ rw p refl, omega arith)
  | inr p ↦ write_all_marks now c k keys (insert (b ∷ j) now d) (rw p at h)
]

evict_none : (d : Dict Text ℕ) → length d ≤ max_tracked_write_keys → evict d ≡ d
evict_none d h = let p = zero_of d h in rw p refl
  where
    zero_of : (d : Dict Text ℕ) → length d ≤ 10000 → length d - 10000 ≡ 0
    zero_of d h = omega arith

-- The key of a router is marked, if it has replicas at all.
abbrev Keeps : ℕ → Text → ℕ → Router → Type 0
Keeps t k window r = (r.window ≡ window) × ((r.configured ≡ false) ⊎ IsMarked t k r.last_write)

mark_write-Keeps :
    (t now : ℕ) (keys : List Text) (k : Text) (window : ℕ) (r : Router)
    → length (write_all now keys r.last_write) ≤ max_tracked_write_keys
    → (r.configured ≡ true → IsMarked t k (write_all now keys r.last_write))
    → r.window ≡ window
    → Keeps t k window (mark_write now keys r)
unfolding mark_write
mark_write-Keeps t now keys k window r f m e = elim (Bool-cases r.configured) [
  | inl p ↦ rw p (e, inr (rw (evict_none (write_all now keys r.last_write) f) (m p)))
  | inr p ↦ rw p (e, inl refl)
]

serve-Keeps :
    (t : ℕ) (k : Text) (window : ℕ) (breaks : Bool) (r : Router) (o : Option ℕ)
    → Keeps t k window r
    → Keeps t k window (serve breaks r o).0
serve-Keeps t k window breaks r none m = m
serve-Keeps t k window true r (some e) m = m
serve-Keeps t k window false r (some e) m = m

read-Keeps :
    (t : ℕ) (k : Text) (window : ℕ) (breaks : Bool) (now : ℕ) (keys : List Text) (r : Router)
    → Keeps t k window r
    → Keeps t k window (get_read_session breaks now keys r).0
unfolding get_read_session
read-Keeps t k window breaks now keys r m = elim (Bool-cases (replica_eligible now keys r)) [
  | inl p ↦ rw p (serve-Keeps t k window breaks r (next_replica r) m)
  | inr p ↦ rw p m
]

step-Keeps :
    (t : ℕ) (k : Text) (window : ℕ) (o : Op) (r : Router)
    → Fits t o r
    → Keeps t k window r
    → Keeps t k window (step o r)
step-Keeps t k window (writes now keys) r (l, f) (e, m) =
    mark_write-Keeps t now keys k window r f (λ p. marked m p) e
  where
    marked :
        (r.configured ≡ false) ⊎ IsMarked t k r.last_write
        → r.configured ≡ true
        → IsMarked t k (write_all now keys r.last_write)
    marked (inl q) p = absurd (cc)
    marked (inr q) p = write_all-IsMarked t now keys k r.last_write l q
step-Keeps t k window (reads breaks now keys) r f m = read-Keeps t k window breaks now keys r m
step-Keeps t k window (checks answers) r f m = m

steps-Keeps :
    (t : ℕ) (k : Text) (window : ℕ) (os : List Op) (r : Router)
    → AllFit t os r
    → Keeps t k window r
    → Keeps t k window (steps os r)
steps-Keeps t k window [] r f m = m
steps-Keeps t k window (o ∷ os) r (f, fs) m =
    steps-Keeps t k window os (step o r) fs (step-Keeps t k window o r f m)

within_window_of :
    (t now c : ℕ) (k : Text) (keys : List Text) (r : Router)
    → elem (c ∷ k) keys ≡ true
    → IsMarked t (c ∷ k) r.last_write
    → now < t + r.window
    → within_window now keys r ≡ true
unfolding within_window elem
within_window_of t now c k [] r h m l = absurd cc
within_window_of t now c k ([] ∷ keys) r h m l = within_window_of t now c k keys r h m l
within_window_of t now c k ((b ∷ j) ∷ keys) r h m l = elim (Bool-cases (list_beq (b ∷ j) (c ∷ k))) [
  | inl p ↦
      let q = (list_beq_iff (b ∷ j) (c ∷ k)).0 p in
      let (w, e, g) = m in rw q (rw e (rw (lt→ltb now (w + r.window) (omega arith)) refl))
  | inr p ↦
      let rest = within_window_of t now c k keys r (rw p at h) m l in
      rw rest (or_true (is_recent now r.window (lookup (b ∷ j) r.last_write)))
]
  where
    or_true : (x : Bool) → (x || true) ≡ true
    or_true true = refl
    or_true false = refl

kept_primary :
    (t now c : ℕ) (k : Text) (keys : List Text) (window : ℕ) (breaks : Bool) (r : Router)
    → elem (c ∷ k) keys ≡ true
    → now < t + window
    → Keeps t (c ∷ k) window r
    → (get_read_session breaks now keys r).1 ≡ by_primary
unfolding get_read_session replica_eligible
kept_primary t now c k keys window breaks r h l (e, inl p) = rw p refl
kept_primary t now c k keys window breaks r h l (e, inr m) =
    let w = within_window_of t now c k keys r h m (subst (λ v. now < t + v) (sym e) l) in
    rw w (and_false r.configured (ltb (length r.unavailable) (length r.replicas)))
  where
    and_false :
        (x y : Bool)
        → (if x && (y && false) then serve breaks r (next_replica r) else (r, by_primary)).1
          ≡ by_primary
    and_false true true = refl
    and_false true false = refl
    and_false false y = refl

-- A read sees the writes of its own process: after a write of a key that is not empty, whatever is
-- written, read and checked after it, a read for the key goes to the primary until the window of the
-- write is over. No write is before that one, and none leaves more keys than are tracked.
pub get_read_session-mark_write :
    (t : ℕ) (keys : List Text) (os : List Op) (r : Router) (c : ℕ) (k : Text) (breaks : Bool)
    (now : ℕ) (read_keys : List Text)
    → AllFit t (writes t keys ∷ os) r
    → elem (c ∷ k) keys ≡ true
    → elem (c ∷ k) read_keys ≡ true
    → now < t + r.window
    → (get_read_session breaks now read_keys (steps os (mark_write t keys r))).1 ≡ by_primary
get_read_session-mark_write t keys os r c k breaks now read_keys ((l, f), fs) h g n =
    kept_primary t now c k read_keys r.window breaks (steps os (mark_write t keys r)) g n (
      steps-Keeps t (c ∷ k) r.window os (mark_write t keys r) fs (
        mark_write-Keeps t t keys (c ∷ k) r.window r f
          (λ p. write_all_marks t c k keys r.last_write h) refl))
