-- ===== src/Session/Coordinator/Cancelled.antt =====
-- A task of ThreadCoordinator, in backend/app/session/coordinator.py, that is cancelled while it asks
-- Redis.
use agent_studio.Base.{
  ℕ, ◌≡◌, ◌∙◌, sym, ap, refl, Bool, true, false, inl, inr, Option, some, ◌==◌, Bool-cases,
}
use agent_studio.Session.Coordinator.{
  Phase, idle, over, polling, leased, alone, System, update, Step, Reach, later, tick, take_local,
  take_remote, degrade, time_out, give_up, cancel, renew, renew_unheard, release, release_alone,
  cancel_release,
}
use agent_studio.Session.Coordinator.Keeps.{
  KeepsLocal, beq-eq, same_local, takes-KeepsLocal, gives-KeepsLocal,
}
use agent_studio.Session.Coordinator.Exclusion.{
  IsSerial, owned_at, Reach-IsSerial, is_at, at-Owns, update_self,
}

abbrev is_over : Phase → Bool
is_over over = true
is_over _ = false

-- A task is through and has the lock of its process.
abbrev Holds : ℕ → ℕ → System → Type 0
Holds t w s = (s.phase t ≡ over) × (s.local_lock w ≡ some t)

other_acts :
    (s : System) (t u : ℕ) (p : Phase)
    → s.phase u ≡ p
    → is_over p ≡ false
    → s.phase t ≡ over
    → (u == t) ≡ false
other_acts s t u p e n o = elim (Bool-cases (u == t)) [
  | inl q ↦
      absurd (let r = ap s.phase (beq-eq u t q) in let y = not_over p (sym e ∙ (r ∙ o)) n in cc)
  | inr q ↦ q
]
  where
    not_over : (p : Phase) → p ≡ over → is_over p ≡ false → false ≡ true
    not_over p x n = sym n ∙ ap is_over x

moves-Holds :
    (s : System) (t w u : ℕ) (p p' : Phase) (l' : ℕ → Option ℕ)
    → s.phase u ≡ p
    → is_over p ≡ false
    → KeepsLocal u s.local_lock l'
    → Holds t w s
    → Holds t w (record s { local_lock = l'; phase = update s.phase u p' })
moves-Holds s t w u p p' l' e n k (o, h) = let q = other_acts s t u p e n o in (rw q o, k t w q h)

step-Holds :
    (lease t w : ℕ) (s s' : System)
    → IsSerial lease s
    → Step lease s s'
    → Holds t w s
    → Holds t w s'
step-Holds lease t w s s' inv (tick n g) h = h
step-Holds lease t w s s' inv (take_local u v e f) h =
    moves-Holds s t w u idle _ _ e refl (takes-KeepsLocal u v s.local_lock f) h
step-Holds lease t w s s' inv (take_remote u v e f) h =
    moves-Holds s t w u (polling v) _ _ e refl (same_local u s.local_lock) h
step-Holds lease t w s s' inv (degrade u v applied e) h =
    moves-Holds s t w u (polling v) _ _ e refl (same_local u s.local_lock) h
step-Holds lease t w s s' inv (time_out u e) h =
    moves-Holds s t w u idle _ _ e refl (same_local u s.local_lock) h
step-Holds lease t w s s' inv (give_up u v e) h =
    moves-Holds s t w u (polling v) _ _ e refl
      (gives-KeepsLocal u v s.local_lock (owned_at lease s u (polling v) inv e).0) h
step-Holds lease t w s s' inv (cancel u v e) h =
    moves-Holds s t w u (polling v) _ _ e refl (same_local u s.local_lock) h
step-Holds lease t w s s' inv (renew u v d e f) h =
    moves-Holds s t w u (leased v d) _ _ e refl (same_local u s.local_lock) h
step-Holds lease t w s s' inv (renew_unheard u applied) h = h
step-Holds lease t w s s' inv (release u v d applied e) h =
    moves-Holds s t w u (leased v d) _ _ e refl
      (gives-KeepsLocal u v s.local_lock (owned_at lease s u (leased v d) inv e).0) h
step-Holds lease t w s s' inv (release_alone u v e) h =
    moves-Holds s t w u (alone v) _ _ e refl
      (gives-KeepsLocal u v s.local_lock (owned_at lease s u (alone v) inv e).0) h
step-Holds lease t w s s' inv (cancel_release u v d applied e) h =
    moves-Holds s t w u (leased v d) _ _ e refl (same_local u s.local_lock) h

-- What follows a state.
pub data Leads (lease : ℕ) (s : System) : System → Type 0 where
  here : Leads lease s s
  next : {s' s'' : System} → Leads lease s s' → Step lease s' s'' → Leads lease s s''

Leads-Reach : (lease : ℕ) {s s' : System} → Reach lease s → Leads lease s s' → Reach lease s'
Leads-Reach lease r here = r
Leads-Reach lease r (next l x) = later (Leads-Reach lease r l) x

Leads-Holds :
    (lease t w : ℕ) {s s' : System} → Reach lease s → Leads lease s s' → Holds t w s → Holds t w s'
Leads-Holds lease t w r here h = h
Leads-Holds lease t w r (next {s'} {s''} l x) h =
    step-Holds lease t w s' s'' (Reach-IsSerial lease (Leads-Reach lease r l)) x
      (Leads-Holds lease t w r l h)

Holds-excludes :
    (lease t w : ℕ) (s : System)
    → IsSerial lease s
    → Holds t w s
    → (u : ℕ) → is_at w (s.phase u) ≡ false
Holds-excludes lease t w s inv (o, h) u = elim (Bool-cases (is_at w (s.phase u))) [
  | inl p ↦
      let a = at-Owns w u (s.phase u) s.local_lock p (inv u).0 in
      let e = let b = sym a ∙ h in same_task b in rw e (rw o refl)
  | inr p ↦ p
]
  where
    same_task : some u ≡ some t → u ≡ t
    same_task b = cc

-- A task that is cancelled while it asks Redis keeps the lock of its process: in every state that
-- follows, the lock is that task's, and no task is at the process.
pub cancelled_keeps :
    (lease t w : ℕ) (s s' : System)
    → Reach lease s
    → s.phase t ≡ polling w
    → Leads lease (record s { phase = update s.phase t over }) s'
    → (s'.local_lock w ≡ some t) × ((u : ℕ) → is_at w (s'.phase u) ≡ false)
cancelled_keeps lease t w s s' r e l =
    let c = record s { phase = update s.phase t over } in
    let r' = later r (cancel t w e) in
    let h =
      Leads-Holds lease t w r' l (
        update_self s.phase t over,
        (owned_at lease s t (polling w) (Reach-IsSerial lease r) e).0,
      ) in
    (h.1, Holds-excludes lease t w s' (Reach-IsSerial lease (Leads-Reach lease r' l)) h)
