-- ===== src/Session/Coordinator/Exclusion.antt =====
-- ThreadCoordinator of backend/app/session/coordinator.py serializes the turns of a thread.
use agent_studio.Base.{
  ℕ, suc, subst, ltb→lt, ◌+◌, ◌≡◌, sym, Bool, true, false, inl, inr, Option, none, some, ltb, ◌==◌,
  Bool-cases, if◌then◌else◌, arith,
}
use agent_studio.Session.Coordinator.{
  Lock, set_nx, renew_script, Phase, idle, over, polling, leased, alone, System, update, Step,
  Reach, begin, later, tick, take_local, take_remote, degrade, time_out, give_up, cancel, renew,
  renew_unheard, release, release_alone, cancel_release,
}
use agent_studio.Session.Coordinator.Keeps.{
  covers, Owns, Agrees, KeepsLocal, KeepsKey, beq-eq, Owns-keeps, Agrees-keeps, set_nx-KeepsKey,
  renew_script-KeepsKey, release_script-KeepsKey, same_local, same_key, takes-KeepsLocal,
  gives-KeepsLocal, applied-KeepsKey, later-Agrees, renew_script-Agrees, set_nx-covers,
  renew_script-covers,
}

abbrev pub IsSerial : ℕ → System → Type 0
IsSerial lease s =
    (t : ℕ) → Owns s.local_lock (s.phase t) t × Agrees lease s.now s.lock (s.phase t) t

-- One task acts and gets into another phase.
moves-IsSerial :
    (lease : ℕ) (s : System) (t : ℕ) (p : Phase) (l' : ℕ → Option ℕ) (lock' : Lock)
    → IsSerial lease s
    → Owns l' p t
    → Agrees lease s.now lock' p t
    → KeepsLocal t s.local_lock l'
    → KeepsKey t s.now s.lock lock'
    → IsSerial lease (record s { local_lock = l'; lock = lock'; phase = update s.phase t p })
moves-IsSerial lease s t p l' lock' inv o a kl kk u = elim (Bool-cases (t == u)) [
  | inl q ↦ rw q (rw (sym (beq-eq t u q)) (o, a))
  | inr q ↦ rw q (
    Owns-keeps t u (s.phase u) s.local_lock l' q kl (inv u).0,
    Agrees-keeps lease t u (s.phase u) s.now s.lock lock' q kk (inv u).1,
  )
]

-- A phase and what it owns, when the phase is known.
pub owned_at :
    (lease : ℕ) (s : System) (t : ℕ) (p : Phase)
    → IsSerial lease s
    → s.phase t ≡ p
    → Owns s.local_lock p t × Agrees lease s.now s.lock p t
owned_at lease s t p inv e =
    subst (λ q. Owns s.local_lock q t × Agrees lease s.now s.lock q t) e (inv t)

pub update_self {ℓ} : {A : Type ℓ} → (f : ℕ → A) (i : ℕ) (a : A) → update f i a i ≡ a
update_self f i a = ground arith

renewed-IsSerial :
    (lease t : ℕ) (applied : Bool) (s : System)
    → IsSerial lease s
    → IsSerial lease
        (record s { lock = if applied then (renew_script lease s.now t s.lock).0 else s.lock })
renewed-IsSerial lease t true s inv u =
    ((inv u).0, renew_script-Agrees lease s.now t u s.lock (s.phase u) (inv u).1)
renewed-IsSerial lease t false s inv u = inv u

pub step-IsSerial :
    (lease : ℕ) {s s' : System} → IsSerial lease s → Step lease s s' → IsSerial lease s'
step-IsSerial lease {s} inv (tick n h) =
    λ u. ((inv u).0, later-Agrees lease s.now n u s.lock (s.phase u) h (inv u).1)
step-IsSerial lease {s} inv (take_local t w e f) =
    moves-IsSerial lease s t (polling w) (update s.local_lock w (some t)) s.lock inv
      (update_self s.local_lock w (some t)) tt (takes-KeepsLocal t w s.local_lock f)
      (same_key t s.now s.lock)
step-IsSerial lease {s} inv (take_remote t w e f) =
    moves-IsSerial lease s t (leased w (s.now + lease)) s.local_lock (set_nx lease s.now t s.lock).0
      inv (owned_at lease s t (polling w) inv e).0
      (λ h. set_nx-covers lease s.now t s.lock f, omega arith) (same_local t s.local_lock)
      (set_nx-KeepsKey lease t s.now s.lock)
step-IsSerial lease {s} inv (degrade t w applied e) =
    moves-IsSerial lease s t (alone w) s.local_lock _ inv (owned_at lease s t (polling w) inv e).0
      tt (same_local t s.local_lock)
      (applied-KeepsKey t s.now applied s.lock _ (set_nx-KeepsKey lease t s.now s.lock))
step-IsSerial lease {s} inv (time_out t e) =
    moves-IsSerial lease s t over s.local_lock s.lock inv tt tt (same_local t s.local_lock)
      (same_key t s.now s.lock)
step-IsSerial lease {s} inv (give_up t w e) =
    moves-IsSerial lease s t over (update s.local_lock w none) s.lock inv tt tt
      (gives-KeepsLocal t w s.local_lock (owned_at lease s t (polling w) inv e).0)
      (same_key t s.now s.lock)
step-IsSerial lease {s} inv (cancel t w e) =
    moves-IsSerial lease s t over s.local_lock s.lock inv tt tt (same_local t s.local_lock)
      (same_key t s.now s.lock)
step-IsSerial lease {s} inv (renew t w d e f) =
    moves-IsSerial lease s t (leased w (s.now + lease)) s.local_lock
      (renew_script lease s.now t s.lock).0 inv (owned_at lease s t (leased w d) inv e).0
      (λ h. renew_script-covers lease s.now t s.lock f, omega arith) (same_local t s.local_lock)
      (renew_script-KeepsKey lease t s.now s.lock)
step-IsSerial lease {s} inv (renew_unheard t applied) = renewed-IsSerial lease t applied s inv
step-IsSerial lease {s} inv (release t w d applied e) =
    moves-IsSerial lease s t over (update s.local_lock w none) _ inv tt tt
      (gives-KeepsLocal t w s.local_lock (owned_at lease s t (leased w d) inv e).0)
      (applied-KeepsKey t s.now applied s.lock _ (release_script-KeepsKey t s.now s.lock))
step-IsSerial lease {s} inv (release_alone t w e) =
    moves-IsSerial lease s t over (update s.local_lock w none) s.lock inv tt tt
      (gives-KeepsLocal t w s.local_lock (owned_at lease s t (alone w) inv e).0)
      (same_key t s.now s.lock)
step-IsSerial lease {s} inv (cancel_release t w d applied e) =
    moves-IsSerial lease s t over s.local_lock _ inv tt tt (same_local t s.local_lock)
      (applied-KeepsKey t s.now applied s.lock _ (release_script-KeepsKey t s.now s.lock))

pub Reach-IsSerial : (lease : ℕ) {s : System} → Reach lease s → IsSerial lease s
Reach-IsSerial lease begin = λ t. (tt, tt)
Reach-IsSerial lease (later r x) = step-IsSerial lease (Reach-IsSerial lease r) x

-- At which process a task runs a turn, or is about to.
abbrev pub is_at : ℕ → Phase → Bool
is_at w idle = false
is_at w over = false
is_at w (polling v) = v == w
is_at w (leased v d) = v == w
is_at w (alone v) = v == w

-- whether a task has a lease that is not over
abbrev pub is_live : ℕ → Phase → Bool
is_live now (leased w d) = ltb now d
is_live now _ = false

pub at-Owns :
    (w t : ℕ) (p : Phase) (l : ℕ → Option ℕ) → is_at w p ≡ true → Owns l p t → l w ≡ some t
at-Owns w t idle l h o = absurd cc
at-Owns w t over l h o = absurd cc
at-Owns w t (polling v) l h o = rw (sym (beq-eq v w h)) o
at-Owns w t (leased v d) l h o = rw (sym (beq-eq v w h)) o
at-Owns w t (alone v) l h o = rw (sym (beq-eq v w h)) o

-- the key has the token of a task with a lease that is not over
live-Agrees :
    (lease now t : ℕ) (p : Phase) (lock : Lock)
    → is_live now p ≡ true
    → Agrees lease now lock p t
    → covers t (suc now) lock ≡ true
live-Agrees lease now t idle lock h a = absurd cc
live-Agrees lease now t over lock h a = absurd cc
live-Agrees lease now t (polling v) lock h a = absurd cc
live-Agrees lease now t (leased v d) none h (a, b) = let c = a (ltb→lt now d h) in c
live-Agrees lease now t (leased v d) (some (u, e)) h (a, b) =
    let c = a (ltb→lt now d h) in ground arith
live-Agrees lease now t (alone v) lock h a = absurd cc

covers_unique :
    (t u d e : ℕ) (lock : Lock) → covers t d lock ≡ true → covers u e lock ≡ true → t ≡ u
covers_unique t u d e none h g = absurd cc
covers_unique t u d e (some (v, c)) h g = ground arith

-- Two tasks that are at one process, or that have leases which are not over, are the same one, in
-- every state that the tasks reach, whatever fails and whatever is cancelled.
pub Reach-Excludes :
    (lease : ℕ) (s : System) (t u : ℕ)
    → Reach lease s
    → ((w : ℕ) → is_at w (s.phase t) ≡ true → is_at w (s.phase u) ≡ true → t ≡ u)
      × (is_live s.now (s.phase t) ≡ true → is_live s.now (s.phase u) ≡ true → t ≡ u)
Reach-Excludes lease s t u r =
    let inv = Reach-IsSerial lease r in
    (
      λ w h g.
          let a = at-Owns w t (s.phase t) s.local_lock h (inv t).0 in
          let b = at-Owns w u (s.phase u) s.local_lock g (inv u).0 in ground arith,
      λ h g.
          covers_unique t u (suc s.now) (suc s.now) s.lock
            (live-Agrees lease s.now t (s.phase t) s.lock h (inv t).1)
            (live-Agrees lease s.now u (s.phase u) s.lock g (inv u).1),
    )
