-- ===== src/Session/Coordinator/Keeps.antt =====
-- What the scripts of ThreadCoordinator, in backend/app/session/coordinator.py, keep of the locks of
-- the other tasks.
use agent_studio.Base.{
  ℕ, ◌+◌, ◌<◌, ◌≤◌, ◌≡◌, Bool, true, false, inl, inr, Option, none, some, leb, ◌==◌, ◌&&◌,
  Bool-cases, if◌then◌else◌, arith,
}
use agent_studio.Session.Coordinator.{
  Lock, set_nx, release_script, renew_script, Phase, idle, over, polling, leased, alone, update,
}

-- The key belongs to this task at least until the time d.
abbrev pub covers : ℕ → ℕ → Lock → Bool
covers t d none = false
covers t d (some (u, e)) = u == t && leb d e

-- What the phase of a task says of the lock of its process.
abbrev pub Owns : (ℕ → Option ℕ) → Phase → ℕ → Type 0
Owns local_lock idle t = Unit
Owns local_lock over t = Unit
Owns local_lock (polling w) t = local_lock w ≡ some t
Owns local_lock (leased w d) t = local_lock w ≡ some t
Owns local_lock (alone w) t = local_lock w ≡ some t

-- What it says of the key.
abbrev pub Agrees : ℕ → ℕ → Lock → Phase → ℕ → Type 0
Agrees lease now lock idle t = Unit
Agrees lease now lock over t = Unit
Agrees lease now lock (polling w) t = Unit
Agrees lease now lock (leased w d) t = (now < d → covers t d lock ≡ true) × (d ≤ now + lease)
Agrees lease now lock (alone w) t = Unit

-- A task other than t, which acts, keeps what it has.
abbrev pub KeepsLocal : ℕ → (ℕ → Option ℕ) → (ℕ → Option ℕ) → Type 0
KeepsLocal t l l' = (u w : ℕ) → (t == u) ≡ false → l w ≡ some u → l' w ≡ some u

abbrev pub KeepsKey : ℕ → ℕ → Lock → Lock → Type 0
KeepsKey t now lock lock' =
    (u d : ℕ) → (t == u) ≡ false → now < d → covers u d lock ≡ true → covers u d lock' ≡ true

pub beq-eq : (a b : ℕ) → (a == b) ≡ true → a ≡ b
beq-eq a b h = ground arith

pub Owns-keeps :
    (t u : ℕ) (p : Phase) (l l' : ℕ → Option ℕ)
    → (t == u) ≡ false
    → KeepsLocal t l l'
    → Owns l p u
    → Owns l' p u
Owns-keeps t u idle l l' q k o = o
Owns-keeps t u over l l' q k o = o
Owns-keeps t u (polling w) l l' q k o = k u w q o
Owns-keeps t u (leased w d) l l' q k o = k u w q o
Owns-keeps t u (alone w) l l' q k o = k u w q o

pub Agrees-keeps :
    (lease t u : ℕ) (p : Phase) (now : ℕ) (lock lock' : Lock)
    → (t == u) ≡ false
    → KeepsKey t now lock lock'
    → Agrees lease now lock p u
    → Agrees lease now lock' p u
Agrees-keeps lease t u idle now lock lock' q k a = a
Agrees-keeps lease t u over now lock lock' q k a = a
Agrees-keeps lease t u (polling w) now lock lock' q k a = a
Agrees-keeps lease t u (leased w d) now lock lock' q k (a, b) = (λ h. k u d q h (a h), b)
Agrees-keeps lease t u (alone w) now lock lock' q k a = a

pub set_nx-KeepsKey :
    (lease t now : ℕ) (lock : Lock) → KeepsKey t now lock (set_nx lease now t lock).0
unfolding set_nx
set_nx-KeepsKey lease t now none = λ u d q h c. ground arith
set_nx-KeepsKey lease t now (some (v, e)) = λ u d q h c. ground arith

pub renew_script-KeepsKey :
    (lease t now : ℕ) (lock : Lock) → KeepsKey t now lock (renew_script lease now t lock).0
unfolding renew_script
renew_script-KeepsKey lease t now none = λ u d q h c. ground arith
renew_script-KeepsKey lease t now (some (v, e)) = λ u d q h c. ground arith

pub release_script-KeepsKey :
    (t now : ℕ) (lock : Lock) → KeepsKey t now lock (release_script now t lock)
unfolding release_script
release_script-KeepsKey t now none = λ u d q h c. ground arith
release_script-KeepsKey t now (some (v, e)) = λ u d q h c. ground arith

pub same_local : (t : ℕ) (l : ℕ → Option ℕ) → KeepsLocal t l l
same_local t l u w q h = h

pub same_key : (t now : ℕ) (lock : Lock) → KeepsKey t now lock lock
same_key t now lock u d q h c = c

-- A free lock is taken by t, and one of t is given back.
pub takes-KeepsLocal :
    (t w : ℕ) (l : ℕ → Option ℕ) → l w ≡ none → KeepsLocal t l (update l w (some t))
takes-KeepsLocal t w l e u v q h = elim (Bool-cases (w == v)) [
  | inl p ↦ absurd (let r = beq-eq w v p in cc)
  | inr p ↦ rw p h
]

pub gives-KeepsLocal :
    (t w : ℕ) (l : ℕ → Option ℕ) → l w ≡ some t → KeepsLocal t l (update l w none)
gives-KeepsLocal t w l e u v q h = elim (Bool-cases (w == v)) [
  | inl p ↦ absurd (let r = beq-eq w v p in ground arith)
  | inr p ↦ rw p h
]

-- A script that may not have been applied.
pub applied-KeepsKey :
    (t now : ℕ) (applied : Bool) (lock lock' : Lock)
    → KeepsKey t now lock lock'
    → KeepsKey t now lock (if applied then lock' else lock)
applied-KeepsKey t now true lock lock' k = k
applied-KeepsKey t now false lock lock' k = same_key t now lock

-- Time passes: a lease that is not over was not over before.
pub later-Agrees :
    (lease now then_ u : ℕ) (lock : Lock) (p : Phase)
    → now ≤ then_
    → Agrees lease now lock p u
    → Agrees lease then_ lock p u
later-Agrees lease now then_ u lock idle h a = a
later-Agrees lease now then_ u lock over h a = a
later-Agrees lease now then_ u lock (polling w) h a = a
later-Agrees lease now then_ u lock (leased w d) h (a, b) = (λ g. a (omega arith), omega arith)
later-Agrees lease now then_ u lock (alone w) h a = a

-- A renewal whose answer is lost takes nothing from any task.
pub renew_script-Agrees :
    (lease now t u : ℕ) (lock : Lock) (p : Phase)
    → Agrees lease now lock p u
    → Agrees lease now (renew_script lease now t lock).0 p u
unfolding renew_script
renew_script-Agrees lease now t u lock idle a = a
renew_script-Agrees lease now t u lock over a = a
renew_script-Agrees lease now t u lock (polling w) a = a
renew_script-Agrees lease now t u none (leased w d) a = a
renew_script-Agrees lease now t u (some (v, e)) (leased w d) (a, b) =
    (λ h. let c = a h in ground arith, b)
renew_script-Agrees lease now t u lock (alone w) a = a

pub set_nx-covers :
    (lease now t : ℕ) (lock : Lock)
    → (set_nx lease now t lock).1 ≡ true
    → covers t (now + lease) (set_nx lease now t lock).0 ≡ true
unfolding set_nx
set_nx-covers lease now t none h = ground arith
set_nx-covers lease now t (some (v, e)) h = ground arith

pub renew_script-covers :
    (lease now t : ℕ) (lock : Lock)
    → (renew_script lease now t lock).1 ≡ true
    → covers t (now + lease) (renew_script lease now t lock).0 ≡ true
unfolding renew_script
renew_script-covers lease now t none h = ground arith
renew_script-covers lease now t (some (v, e)) h = ground arith
