-- ===== src/Gateway/Quota/Reserve.antt =====
-- A reservation is all or nothing.
use mathlib.Core.List.{append-nil, append_assoc}
use agent_studio.Base.{
  ◌/◌, ◌*◌, ℕ, suc, ◌+◌, ◌≡◌, refl, Bool, true, false, ◌&&◌, not, List, [], ◌∷◌, ◌++◌, arith, ltb,
  ap, sym, add-zero, Option, none, some, inl, inr, Bool-cases, if◌then◌else◌,
}
use agent_studio.Base.Eq.{list_eq, nat_eq}
use agent_studio.Base.Text.{Text}
use agent_studio.Gateway.Quota.{
  HashStore, reserved, spent, reserve_script, reserve_levels, at_level, Level, Limits, level_limit,
  Result, holds, over_budget,
}
use agent_studio.Gateway.Quota.Scripts.{reserved-reserve_script, spent-reserve_script}
use agent_studio.Gateway.Quota.Held.{held, held-append, held_one, IsHeld, settle_keys-IsHeld}

if_not {ℓ} : {A : Type ℓ} (b : Bool) (x y : A) → (if b then x else y) ≡ (if not b then y else x)
if_not true x y = refl
if_not false x y = refl

module _ {S : Type 0} (redis : HashStore S) where
  -- The script admits a reservation exactly if the level has room for it, and adds what it holds.
  reserve_script-answer :
      (k : Text) (limit est : ℕ) (t : S)
      → let a = reserve_script redis k limit est t in
        let used = redis.hget k spent t + redis.hget k reserved t in
        (a.1 ≡ not (ltb 0 limit && ltb limit (used + est)))
        × (a.1 ≡ false → (a.0 ≡ t) × (a.2 ≡ used / 1000000 * 1000000))
  unfolding reserve_script
  reserve_script-answer k limit est t = ground arith

  module _ (limits : Limits) (key : Level → Text) (est : ℕ) where
    -- The level is limited and has no room for the reservation.
    abbrev pub is_over : S → Level → Bool
    is_over s l =
        ltb 0 (level_limit limits l)
        && ltb (level_limit limits l)
            (redis.hget (key l) spent s + redis.hget (key l) reserved s + est)

    unfoldable pub first_over : S → List Level → Option Level
    first_over s [] = none
    first_over s (l ∷ ls) = if is_over s l then some l else first_over s ls

    unfoldable pub limited_keys : List Level → List Text
    limited_keys [] = []
    limited_keys (l ∷ ls) =
        if ltb 0 (level_limit limits l) then key l ∷ limited_keys ls else limited_keys ls

    first_over_skip :
        (s : S) (l : Level) (ls : List Level)
        → ltb 0 (level_limit limits l) ≡ false
        → first_over s (l ∷ ls) ≡ first_over s ls
    unfolding first_over
    first_over_skip s l ls p = rw p refl

    limited_keys_skip :
        (l : Level) (ls : List Level)
        → ltb 0 (level_limit limits l) ≡ false
        → limited_keys (l ∷ ls) ≡ limited_keys ls
    unfolding limited_keys
    limited_keys_skip l ls p = rw p refl

    limited_keys_more :
        (l : Level) (ls : List Level) (keys : List Text)
        → ltb 0 (level_limit limits l) ≡ true
        → keys ++ limited_keys (l ∷ ls) ≡ (keys ++ (key l ∷ [])) ++ limited_keys ls
    unfolding limited_keys
    limited_keys_more l ls keys p = rw p (sym (append_assoc keys (key l ∷ []) (limited_keys ls)))

    -- What one look at the store before the reservation says of its result.
    abbrev pub Agrees : S → Option Level → List Text → S × Result → Type 0
    Agrees s none keys (t, r) =
        (alerts : List Level) × (r ≡ holds keys alerts) × IsHeld redis est keys s t
    Agrees s (some l) keys (t, r) =
        (r
          ≡ over_budget l (level_limit limits l)
              ((redis.hget (key l) spent s + redis.hget (key l) reserved s) / 1000000 * 1000000))
        × IsHeld redis est [] s t

    -- The keys of the levels are distinct, and none is among the keys.
    abbrev pub IsApart : List Level → List Text → Type 0
    IsApart [] keys = Unit
    IsApart (l ∷ ls) keys = (held est (key l) keys ≡ 0) × IsApart ls keys × IsApart ls (key l ∷ [])

    IsApart-append :
        (ls : List Level) (ks js : List Text)
        → IsApart ls ks
        → IsApart ls js
        → IsApart ls (ks ++ js)
    IsApart-append [] ks js a b = tt
    IsApart-append (l ∷ ls) ks js (a, b, c) (d, e, _) =
        (ground (arith, held-append est (key l) ks js), IsApart-append ls ks js b e, c)

    module _ (up : ℕ → Bool) (soft : ℕ) (ok : (m : ℕ) → up m ≡ true) where
      at_level-Agrees :
          (l : Level) (o : Option Level) (keys all : List Text) (n : ℕ) (s t : S) (a : S × Bool × ℕ)
          (rest : S → Bool → S × Result)
          → IsHeld redis est keys s t
          → (a.1 ≡ false
              → (a.0 ≡ t)
                × (a.2
                    ≡ (redis.hget (key l) spent s + redis.hget (key l) reserved s)
                      / 1000000
                      * 1000000))
          → (a.1 ≡ true → (b : Bool) → Agrees s o all (rest a.0 b))
          → Agrees s
              (if a.1 then o else some l)
              all
              (at_level redis up soft limits key est l keys n a rest)
      at_level-Agrees l o keys all n s t (t1, false, used) rest h denied admitted =
          let (same, amount) = denied refl in
          (
            ap (over_budget l (level_limit limits l)) amount,
            settle_keys-IsHeld redis up est keys (suc n) s t1 ok (rw same h),
          )
      at_level-Agrees l o keys all n s t (t1, true, used) rest h denied admitted = admitted refl _

      reserve_levels-at_level :
          (l : Level) (ls : List Level) (keys : List Text) (alerts : List Level) (n : ℕ) (t : S)
          → ltb 0 (level_limit limits l) ≡ true
          → reserve_levels redis up soft limits key est (l ∷ ls) keys alerts n t
            ≡ at_level redis up soft limits key est l keys n
                (reserve_script redis (key l) (level_limit limits l) est t)
                (λ t1 b.
                  reserve_levels redis up soft limits key est ls
                    (keys ++ (key l ∷ []))
                    (if b then alerts ++ (l ∷ []) else alerts)
                    (suc n)
                    t1)
      unfolding reserve_levels
      reserve_levels-at_level l ls keys alerts n t p = rw (p, ok n) refl

      reserve_levels_skip :
          (l : Level) (ls : List Level) (keys : List Text) (alerts : List Level) (n : ℕ) (t : S)
          → ltb 0 (level_limit limits l) ≡ false
          → reserve_levels redis up soft limits key est (l ∷ ls) keys alerts n t
            ≡ reserve_levels redis up soft limits key est ls keys alerts n t
      unfolding reserve_levels
      reserve_levels_skip l ls keys alerts n t p = rw p refl

      reserve_levels_done :
          (keys : List Text) (alerts : List Level) (n : ℕ) (t : S)
          → reserve_levels redis up soft limits key est [] keys alerts n t ≡ (t, holds keys alerts)
      unfolding reserve_levels
      reserve_levels_done keys alerts n t = refl

      reserve_script-IsHeld :
          (l : Level) (keys : List Text) (s t : S)
          → (reserve_script redis (key l) (level_limit limits l) est t).1 ≡ true
          → IsHeld redis est keys s t
          → IsHeld redis est
              (keys ++ (key l ∷ []))
              s
              (reserve_script redis (key l) (level_limit limits l) est t).0
      reserve_script-IsHeld l keys s t p h j = ground (
        arith,
        h j,
        p,
        reserved-reserve_script redis (key l) j (level_limit limits l) est t,
        spent-reserve_script redis (key l) j (level_limit limits l) est t,
        held-append est j keys (key l ∷ []),
        held_one est j (key l),
      )

      nothing-Agrees :
          (keys : List Text) (alerts : List Level) (n : ℕ) (s t : S)
          → IsHeld redis est keys s t
          → Agrees s
              (first_over s [])
              (keys ++ limited_keys [])
              (reserve_levels redis up soft limits key est [] keys alerts n t)
      unfolding first_over limited_keys
      nothing-Agrees keys alerts n s t h =
          rw (reserve_levels_done keys alerts n t, append-nil keys) (alerts, refl, h)

      first_over-answer :
          (l : Level) (ls : List Level) (keys : List Text) (s t : S)
          → ltb 0 (level_limit limits l) ≡ true
          → held est (key l) keys ≡ 0
          → IsHeld redis est keys s t
          → first_over s (l ∷ ls) ≡ (
              if (reserve_script redis (key l) (level_limit limits l) est t).1
              then first_over s ls
              else some l)
      unfolding first_over
      first_over-answer l ls keys s t p a h =
          let (admits, _) = reserve_script-answer (key l) (level_limit limits l) est t in
          rw (admits, (h (key l)).0, (h (key l)).1, a, add-zero (redis.hget (key l) reserved s))
            (if_not _ (some l) (first_over s ls))

      pub reserve_levels-Agrees :
          (ls : List Level) (keys : List Text) (alerts : List Level) (n : ℕ) (s t : S)
          → IsApart ls keys
          → IsHeld redis est keys s t
          → Agrees s
              (first_over s ls)
              (keys ++ limited_keys ls)
              (reserve_levels redis up soft limits key est ls keys alerts n t)
      reserve_levels-Agrees [] keys alerts n s t a h = nothing-Agrees keys alerts n s t h
      reserve_levels-Agrees (l ∷ ls) keys alerts n s t (a, b, c) h =
          elim (Bool-cases (ltb 0 (level_limit limits l))) [
            | inl p ↦
                rw
                  (
                    reserve_levels-at_level l ls keys alerts n t p,
                    first_over-answer l ls keys s t p a h,
                    limited_keys_more l ls keys p,
                  )
                  (at_level-Agrees l (first_over s ls) keys _ n s t
                    (reserve_script redis (key l) (level_limit limits l) est t) _ h
                    (λ d. ground (
                      arith,
                      (reserve_script-answer (key l) (level_limit limits l) est t).1 d,
                      h (key l),
                      a,
                    ))
                    (λ d soft_alert.
                      reserve_levels-Agrees ls (keys ++ (key l ∷ [])) _ (suc n) s _
                        (IsApart-append ls keys (key l ∷ []) b c)
                        (reserve_script-IsHeld l keys s t d h)))
            | inr p ↦
                rw
                  (
                    reserve_levels_skip l ls keys alerts n t p,
                    first_over_skip s l ls p,
                    limited_keys_skip l ls p,
                  )
                  (reserve_levels-Agrees ls keys alerts n s t b h)
          ]
