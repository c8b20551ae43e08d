-- ===== src/Gateway/Cooldown/Window.antt =====
-- When a deployment cools down, and until when.
use agent_studio.Base.{
  ℕ, suc, ◌+◌, ◌<◌, ◌≡◌, refl, ◌∙◌, ap, true, false, none, some, inl, inr, List, [], ◌∷◌, arith,
  length, All, ltb, ◌==◌, if◌then◌else◌, Bool-cases,
}
use agent_studio.Base.Eq.{nat_eq, list_eq, list_beq, list_beq_iff}
use agent_studio.Base.Text.{Text}
use agent_studio.Gateway.Cooldown.{
  alive, CounterStore, Config, cooldown_key, value_of, fail_script, record_failure, record_success,
  is_available,
}

module _ {S : Type 0} (redis : CounterStore S) where
  before : (now d : ℕ) → now < d → ltb now d ≡ true
  before now d p = ground arith

  not_one : (n : ℕ) → (suc (suc n) == 1) ≡ false
  not_one n = ground arith

  own : (k : Text) → list_beq k k ≡ true
  own k = (list_beq_iff k k).1 refl

  -- The first failure of a counter that is absent sets its deadline.
  fail_script_first :
      (k : Text) (ms now : ℕ) (s : S)
      → alive now (redis.entry k s) ≡ none
      → redis.entry k (fail_script redis k ms now s).0 ≡ some (1, some (now + ms))
  unfolding fail_script
  fail_script_first k ms now s h =
      rw (redis.entry-incr k k now s, own k, h)
        (rw
          (
            redis.entry-pexpire k k (now + ms) (redis.incr k now s),
            own k,
            redis.entry-incr k k now s,
            own k,
            h,
          )
          refl)

  fail_script_next :
      (k : Text) (ms now n d : ℕ) (s : S)
      → redis.entry k s ≡ some (suc n, some d)
      → now < d
      → redis.entry k (fail_script redis k ms now s).0 ≡ some (suc (suc n), some d)
  unfolding fail_script
  fail_script_next k ms now n d s h p =
      rw (redis.entry-incr k k now s, own k, h)
        (rw (before now d p, not_one n)
          (rw (redis.entry-incr k k now s, own k, h, before now d p) refl))

  fail_script_other :
      (k j : Text) (ms now : ℕ) (s : S)
      → list_beq k j ≡ false
      → redis.entry j (fail_script redis k ms now s).0 ≡ redis.entry j s
  unfolding fail_script
  fail_script_other k j ms now s h =
      elim (Bool-cases (value_of (redis.entry k (redis.incr k now s)) == 1)) [
        | inl p ↦ rw p (
            rw
              (
                redis.entry-pexpire k j (now + ms) (redis.incr k now s),
                h,
                redis.entry-incr k j now s,
                h,
              )
              refl)
        | inr p ↦ rw p (rw (redis.entry-incr k j now s, h) refl)
      ]

  module _ (c : Config) (provider model : Text) where
    -- The store after failures at the times.
    unfoldable pub fail_all : List ℕ → S → S
    unfolding record_failure
    fail_all [] s = s
    fail_all (t ∷ ts) s = fail_all ts (record_failure redis c true provider model t s).0

    abbrev pub K : Text
    K = cooldown_key c provider model

    record_failure-fail_script :
        (t : ℕ) (s : S)
        → (record_failure redis c true provider model t s).0
          ≡ (fail_script redis K c.cooldown_ms t s).0
    unfolding record_failure
    record_failure-fail_script t s = refl

    fail_more :
        (d n : ℕ) (ts : List ℕ) (s : S)
        → redis.entry K s ≡ some (suc n, some d)
        → All (λ t. t < d) ts
        → redis.entry K (fail_all ts s) ≡ some (suc n + length ts, some d)
    unfolding fail_all
    fail_more d n [] s h a = h ∙ ap (λ m. some (m, some d)) (omega arith)
    fail_more d n (t ∷ ts) s h (a, b) =
        fail_more d (suc n) ts (record_failure redis c true provider model t s).0
          (ap (redis.entry K) (record_failure-fail_script t s)
            ∙ fail_script_next K c.cooldown_ms t n d s h a)
          b
        ∙ ap (λ m. some (m, some d)) (omega arith)

    entry-fail_all :
        (t : ℕ) (ts : List ℕ) (s : S)
        → alive t (redis.entry K s) ≡ none
        → All (λ u. u < t + c.cooldown_ms) ts
        → redis.entry K (fail_all (t ∷ ts) s) ≡ some (suc (length ts), some (t + c.cooldown_ms))
    unfolding fail_all
    entry-fail_all t ts s h a =
        fail_more (t + c.cooldown_ms) 0 ts (record_failure redis c true provider model t s).0
          (ap (redis.entry K) (record_failure-fail_script t s)
            ∙ fail_script_first K c.cooldown_ms t s h)
          a
        ∙ ap (λ m. some (m, some (t + c.cooldown_ms))) (omega arith)

    available_of :
        (now n d : ℕ) (s : S)
        → redis.entry K s ≡ some (n, some d)
        → is_available redis c true provider model now s
          ≡ (if ltb now d then ltb n c.allowed_fails else true)
    unfolding is_available
    available_of now n d s h =
        rw h (elim (Bool-cases (ltb now d)) [ inl p ↦ rw p refl | inr p ↦ rw p refl ])

    record_success_resets :
        (now : ℕ) (s : S)
        → is_available redis c true provider model now
            (record_success redis c true provider model s)
          ≡ true
    unfolding is_available record_success
    record_success_resets now s = rw (redis.entry-delete K K s, own K) refl

    unanswered_available :
        (now : ℕ) (s : S) → is_available redis c false provider model now s ≡ true
    unfolding is_available
    unanswered_available now s = refl

    fail_all_other :
        (j : Text) (ts : List ℕ) (s : S)
        → list_beq K j ≡ false
        → redis.entry j (fail_all ts s) ≡ redis.entry j s
    unfolding fail_all
    fail_all_other j [] s h = refl
    fail_all_other j (t ∷ ts) s h =
        fail_all_other j ts (record_failure redis c true provider model t s).0 h
        ∙ ap (redis.entry j) (record_failure-fail_script t s)
        ∙ fail_script_other K j c.cooldown_ms t s h

    -- After a first failure at t and others before t + cooldown, the deployment is available exactly
    -- if there were fewer than allowed_fails, until that time, and available from then on: later
    -- failures do not prolong a cooldown. A success makes it available at once, and without an
    -- answer of Redis every deployment is available. The counters of other keys do not change.
    pub fail_all-is_available :
        (t : ℕ) (ts : List ℕ) (s : S) (now : ℕ)
        → alive t (redis.entry K s) ≡ none
        → All (λ u. u < t + c.cooldown_ms) ts
        → (is_available redis c true provider model now (fail_all (t ∷ ts) s)
            ≡ (if ltb now (t + c.cooldown_ms) then ltb (suc (length ts)) c.allowed_fails else true))
          × (is_available redis c true provider model now
                (record_success redis c true provider model (fail_all (t ∷ ts) s))
              ≡ true)
          × (is_available redis c false provider model now (fail_all (t ∷ ts) s) ≡ true)
          × ((j : Text)
              → list_beq K j ≡ false
              → redis.entry j (fail_all (t ∷ ts) s) ≡ redis.entry j s)
    fail_all-is_available t ts s now h a = (
      available_of now (suc (length ts)) (t + c.cooldown_ms) (fail_all (t ∷ ts) s)
          (entry-fail_all t ts s h a),
      record_success_resets now (fail_all (t ∷ ts) s),
      unanswered_available now (fail_all (t ∷ ts) s),
      λ j d. fail_all_other j (t ∷ ts) s d,
    )
