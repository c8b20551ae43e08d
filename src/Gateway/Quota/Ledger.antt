-- ===== src/Gateway/Quota/Ledger.antt =====
-- The two scripts at one key, called by any number of requests in any order.
use agent_studio.Base.{ℕ, ◌+◌, ◌-◌, ◌≤◌, ◌<◌, ◌≡◌, true, false, List, [], ◌∷◌, ◌++◌, arith}
use agent_studio.Base.Eq.{list_eq, nat_eq, list_beq, list_beq_iff}
use agent_studio.Base.Text.{Text}
use agent_studio.Gateway.Quota.{HashStore, reserved, spent, reserve_script, reconcile_script}
use agent_studio.Gateway.Quota.Scripts.{
  reserved-reserve_script, spent-reserve_script, reserved-reconcile_script, spent-reconcile_script,
  reserve_script_room,
}

unfoldable pub sum : List ℕ → ℕ
sum [] = 0
sum (n ∷ ns) = n + sum ns

sum-append : (xs ys : List ℕ) → sum (xs ++ ys) ≡ sum xs + sum ys
unfolding sum
sum-append [] ys = omega arith
sum-append (x ∷ xs) ys = omega (arith, sum-append xs ys)

module _ {S : Type 0} (redis : HashStore S) (key : Text) (limit : ℕ) where
  -- A history of the key: its store, the estimates of the open reservations, the actual costs
  -- reconciled, and by how much they exceeded their estimates. Calls at other keys may come between.
  pub data History : S → List ℕ → ℕ → ℕ → Type 0 where
    fresh : (s : S) → redis.hget key reserved s ≡ 0 → redis.hget key spent s ≡ 0 → History s [] 0 0
    charge :
        (s : S) (owed : List ℕ) (paid over est : ℕ)
        → History s owed paid over
        → (reserve_script redis key limit est s).1 ≡ true
        → History (reserve_script redis key limit est s).0 (est ∷ owed) paid over
    refuse :
        (s : S) (owed : List ℕ) (paid over est : ℕ)
        → History s owed paid over
        → (reserve_script redis key limit est s).1 ≡ false
        → History (reserve_script redis key limit est s).0 owed paid over
    settle :
        (s : S) (before after : List ℕ) (paid over est actual : ℕ)
        → History s (before ++ est ∷ after) paid over
        → History
            (reconcile_script redis key est actual s)
            (before ++ after)
            (paid + actual)
            (over + (actual - est))
    elsewhere_charge :
        (s : S) (owed : List ℕ) (paid over est : ℕ) (k : Text) (other : ℕ)
        → list_beq k key ≡ false
        → History s owed paid over
        → History (reserve_script redis k other est s).0 owed paid over
    elsewhere_settle :
        (s : S) (owed : List ℕ) (paid over est actual : ℕ) (k : Text)
        → list_beq k key ≡ false
        → History s owed paid over
        → History (reconcile_script redis k est actual s) owed paid over

  abbrev Balanced : S → List ℕ → ℕ → ℕ → Type 0
  Balanced s owed paid over =
      (redis.hget key reserved s ≡ sum owed)
      × (redis.hget key spent s ≡ paid)
      × (0 < limit → redis.hget key spent s + redis.hget key reserved s ≤ limit + over)

  -- After any history of a key, what is reserved is the sum of the open estimates, what is spent is
  -- the sum of the costs reconciled, and if the key is limited, both together exceed the limit by no
  -- more than costs exceeded their estimates.
  pub History-Balanced :
      (s : S) (owed : List ℕ) (paid over : ℕ) → History s owed paid over → Balanced s owed paid over
  unfolding sum
  History-Balanced s owed paid over (fresh _ a b) = (a, b, λ _. omega (arith, a, b))
  History-Balanced s owed paid over (charge s' held _ _ est h admitted) = ground (
    arith,
    admitted,
    History-Balanced s' held paid over h,
    reserve_script_room redis key limit est s' admitted,
    reserved-reserve_script redis key key limit est s',
    spent-reserve_script redis key key limit est s',
    list_beq_iff key key,
  )
  History-Balanced s owed paid over (refuse s' _ _ _ est h denied) = ground (
    arith,
    denied,
    History-Balanced s' owed paid over h,
    reserved-reserve_script redis key key limit est s',
    spent-reserve_script redis key key limit est s',
  )
  History-Balanced s owed paid over (settle s' before after p o est actual h) = ground (
    arith,
    History-Balanced s' (before ++ est ∷ after) p o h,
    sum-append before (est ∷ after),
    sum-append before after,
    reserved-reconcile_script redis key key est actual s',
    spent-reconcile_script redis key key est actual s',
    list_beq_iff key key,
  )
  History-Balanced s owed paid over (elsewhere_charge s' _ _ _ est k other d h) = ground (
    arith,
    d,
    History-Balanced s' owed paid over h,
    reserved-reserve_script redis k key other est s',
    spent-reserve_script redis k key other est s',
  )
  History-Balanced s owed paid over (elsewhere_settle s' _ _ _ est actual k d h) = ground (
    arith,
    d,
    History-Balanced s' owed paid over h,
    reserved-reconcile_script redis k key est actual s',
    spent-reconcile_script redis k key est actual s',
  )
