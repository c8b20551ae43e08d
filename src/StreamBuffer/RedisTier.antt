-- ===== src/StreamBuffer/RedisTier.antt =====
-- An append to Redis adds the chunk to the tiers of its key and to no others.
use agent_studio.Base.{
  ℕ, ◌+◌, ◌≤◌, ◌≡◌, ◌∙◌, ◌⊎◌, sym, ap, subst, refl, true, false, inl, inr, [], ◌∷◌, ◌++◌, arith,
  append_assoc, take, drop, length, ◌==◌, Bool-cases, if◌then◌else◌,
}
use agent_studio.Base.Eq.{Eq}
use agent_studio.StreamBuffer.{Config, Buffer, excess, spill_overflow, append_redis}
use agent_studio.StreamBuffer.Stores.{Chunk, ListStore, ChunkTable}
use agent_studio.StreamBuffer.Replay.{Ascends}
use agent_studio.StreamBuffer.Log.{IsAlive}
use agent_studio.StreamBuffer.Refine.{
  IsLossless, tiers, spill-other, spill-unused, moved, excess-lossless, beq_self, Adds,
}

module _ {K P R T : Type 0} ⦃e : Eq K⦄ (lists : ListStore K P R) (rows : ChunkTable K P T)
    (cfg : Config) where
  module _ (until now : ℕ) (early : now ≤ until) (late : until ≤ now + cfg.ttl_seconds) (k : K)
      (c : Chunk P) where
    lrange-push :
        (j : K) (r : R)
        → lists.lrange j (lists.rpush k c r)
          ≡ (if e.beq k j then lists.lrange j r ++ (c ∷ []) else lists.lrange j r)
    lrange-push j r = lists.lrange-rpush j k c r

    abbrev trimmed : ℕ → R → R
    trimmed n r = if n == 0 then r else lists.ltrim k n r

    trimmed-same : (n : ℕ) (r : R) → lists.lrange k (trimmed n r) ≡ drop n (lists.lrange k r)
    trimmed-same n r = elim (Bool-cases (n == 0)) [
      | inl p ↦ rw p (let q : n ≡ 0 = ground arith in rw q refl)
      | inr p ↦ rw (p, lists.lrange-ltrim k k n r, beq_self lists rows cfg k) refl
    ]

    trimmed-other :
        (j : K) (n : ℕ) (r : R)
        → e.beq k j ≡ false
        → lists.lrange j (trimmed n r) ≡ lists.lrange j r
    trimmed-other j n r h = elim (Bool-cases (n == 0)) [
      | inl p ↦ rw p refl
      | inr p ↦ rw (p, lists.lrange-ltrim j k n r, h) refl
    ]

    pushed_same : (r : R) → lists.lrange k (lists.rpush k c r) ≡ lists.lrange k r ++ (c ∷ [])
    pushed_same r = rw (lrange-push k r, beq_self lists rows cfg k) refl

    redis_tiers :
        (n : ℕ) (b : Buffer K P R T)
        → let all = lists.lrange k b.redis ++ (c ∷ []) in
          (cfg.has_db ≡ true) ⊎ (take n all ≡ [])
          → Ascends (rows.select k b.table ++ all)
          → (j : K)
          → rows.select j (spill_overflow lists rows cfg true k (take n all) b.table)
              ++ lists.lrange j (trimmed n (lists.rpush k c b.redis))
            ≡ (if e.beq k j
                then rows.select j b.table ++ lists.lrange j b.redis ++ (c ∷ [])
                else rows.select j b.table ++ lists.lrange j b.redis)
    redis_tiers n b safe asc j =
        let all = lists.lrange k b.redis ++ (c ∷ []) in
        elim (Bool-cases (e.beq k j)) [
          | inl p ↦ rw p (
              subst
                (λ x.
                  rows.select x (spill_overflow lists rows cfg true k (take n all) b.table)
                    ++ lists.lrange x (trimmed n (lists.rpush k c b.redis))
                  ≡ rows.select x b.table ++ lists.lrange x b.redis ++ (c ∷ []))
                ((e.beq_iff k j).0 p)
                (ap
                    (λ r.
                      rows.select k (spill_overflow lists rows cfg true k (take n all) b.table)
                      ++ r)
                    (trimmed-same n (lists.rpush k c b.redis) ∙ ap (drop n) (pushed_same b.redis))
                  ∙ moved lists rows cfg n k all b.table safe asc
                  ∙ sym (append_assoc (rows.select k b.table) (lists.lrange k b.redis) (c ∷ []))))
          | inr p ↦
              rw
                (
                  p,
                  spill-other lists rows cfg j k (take n all) b.table p,
                  trimmed-other j n (lists.rpush k c b.redis) p,
                  lrange-push j b.redis,
                  p,
                )
                refl
        ]

    pub append_redis-Adds :
        (b : Buffer K P R T)
        → b.redis_available ≡ true
        → IsAlive until b.memory
        → IsLossless lists rows cfg
        → Ascends (tiers lists rows cfg k b ++ (c ∷ []))
        → Adds lists rows cfg until now early late k c b (append_redis lists rows cfg true k c b)
    unfolding append_redis
    append_redis-Adds b live alive safe asc =
        let all = lists.lrange k b.redis ++ (c ∷ []) in
        let n = excess cfg.overflow_max_chunks (length all) in
        rw (pushed_same b.redis, live)
          (
            refl,
            redis_tiers n b (excess-lossless lists rows cfg (length all) all safe)
                (rw (live, append_assoc) at asc),
            alive,
            λ h. spill-unused lists rows cfg k (take n all) b.table h,
          )
