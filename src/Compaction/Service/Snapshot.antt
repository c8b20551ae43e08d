-- ===== src/Compaction/Service/Snapshot.antt =====
-- `_snapshot` of backend/app/application/compaction/service.py reads the log from its oldest message.
use agent_studio.Base.{
  ℕ, zero, suc, ◌+◌, ◌<◌, ◌≤◌, ◌≡◌, ◌∙◌, sym, ap, subst, refl, false, inl, inr, ◌⊎◌, Option, none,
  some, List, [], ◌∷◌, ◌++◌, length, take, drop, ltb, leb, All, length-append, length-take-le,
  append_assoc, take-append-drop, Bool-cases, arith, lt→ltb, leb→le, not_leb→lt,
}
use mathlib.Core.Option.{some-injective}
use agent_studio.Base.Eq.{filter_by}
use agent_studio.Compaction.Summary.{Turn}
use agent_studio.Compaction.Service.{Config, after, last, seq_of, pages, page_size, snapshot}

-- The messages of a log have numbers that ascend.
abbrev pub IsAscending : List Turn → Type 0
IsAscending [] = Unit
IsAscending (m ∷ ms) = All (λ (n : Turn). m.seq < n.seq) ms × IsAscending ms

All-last :
    (k : ℕ) (xs ys : List Turn) (m : Turn)
    → All (λ (n : Turn). k < n.seq) (xs ++ ys)
    → last xs ≡ some m
    → k < m.seq
All-last k [] ys m a e = absurd cc
All-last k (x ∷ []) ys m (p, a) e = subst (λ (n : Turn). k < n.seq) (some-injective x m e) p
All-last k (x ∷ y ∷ xs) ys m (p, a) e = All-last k (y ∷ xs) ys m a e

irreflexive : (n : ℕ) → ltb n n ≡ false
irreflexive n = ground arith

below : (a b : ℕ) → a < b → ltb b a ≡ false
below a b h = ground arith

filter_above :
    (s : ℕ) (ys : List Turn)
    → All (λ (n : Turn). s < n.seq) ys
    → filter_by (λ (n : Turn). ltb s n.seq) ys ≡ ys
unfolding filter_by
filter_above s [] a = refl
filter_above s (y ∷ ys) (p, a) = rw (lt→ltb s y.seq p) (rw (filter_above s ys a) refl)

-- What comes after the last of the first messages is what is left.
after-last :
    (xs ys : List Turn) (m : Turn)
    → IsAscending (xs ++ ys)
    → last xs ≡ some m
    → after (some m.seq) (xs ++ ys) ≡ ys
unfolding filter_by
after-last [] ys m a e = absurd cc
after-last (x ∷ []) ys m (p, a) e =
    subst (λ (n : Turn). after (some n.seq) (x ∷ ys) ≡ ys) (some-injective x m e)
      (rw (irreflexive x.seq) (filter_above x.seq ys p))
after-last (x ∷ y ∷ xs) ys m (p, a) e =
    let h = All-last x.seq (y ∷ xs) ys m p e in
    rw (below x.seq m.seq h) (after-last (y ∷ xs) ys m a e)

last-append : (xs : List Turn) (y : Turn) (ys : List Turn) → last (xs ++ (y ∷ ys)) ≡ last (y ∷ ys)
last-append [] y ys = refl
last-append (x ∷ []) y ys = refl
last-append (x ∷ z ∷ xs) y ys = last-append (z ∷ xs) y ys

last_exists : (y : Turn) (ys : List Turn) → (m : Turn) × (last (y ∷ ys) ≡ some m)
last_exists y [] = (y, refl)
last_exists y (z ∷ ys) = last_exists z ys

-- A page is what is left, if it has no more, and else as much of it as a page may have.
page_of : (limit : ℕ) (xs : List Turn) → take limit (take (suc limit) xs) ≡ take limit xs
page_of zero xs = refl
page_of (suc n) [] = refl
page_of (suc n) (x ∷ xs) = ap (λ ys. x ∷ ys) (page_of n xs)

last_page :
    (limit : ℕ) (xs : List Turn)
    → ltb limit (length (take (suc limit) xs)) ≡ false
    → drop limit xs ≡ []
last_page zero [] h = refl
last_page zero (x ∷ xs) h = absurd (ground arith)
last_page (suc n) [] h = refl
last_page (suc n) (x ∷ xs) h = last_page n xs (ground arith)

no_page : (limit : ℕ) (xs : List Turn) → 0 < limit → take limit xs ≡ [] → xs ≡ []
no_page zero xs h p = absurd (omega arith)
no_page (suc n) [] h p = refl
no_page (suc n) (x ∷ xs) h p = absurd cc

page_cases : (xs : List Turn) → (xs ≡ []) ⊎ ((y : Turn) × (ys : List Turn) × (xs ≡ y ∷ ys))
page_cases [] = inl refl
page_cases (y ∷ ys) = inr (y, ys, refl)

-- What was read is the log up to some message; it is all of the log, or as much as was asked for,
-- and less than a page more than that.
abbrev pub IsRead : ℕ → ℕ → List Turn → List Turn → Type 0
IsRead most limit log messages =
    (rest : List Turn) × (messages ++ rest ≡ log)
    × ((rest ≡ []) ⊎ (most ≤ length messages))
    × (length messages < most + limit)

module _ (most limit : ℕ) (positive : 0 < limit) (log : List Turn)
    (ascending : IsAscending log) where
  page-IsRead :
      (messages rest : List Turn)
      → messages ++ rest ≡ log
      → length messages < most
      → ltb limit (length (take (suc limit) rest)) ≡ false
      → IsRead most limit log (messages ++ take limit rest)
  page-IsRead messages rest e l h =
      let t = take-append-drop limit rest in
      let d = last_page limit rest h in
      let a = length-append messages (take limit rest) in
      let b = length-take-le limit rest in
      (
        drop limit rest,
        append_assoc messages (take limit rest) (drop limit rest)
            ∙ (ap (λ xs. messages ++ xs) t ∙ e),
        inl d,
        omega arith,
      )

  after_page :
      (messages : List Turn) (y : Turn) (ys rest : List Turn)
      → (messages ++ (y ∷ ys)) ++ rest ≡ log
      → after (seq_of (last (y ∷ ys))) log ≡ rest
  after_page messages y ys rest e =
      let (m, q) = last_exists y ys in
      rw q (
        subst (λ l. after (some m.seq) l ≡ rest) e
          (after-last (messages ++ (y ∷ ys)) rest m (subst IsAscending (sym e) ascending)
            (last-append messages y ys ∙ q)))

  next_rest :
      (messages : List Turn) (y : Turn) (ys rest : List Turn)
      → messages ++ rest ≡ log
      → take limit rest ≡ y ∷ ys
      → (messages ++ (y ∷ ys)) ++ drop limit rest ≡ log
  next_rest messages y ys rest e g =
      let t = subst (λ xs. xs ++ drop limit rest ≡ rest) g (take-append-drop limit rest) in
      append_assoc messages (y ∷ ys) (drop limit rest) ∙ (ap (λ xs. messages ++ xs) t ∙ e)

  next_length :
      (messages : List Turn) (y : Turn) (ys rest : List Turn)
      → take limit rest ≡ y ∷ ys
      → (length messages < length (messages ++ (y ∷ ys)))
        × (length (messages ++ (y ∷ ys)) ≤ length messages + limit)
  next_length messages y ys rest g =
      let a = length-append messages (y ∷ ys) in
      let b = subst (λ xs. length xs ≤ limit) g (length-take-le limit rest) in
      (omega arith, omega arith)

  pages-IsRead :
      (fuel : ℕ) (after_seq : Option ℕ) (messages rest : List Turn)
      → messages ++ rest ≡ log
      → after after_seq log ≡ rest
      → most ≤ length messages + fuel
      → length messages < most + limit
      → IsRead most limit log (pages fuel most limit after_seq messages log)
  unfolding pages
  pages-IsRead zero after_seq messages rest e q f l = (rest, e, inr (omega arith), l)
  pages-IsRead (suc fuel) after_seq messages rest e q f l =
      elim (Bool-cases (leb most (length messages))) [
        | inl p ↦ rw p (rest, e, inr (leb→le most _ p), l)
        | inr p ↦ rw p (
            rw q (
              rw (page_of limit rest) (elim (page_cases (take limit rest)) [
                | inl g ↦ rw g (rest, e, inl (no_page limit rest positive g), l)
                | inr (y, ys, g) ↦
                    rw g (elim (Bool-cases (ltb limit (length (take (suc limit) rest)))) [
                      | inl h ↦ rw h (
                          let j = next_rest messages y ys rest e g in
                          let (more, less) = next_length messages y ys rest g in
                          let lt = not_leb→lt most (length messages) p in
                          pages-IsRead fuel (seq_of (last (y ∷ ys))) (messages ++ (y ∷ ys))
                            (drop limit rest) j (after_page messages y ys (drop limit rest) j)
                            (omega arith) (omega arith))
                      | inr h ↦ rw h (
                          subst (λ page. IsRead most limit log (messages ++ page)) g
                            (page-IsRead messages rest e (not_leb→lt most _ p) h))
                    ])
              ])))
      ]

-- The snapshot of a log whose numbers ascend is the log from its first message on: all of it, or at
-- least max_snapshot_messages, and fewer than these and a page. The newest messages of a longer log
-- are what is left out.
pub snapshot-IsRead :
    (c : Config) (log : List Turn)
    → IsAscending log
    → IsRead c.max_snapshot_messages page_size log (snapshot c log)
unfolding snapshot
snapshot-IsRead c log a =
    pages-IsRead c.max_snapshot_messages page_size (omega arith) log a (suc c.max_snapshot_messages)
      none [] log refl refl (omega arith) (omega arith)
