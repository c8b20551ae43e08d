-- ===== src/Compaction/Summary/Chunks.antt =====
-- `_chunk_turns` of backend/app/application/compaction/service.py cuts a head into chunks that fit.
use agent_studio.Base.{
  ℕ, ◌+◌, ◌<◌, ◌≤◌, ◌≡◌, ◌∙◌, ap, refl, Bool, true, false, Option, none, some, List, [], ◌∷◌, ◌++◌,
  ltb, All, append_assoc, if◌then◌else◌, arith, lt→ltb,
}
use agent_studio.Base.Text.{Text, nonempty}
use agent_studio.Compaction.Summary.{Turn, chunk_from, chunk_turns}

abbrev pub concat {ℓ} : {A : Type ℓ} → List (List A) → List A
concat [] = []
concat (c ∷ cs) = c ++ concat cs

if_none {ℓ} : {A : Type ℓ} (b : Bool) → ◌≡◌ {A = Option A} (if b then none else none) none
if_none true = refl
if_none false = refl

abbrev pub total : (Text → ℕ) → List Turn → ℕ
total estimate [] = 0
total estimate (t ∷ ts) = estimate t.redacted_content + total estimate ts

pub total-append :
    (estimate : Text → ℕ) (xs ys : List Turn)
    → total estimate (xs ++ ys) ≡ total estimate xs + total estimate ys
total-append estimate [] ys = omega arith
total-append estimate (x ∷ xs) ys = let h = total-append estimate xs ys in omega arith

module _ (estimate : Text → ℕ) (window : ℕ) where
  abbrev pub Fits : List Turn → Type 0
  Fits c = (nonempty c ≡ true) × (total estimate c ≤ window)

  abbrev pub Small : Turn → Type 0
  Small t = estimate t.redacted_content ≤ window

  abbrev Cut : List Turn → List Turn → Option (List (List Turn)) → Type 0
  Cut current ts r =
      (cs : List (List Turn)) × (r ≡ some cs) × (concat cs ≡ current ++ ts) × All Fits cs

  Cut-next :
      (t : Turn) (current ts : List Turn) (r : Option (List (List Turn))) (small cut : Bool)
      → small ≡ false
      → (cut ≡ true → Fits current)
      → Cut (if cut then t ∷ [] else current ++ (t ∷ [])) ts r
      → Cut current (t ∷ ts) (
          if small
          then none
          else elim r [ none ↦ none | some cs ↦ some (if cut then current ∷ cs else cs) ])
  Cut-next t current ts r small true s f (cs, p, q, a) =
      rw s (rw p (current ∷ cs, refl, ap (λ xs. current ++ xs) q, (f refl, a)))
  Cut-next t current ts r small false s f (cs, p, q, a) =
      rw s (rw p (cs, refl, q ∙ append_assoc current (t ∷ []) ts, a))

  next_total :
      (t : Turn) (current : List Turn) (acc : ℕ) (cut : Bool)
      → total estimate current ≡ acc
      → total estimate (if cut then t ∷ [] else current ++ (t ∷ []))
        ≡ (if cut then estimate t.redacted_content else acc + estimate t.redacted_content)
  next_total t current acc true h = omega arith
  next_total t current acc false h = let g = total-append estimate current (t ∷ []) in omega arith

  next_le :
      (t : Turn) (acc : ℕ) (cut : Bool)
      → Small t
      → (cut ≡ false → acc + estimate t.redacted_content ≤ window)
      → (if cut then estimate t.redacted_content else acc + estimate t.redacted_content) ≤ window
  next_le t acc true s h = s
  next_le t acc false s h = h refl

  not_over : (t : Turn) → Small t → ltb window (estimate t.redacted_content) ≡ false
  not_over t s = ground arith

  chunk_from-Cut :
      (ts current : List Turn) (acc : ℕ)
      → All Small ts
      → total estimate current ≡ acc
      → acc ≤ window
      → Cut current ts (chunk_from estimate window current acc ts)
  unfolding chunk_from
  chunk_from-Cut [] [] acc s e h = ([], refl, refl, tt)
  chunk_from-Cut [] (c ∷ current) acc s e h =
      ((c ∷ current) ∷ [], refl, refl, ((refl, omega arith), tt))
  chunk_from-Cut (t ∷ ts) [] acc (s, ss) e h =
      Cut-next t [] ts _ _ false (not_over t s) (λ p. absurd (cc))
        (chunk_from-Cut ts (t ∷ []) (acc + estimate t.redacted_content) ss (omega arith)
          (omega arith))
  chunk_from-Cut (t ∷ ts) (c ∷ current) acc (s, ss) e h =
      let cut = ltb window (acc + estimate t.redacted_content) in
      Cut-next t (c ∷ current) ts _ _ cut (not_over t s) (λ p. (refl, omega arith))
        (chunk_from-Cut ts _ _ ss (next_total t (c ∷ current) acc cut e)
          (next_le t acc cut s (λ p. ground arith)))

  chunk_from_over :
      (pre : List Turn) (t : Turn) (post current : List Turn) (acc : ℕ)
      → window < estimate t.redacted_content
      → chunk_from estimate window current acc (pre ++ (t ∷ post)) ≡ none
  unfolding chunk_from
  chunk_from_over [] t post current acc h = rw (lt→ltb window (estimate t.redacted_content) h) refl
  chunk_from_over (p ∷ pre) t post current acc h =
      rw (chunk_from_over pre t post _ _ h) (if_none (ltb window (estimate p.redacted_content)))

-- What chunks of some turns are, and when there are none.
abbrev pub IsChunked : (Text → ℕ) → ℕ → List Turn → Option (List (List Turn)) → Type 0
IsChunked estimate window turns r =
    (All (Small estimate window) turns
      → (cs : List (List Turn)) × (r ≡ some cs)
        × (concat cs ≡ turns)
        × All (Fits estimate window) cs)
    × ((pre post : List Turn) (t : Turn)
        → turns ≡ pre ++ (t ∷ post)
        → window < estimate t.redacted_content
        → r ≡ none)

-- If every turn fits the window by itself, the chunks are the turns in their order, none of them is
-- empty and each one fits the window; if one does not, there are no chunks.
pub chunk_turns_lem :
    (estimate : Text → ℕ) (window : ℕ) (turns : List Turn)
    → IsChunked estimate window turns (chunk_turns estimate window turns)
chunk_turns_lem estimate window turns = (
  λ s. chunk_from-Cut estimate window turns [] 0 s refl (omega arith),
  λ pre post t p h. rw p (chunk_from_over estimate window pre t post [] 0 h),
)
