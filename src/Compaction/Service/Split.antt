-- ===== src/Compaction/Service/Split.antt =====
-- `_split` of backend/app/application/compaction/service.py keeps the newest messages that fit.
use agent_studio.Base.{
  ℕ, ◌+◌, ◌<◌, ◌≤◌, ◌≡◌, ◌∙◌, sym, ap, subst, refl, inl, inr, ◌⊎◌, List, [], ◌∷◌, ◌++◌, reverse,
  length, take, drop, ltb, length-append, Bool-cases, arith, ltb→lt, not_ltb→le,
}
use mathlib.Core.List.{reverse-append, reverse-reverse}
use agent_studio.Base.Text.{Text}
use agent_studio.Compaction.Summary.{Turn}
use agent_studio.Compaction.Summary.Chunks.{total, total-append}
use agent_studio.Compaction.Service.{head_size, split}

take-length {ℓ} : {A : Type ℓ} (xs ys : List A) → take (length xs) (xs ++ ys) ≡ xs
take-length [] ys = refl
take-length (x ∷ xs) ys = ap (λ zs. x ∷ zs) (take-length xs ys)

drop-length {ℓ} : {A : Type ℓ} (xs ys : List A) → drop (length xs) (xs ++ ys) ≡ ys
drop-length [] ys = refl
drop-length (x ∷ xs) ys = drop-length xs ys

length-reverse {ℓ} : {A : Type ℓ} (xs : List A) → length (reverse xs) ≡ length xs
length-reverse [] = refl
length-reverse (x ∷ xs) =
    let p = ap length (reverse-append (x ∷ []) xs) in
    let q = length-append (reverse xs) (x ∷ []) in let h = length-reverse xs in omega arith

module _ (estimate : Text → ℕ) (keep : ℕ) where
  total-reverse : (xs : List Turn) → total estimate (reverse xs) ≡ total estimate xs
  total-reverse [] = refl
  total-reverse (x ∷ xs) =
      let p = ap (total estimate) (reverse-append (x ∷ []) xs) in
      let q = total-append estimate (reverse xs) (x ∷ []) in let h = total-reverse xs in omega arith

  -- The next message of the head would have been too much.
  abbrev Over : ℕ → List Turn → Type 0
  Over tokens [] = Unit
  Over tokens (m ∷ older) = keep < tokens + estimate m.redacted_content

  abbrev Kept : ℕ → List Turn → ℕ → Type 0
  Kept acc r n =
      (tail head : List Turn) × (r ≡ tail ++ head)
      × (n ≡ length head)
      × (acc + total estimate tail ≤ keep)
      × Over (acc + total estimate tail) head

  head_size-Kept :
      (r : List Turn) (acc : ℕ) → acc ≤ keep → Kept acc r (head_size estimate keep acc r)
  unfolding head_size
  head_size-Kept [] acc h = ([], [], refl, refl, omega arith, tt)
  head_size-Kept (m ∷ r) acc h = elim (Bool-cases (ltb keep (acc + estimate m.redacted_content))) [
    | inl p ↦ rw p ([], m ∷ r, refl, refl, omega arith, let l = ltb→lt keep _ p in omega arith)
    | inr p ↦
        let (tail, head, q, n, le, o) =
          head_size-Kept r (acc + estimate m.redacted_content) (not_ltb→le keep _ p) in
        rw p (
          m ∷ tail,
          head,
          ap (λ xs. m ∷ xs) q,
          n,
          omega arith,
          subst (λ k. Over k head) (omega arith) o,
        )
  ]

  -- The head ends where the tail would no longer fit.
  abbrev pub IsCut : List Turn → List Turn → Type 0
  IsCut head tail =
      (head ≡ [])
      ⊎ ((pre : List Turn) × (m : Turn) × (head ≡ pre ++ (m ∷ []))
          × (keep < total estimate tail + estimate m.redacted_content))

  Over-IsCut :
      (tail head : List Turn)
      → Over (0 + total estimate tail) head
      → IsCut (reverse head) (reverse tail)
  Over-IsCut tail [] o = inl refl
  Over-IsCut tail (m ∷ head) o =
      let e = total-reverse tail in inr (reverse head, m, reverse-append (m ∷ []) head, omega arith)

  abbrev pub IsSplit : List Turn → List Turn × List Turn → Type 0
  IsSplit messages (head, tail) =
      (head ++ tail ≡ messages) × (total estimate tail ≤ keep) × IsCut head tail

  IsSplit-at :
      (messages tail head : List Turn)
      → reverse messages ≡ tail ++ head
      → (n : ℕ) → n ≡ length head
      → 0 + total estimate tail ≤ keep
      → Over (0 + total estimate tail) head
      → IsSplit messages (take n messages, drop n messages)
  IsSplit-at messages tail head q n p le o =
      let e = sym (reverse-reverse messages) ∙ (ap reverse q ∙ reverse-append tail head) in
      let l = p ∙ sym (length-reverse head) in
      let t = total-reverse tail in
      rw e (
        rw l (
          rw (take-length (reverse head) (reverse tail)) (
            rw (drop-length (reverse head) (reverse tail))
              (refl, omega arith, Over-IsCut tail head o))))

-- A head and a tail that `_split` gives are the messages in their order; the tail is within the
-- tokens to keep, and the last message of the head, if there is one, would exceed them.
pub split_lem :
    (estimate : Text → ℕ) (keep : ℕ) (messages : List Turn)
    → IsSplit estimate keep messages (split estimate keep messages)
split_lem estimate keep messages =
    let (tail, head, q, n, le, o) =
      head_size-Kept estimate keep (reverse messages) 0 (omega arith) in
    IsSplit-at estimate keep messages tail head q _ n le o
