-- ===== src/Session/Tokens/Lifetime.antt =====
-- The life of a session token of backend/app/session/tokens.py: minted, resolved, revoked, expired.
use agent_studio.Base.{
  ℕ, ◌≡◌, ◌⊎◌, refl, Bool, true, false, inl, inr, Option, none, some, List, [], ◌∷◌, leb, is_some,
  All, Bool-cases, if◌then◌else◌,
}
use agent_studio.Base.Eq.{nat_eq, list_eq, list_beq, list_beq_iff}
use agent_studio.Base.Text.{Text}
use agent_studio.Session.Tokens.{
  Claims, Cipher, TokenRow, TokenTable, EndUsers, MintRequest, Resolution, invalid, expired,
  revoked, principal, principal_of, or_default, mint_for, mint, resolve, revoke, revoke_row,
  revoke_principal, check_row, check_claims,
}

module _ {S Tok : Type 0} (cipher : Cipher Tok) (table : TokenTable S) (users : EndUsers)
    (ttl : ℕ) where
  pub beq_self : (t : Text) → list_beq t t ≡ true
  beq_self t = (list_beq_iff t t).1 refl

  -- The row of the token is in the table and is revoked.
  abbrev pub IsRevoked : Text → S → Type 0
  IsRevoked jti s = (r : TokenRow) × (table.find jti s ≡ some r) × (is_some r.revoked_at ≡ true)

  -- What the service does after the revocation of a token: it mints others and revokes any.
  pub data Call : Type 0 where
    mints : (jti : Text) (nonce now : ℕ) → MintRequest → Call
    revokes : (now : ℕ) (token : Tok) → Call

  abbrev pub step : Call → S → S
  step (mints jti nonce now q) s = (mint cipher table users ttl jti nonce now q s).0
  step (revokes now token) s = (revoke cipher table now token s).0

  abbrev pub steps : List Call → S → S
  steps [] s = s
  steps (c ∷ cs) s = steps cs (step c s)

  -- The identifiers of new tokens are new.
  abbrev pub IsNew : Text → Call → Type 0
  IsNew jti (mints j nonce now q) = list_beq j jti ≡ false
  IsNew jti (revokes now token) = Unit

  mint_for-IsRevoked :
      (jti j : Text) (nonce now life : ℕ) (q : MintRequest) (user : Option Text) (s : S)
      → list_beq j jti ≡ false
      → IsRevoked jti s
      → IsRevoked jti (mint_for cipher table j nonce now life q user s).0
  unfolding mint_for
  mint_for-IsRevoked jti j nonce now life q none s new h = h
  mint_for-IsRevoked jti j nonce now life q (some user) s new (r, found, dead) =
      (r, rw (table.find-write jti j _ s, new) found, dead)

  write-IsRevoked :
      (jti j : Text) (now : ℕ) (r : TokenRow) (s : S)
      → IsRevoked jti s
      → IsRevoked jti (table.write j (record r { revoked_at = some now }) s)
  write-IsRevoked jti j now r s (old, found, dead) =
      let w = record r { revoked_at = some now } in
      elim (Bool-cases (list_beq j jti)) [
        | inl p ↦ (w, rw (table.find-write jti j w s, p) refl, refl)
        | inr p ↦ (old, rw (table.find-write jti j w s, p) found, dead)
      ]

  revoke_row-IsRevoked :
      (jti j : Text) (now : ℕ) (o : Option TokenRow) (s : S)
      → IsRevoked jti s
      → IsRevoked jti (revoke_row cipher table now j o s).0
  revoke_row-IsRevoked jti j now none s h = h
  revoke_row-IsRevoked jti j now (some r) s h = elim (Bool-cases (is_some r.revoked_at)) [
    | inl p ↦ rw p h
    | inr p ↦ rw p (write-IsRevoked jti j now r s h)
  ]

  revoke_principal-IsRevoked :
      (jti : Text) (now : ℕ) (o : Resolution) (s : S)
      → IsRevoked jti s
      → IsRevoked jti (revoke_principal cipher table now o s).0
  revoke_principal-IsRevoked jti now (principal p) s h =
      revoke_row-IsRevoked jti p.token_id now (table.find p.token_id s) s h
  revoke_principal-IsRevoked jti now _ s h = h

  step-IsRevoked :
      (jti : Text) (c : Call) (s : S) → IsNew jti c → IsRevoked jti s → IsRevoked jti (step c s)
  unfolding mint revoke
  step-IsRevoked jti (mints j nonce now q) s new h =
      mint_for-IsRevoked jti j nonce now (or_default ttl q.ttl_seconds) q _ s new h
  step-IsRevoked jti (revokes now token) s new h =
      revoke_principal-IsRevoked jti now (resolve cipher table now token s) s h

  steps-IsRevoked :
      (jti : Text) (cs : List Call) (s : S)
      → All (IsNew jti) cs
      → IsRevoked jti s
      → IsRevoked jti (steps cs s)
  steps-IsRevoked jti [] s new h = h
  steps-IsRevoked jti (c ∷ cs) s (n, new) h =
      steps-IsRevoked jti cs (step c s) new (step-IsRevoked jti c s n h)

  -- A revocation that succeeds found a live row and wrote to it.
  revoke_row-done :
      (jti : Text) (now : ℕ) (o : Option TokenRow) (s : S)
      → (revoke_row cipher table now jti o s).1 ≡ true
      → IsRevoked jti (revoke_row cipher table now jti o s).0
  revoke_row-done jti now none s h = cc
  revoke_row-done jti now (some r) s h = elim (Bool-cases (is_some r.revoked_at)) [
    | inl p ↦ absurd (cc (rw p at h))
    | inr p ↦ rw p (
      record r { revoked_at = some now },
      rw (table.find-write jti jti (record r { revoked_at = some now }) s, beq_self jti) refl,
      refl,
    )
  ]

  unfoldable pub is_principal : Resolution → Bool
  is_principal (principal p) = true
  is_principal _ = false

  -- What resolves at all resolves to the principal of its claims.
  check_row-principal :
      (c : Claims) (o : Option TokenRow)
      → (check_row cipher table c o ≡ principal (principal_of c))
        ⊎ (is_principal (check_row cipher table c o) ≡ false)
  unfolding is_principal
  check_row-principal c none = inr refl
  check_row-principal c (some r) = elim (Bool-cases (is_some r.revoked_at)) [
    | inl p ↦ rw p (inr refl)
    | inr p ↦ elim (Bool-cases (list_beq r.tenant_id c.tenant_id)) [
      | inl q ↦ rw (p, q) (inl refl)
      | inr q ↦ rw (p, q) (inr refl)
    ]
  ]

  pub check_claims-principal :
      (c : Claims) (now : ℕ) (s : S)
      → (check_claims cipher table now (some c) s ≡ principal (principal_of c))
        ⊎ (is_principal (check_claims cipher table now (some c) s) ≡ false)
  unfolding is_principal
  check_claims-principal c now s = elim (Bool-cases (leb c.exp now)) [
    | inl p ↦ rw p (inr refl)
    | inr p ↦ rw p (check_row-principal c (table.find c.jti s))
  ]

  revoke_principal-none :
      (now : ℕ) (o : Resolution) (s : S)
      → is_principal o ≡ false
      → (revoke_principal cipher table now o s).1 ≡ false
  unfolding is_principal
  revoke_principal-none now (principal p) s h = cc
  revoke_principal-none now invalid s h = refl
  revoke_principal-none now expired s h = refl
  revoke_principal-none now revoked s h = refl

  revoke_principal-done :
      (c : Claims) (now : ℕ) (o : Resolution) (s : S)
      → (o ≡ principal (principal_of c)) ⊎ (is_principal o ≡ false)
      → (revoke_principal cipher table now o s).1 ≡ true
      → IsRevoked c.jti (revoke_principal cipher table now o s).0
  revoke_principal-done c now o s (inl p) h =
      rw p (revoke_row-done c.jti now (table.find c.jti s) s (rw p at h))
  revoke_principal-done c now o s (inr p) h = let q = revoke_principal-none now o s p in absurd (cc)

  revoke-done :
      (c : Claims) (now : ℕ) (token : Tok) (s : S)
      → cipher.decrypt token ≡ some c
      → (revoke cipher table now token s).1 ≡ true
      → IsRevoked c.jti (revoke cipher table now token s).0
  unfolding revoke resolve
  revoke-done c now token s d h = rw d (
      revoke_principal-done c now (check_claims cipher table now (some c) s) s
        (check_claims-principal c now s) (rw d at h))

  resolve-IsRevoked :
      (c : Claims) (now : ℕ) (token : Tok) (s : S)
      → cipher.decrypt token ≡ some c
      → IsRevoked c.jti s
      → resolve cipher table now token s ≡ (if leb c.exp now then expired else revoked)
  unfolding resolve
  resolve-IsRevoked c now token s d (r, found, dead) = rw (d, found, dead) refl

  -- A revocation that succeeds is final. Whatever the service does afterwards, as long as the
  -- identifiers of new tokens are new, the token is rejected: as revoked until its time is over,
  -- and as expired from then on.
  pub resolve-revoke :
      (c : Claims) (now later : ℕ) (token : Tok) (s : S) (cs : List Call)
      → cipher.decrypt token ≡ some c
      → (revoke cipher table now token s).1 ≡ true
      → All (IsNew c.jti) cs
      → resolve cipher table later token (steps cs (revoke cipher table now token s).0)
        ≡ (if leb c.exp later then expired else revoked)
  resolve-revoke c now later token s cs d done new =
      resolve-IsRevoked c later token (steps cs (revoke cipher table now token s).0) d (
        steps-IsRevoked c.jti cs (revoke cipher table now token s).0 new
          (revoke-done c now token s d done))
