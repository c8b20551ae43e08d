-- ===== src/Session/Tokens/Minting.antt =====
-- What a minted token of backend/app/session/tokens.py resolves to.
use agent_studio.Base.{
  ℕ, zero, suc, ◌+◌, ◌<◌, ◌≡◌, ◌⊎◌, ◌∙◌, sym, refl, true, false, inl, inr, Option, none, some, List,
  [], ◌∷◌, ◌++◌, leb, is_some, All, Bool-cases, Option-cases, if◌then◌else◌, arith,
}
use mathlib.Core.Option.{some-injective}
use agent_studio.Base.Eq.{nat_eq, list_eq, list_beq}
use agent_studio.Base.Text.{Text, codes, nonempty}
use agent_studio.Session.Tokens.{
  Claims, Cipher, TokenRow, TokenTable, EndUsers, MintRequest, Minted, unknown_end_user, minted,
  device_user, user_of, Resolution, invalid, expired, revoked, principal, principal_of, claims_for,
  or_default, mint_for, mint, resolve, revoke, revoke_row, revoke_principal,
}
use agent_studio.Session.Tokens.Lifetime.{
  beq_self, is_principal, check_claims-principal, Call, mints, revokes, steps,
}

-- A text that is missing or empty.
abbrev pub IsAbsent : Option Text → Type 0
IsAbsent none = Unit
IsAbsent (some []) = Unit
IsAbsent (some (c ∷ t)) = ⊥

-- The end user that a request is for: the one that it names, who exists, or the anonymous one of its
-- device if it names none.
abbrev pub IsFor : EndUsers → MintRequest → Text → Type 0
IsFor users q user =
    ((nonempty user ≡ true) × (q.end_user_id ≡ some user) × (users.exists q.tenant_id user ≡ true))
    ⊎ (IsAbsent q.end_user_id
        × ((device : Text) × (nonempty device ≡ true)
            × (q.device_id ≡ some device)
            × (user ≡ users.anonymous q.tenant_id (codes "anon:" ++ device))))

-- How long a token lives: the time that is asked for, or the default if there is none or 0.
abbrev pub IsLife : ℕ → Option ℕ → ℕ → Type 0
IsLife default asked life =
    ((asked ≡ some life) × (0 < life)) ⊎ (((asked ≡ none) ⊎ (asked ≡ some 0)) × (life ≡ default))

or_default-IsLife :
    (default : ℕ) (asked : Option ℕ) → IsLife default asked (or_default default asked)
or_default-IsLife default none = inr (inl refl, refl)
or_default-IsLife default (some zero) = inr (inr refl, refl)
or_default-IsLife default (some (suc n)) = inl (refl, omega arith)

abbrev IsForSome : EndUsers → MintRequest → Option Text → Type 0
IsForSome users q none = (user : Text) → ¬ IsFor users q user
IsForSome users q (some user) = IsFor users q user

named : (o : Option Text) (user : Text) → IsAbsent o → nonempty user ≡ true → ¬ (o ≡ some user)
named none user a n p = cc
named (some []) [] a n p = cc
named (some []) (c ∷ user) a n p = cc
named (some (c ∷ t)) user a n p = a

empty_device : (d : Text) → nonempty d ≡ true → ¬ (some [] ≡ some d)
empty_device [] n p = cc
empty_device (c ∷ d) n p = cc

device_user-IsFor :
    (users : EndUsers) (q : MintRequest) (device : Option Text)
    → IsAbsent q.end_user_id
    → q.device_id ≡ device
    → IsForSome users q (device_user users q.tenant_id device)
device_user-IsFor users q none a e = λ user h. elim h [
  | inl p ↦ named q.end_user_id user a p.0 p.1
  | inr (b, (d, n, p, u)) ↦ cc (e, p)
]
device_user-IsFor users q (some []) a e = λ user h. elim h [
  | inl p ↦ named q.end_user_id user a p.0 p.1
  | inr (b, (d, n, p, u)) ↦ empty_device d n (cc (e, p))
]
device_user-IsFor users q (some (c ∷ d)) a e = inr (a, (c ∷ d, refl, e, refl))

user_of-IsFor :
    (users : EndUsers) (q : MintRequest) (asked : Option Text)
    → q.end_user_id ≡ asked
    → IsForSome users q (user_of users q asked)
unfolding user_of
user_of-IsFor users q none e = device_user-IsFor users q q.device_id (rw e tt) refl
user_of-IsFor users q (some []) e = device_user-IsFor users q q.device_id (rw e tt) refl
user_of-IsFor users q (some (c ∷ id)) e = elim (Bool-cases (users.exists q.tenant_id (c ∷ id))) [
  | inl p ↦ rw p (inl (refl, e, p))
  | inr p ↦ rw p (λ user h. elim h [
    | inl (n, g, x) ↦
        let same = some-injective (c ∷ id) user (sym e ∙ g) in absurd (cc (rw same at p, x))
    | inr (a, rest) ↦ absurd (rw e at a)
  ])
]

module _ {S Tok : Type 0} (cipher : Cipher Tok) (table : TokenTable S) (users : EndUsers)
    (ttl : ℕ) where
  -- Another token is minted or revoked.
  abbrev pub IsOther : Text → Call cipher table users ttl → Type 0
  IsOther jti (mints j nonce now q) = list_beq j jti ≡ false
  IsOther jti (revokes now token) =
      (c : Claims) → cipher.decrypt token ≡ some c → list_beq c.jti jti ≡ false

  -- What a token that was minted resolves to in a later state.
  abbrev pub Resolves :
      Text → ℕ → ℕ → MintRequest → List (Call cipher table users ttl) → S × Minted Tok → Type 0
  Resolves jti at now q cs (s, unknown_end_user) = (user : Text) → ¬ IsFor users q user
  Resolves jti at now q cs (s, minted token expires user) =
      IsFor users q user
      × ((life : ℕ) × IsLife ttl q.ttl_seconds life × (expires ≡ at + life))
      × (resolve cipher table now token (steps cipher table users ttl cs s) ≡ (
          if leb expires now
          then expired
          else principal (record {
            token_id = jti;
            tenant_id = q.tenant_id;
            end_user_id = user;
            surface_id = q.surface_id;
            device_id = q.device_id;
            scopes = q.scopes;
            expires_at = expires;
          })))

  abbrev row_for : ℕ → MintRequest → Text → TokenRow
  row_for expires q user = record {
    tenant_id = q.tenant_id;
    end_user_id = user;
    expires_at = expires;
    revoked_at = none;
  }

  resolve_live :
      (now nonce : ℕ) (c : Claims) (s : S) (r : TokenRow)
      → table.find c.jti s ≡ some r
      → r.tenant_id ≡ c.tenant_id
      → r.revoked_at ≡ none
      → resolve cipher table now (cipher.encrypt nonce c) s
        ≡ (if leb c.exp now then expired else principal (principal_of c))
  unfolding resolve
  resolve_live now nonce c s r h same live =
      rw
        (cipher.decrypt-encrypt nonce c, h, live, same, beq_self cipher table users ttl c.tenant_id)
        refl

  -- The row of a token is found in the table.
  abbrev Finds : Text → TokenRow → S → Type 0
  Finds jti r s = table.find jti s ≡ some r

  revoke_row-Finds :
      (jti j : Text) (now : ℕ) (r : TokenRow) (o : Option TokenRow) (s : S)
      → list_beq j jti ≡ false
      → Finds jti r s
      → Finds jti r (revoke_row cipher table now j o s).0
  revoke_row-Finds jti j now r none s n h = h
  revoke_row-Finds jti j now r (some row) s n h = elim (Bool-cases (is_some row.revoked_at)) [
    | inl p ↦ rw p h
    | inr p ↦ rw p (table.find-write jti j (record row { revoked_at = some now }) s ∙ rw n h)
  ]

  not_principal :
      (now : ℕ) (o : Resolution) (s : S)
      → is_principal cipher table users ttl o ≡ false
      → (revoke_principal cipher table now o s).0 ≡ s
  unfolding is_principal
  not_principal now (principal p) s h = cc
  not_principal now invalid s h = refl
  not_principal now expired s h = refl
  not_principal now revoked s h = refl

  revoke_principal-Finds :
      (jti : Text) (now : ℕ) (r : TokenRow) (c : Claims) (o : Resolution) (s : S)
      → (o ≡ principal (principal_of c)) ⊎ (is_principal cipher table users ttl o ≡ false)
      → list_beq c.jti jti ≡ false
      → Finds jti r s
      → Finds jti r (revoke_principal cipher table now o s).0
  revoke_principal-Finds jti now r c o s (inl p) n h =
      rw p (revoke_row-Finds jti c.jti now r (table.find c.jti s) s n h)
  revoke_principal-Finds jti now r c o s (inr p) n h = rw (not_principal now o s p) h

  revoke-Finds :
      (jti : Text) (now : ℕ) (r : TokenRow) (token : Tok) (s : S)
      → ((c : Claims) → cipher.decrypt token ≡ some c → list_beq c.jti jti ≡ false)
      → Finds jti r s
      → Finds jti r (revoke cipher table now token s).0
  unfolding revoke resolve
  revoke-Finds jti now r token s n h = elim (Option-cases (cipher.decrypt token)) [
    | inl p ↦ rw p h
    | inr (c, p) ↦ rw p (
        revoke_principal-Finds jti now r c _ s
          (check_claims-principal cipher table users ttl c now s) (n c p) h)
  ]

  mint_for-Finds :
      (jti j : Text) (nonce now life : ℕ) (r : TokenRow) (q : MintRequest) (user : Option Text)
      (s : S)
      → list_beq j jti ≡ false
      → Finds jti r s
      → Finds jti r (mint_for cipher table j nonce now life q user s).0
  unfolding mint_for
  mint_for-Finds jti j nonce now life r q none s n h = h
  mint_for-Finds jti j nonce now life r q (some user) s n h = table.find-write jti j _ s ∙ rw n h

  steps-Finds :
      (jti : Text) (r : TokenRow) (cs : List (Call cipher table users ttl)) (s : S)
      → All (IsOther jti) cs
      → Finds jti r s
      → Finds jti r (steps cipher table users ttl cs s)
  unfolding mint
  steps-Finds jti r [] s o h = h
  steps-Finds jti r (mints j nonce now q ∷ cs) s (n, o) h =
      steps-Finds jti r cs _ o
        (mint_for-Finds jti j nonce now (or_default ttl q.ttl_seconds) r q _ s n h)
  steps-Finds jti r (revokes now token ∷ cs) s (n, o) h =
      steps-Finds jti r cs _ o (revoke-Finds jti now r token s n h)

  mint_for-Resolves :
      (jti : Text) (nonce at now life : ℕ) (q : MintRequest) (user : Option Text) (s : S)
      (cs : List (Call cipher table users ttl))
      → IsForSome users q user
      → IsLife ttl q.ttl_seconds life
      → All (IsOther jti) cs
      → Resolves jti at now q cs (mint_for cipher table jti nonce at life q user s)
  unfolding mint_for
  mint_for-Resolves jti nonce at now life q none s cs f l o = f
  mint_for-Resolves jti nonce at now life q (some user) s cs f l o =
      let r = row_for (at + life) q user in
      (
        f,
        (life, l, refl),
        resolve_live now nonce (claims_for cipher table jti at life q user) _ r
            (steps-Finds jti r cs (table.write jti r s) o
              (table.find-write jti jti r s ∙ rw (beq_self cipher table users ttl jti) refl))
            refl refl,
      )

  -- A token that is minted is for the end user that the request names, who exists, or for the
  -- anonymous one of its device, and expires when the time that is asked for, or else the default, is
  -- over. Whatever other tokens are minted and revoked afterwards, it resolves to its tenant, that end
  -- user, its surface, device and scopes until then, and is expired from then on. A request is refused
  -- only if it is for no end user.
  pub resolve-mint :
      (jti : Text) (nonce at now : ℕ) (q : MintRequest) (s : S)
      (cs : List (Call cipher table users ttl))
      → All (IsOther jti) cs
      → Resolves jti at now q cs (mint cipher table users ttl jti nonce at q s)
  unfolding mint
  resolve-mint jti nonce at now q s cs o =
      mint_for-Resolves jti nonce at now (or_default ttl q.ttl_seconds) q _ s cs
        (user_of-IsFor users q q.end_user_id refl) (or_default-IsLife ttl q.ttl_seconds) o
