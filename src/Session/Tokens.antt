-- ===== src/Session/Tokens.antt =====
-- SessionTokenService of backend/app/session/tokens.py with SessionTokenRepository of
-- backend/app/infrastructure/db/repositories.py. The encryption of the claims, the table of the
-- tokens and the end users are parameters; the identifier of a new token is an argument.
pub mod Lifetime
pub mod Minting
mod Tests
use agent_studio.Base.{
  ℕ, zero, suc, ◌+◌, ◌≡◌, Bool, true, false, not, ◌&&◌, Option, none, some, List, [], ◌∷◌, ◌++◌,
  leb, is_some, if◌then◌else◌,
}
use agent_studio.Base.Eq.{nat_eq, list_eq, list_beq}
use agent_studio.Base.Text.{Text, codes}

pub record Claims : Type 0 where
  pub jti : Text
  pub tenant_id : Text
  pub end_user_id : Text
  pub surface_id : Option Text
  pub device_id : Option Text
  pub scopes : List Text
  pub exp : ℕ

-- Fernet with a key and JSON: a token of the claims gives them back; the number is the random part.
pub record Cipher (Tok : Type 0) : Type 0 where
  pub encrypt : ℕ → Claims → Tok
  pub decrypt : Tok → Option Claims
  pub decrypt-encrypt : (n : ℕ) (c : Claims) → decrypt (encrypt n c) ≡ some c

-- A row of `session_tokens`.
pub record TokenRow : Type 0 where
  pub tenant_id : Text
  pub end_user_id : Text
  pub expires_at : ℕ
  pub revoked_at : Option ℕ

-- The table: the row of an identifier, and the insertion or update of one.
pub record TokenTable (S : Type 0) : Type 0 where
  pub find : Text → S → Option TokenRow
  pub write : Text → TokenRow → S → S
  pub find-write :
      (j k : Text) (r : TokenRow) (s : S)
      → find j (write k r s) ≡ (if list_beq k j then some r else find j s)

-- The end users of a tenant: `get_by_id`, and the one of an anonymous identity, made if need be.
pub record EndUsers : Type 0 where
  pub exists : Text → Text → Bool
  pub anonymous : Text → Text → Text

pub record MintRequest : Type 0 where
  pub tenant_id : Text
  pub device_id : Option Text
  pub end_user_id : Option Text
  pub surface_id : Option Text
  pub scopes : List Text
  pub ttl_seconds : Option ℕ

pub data Minted (Tok : Type 0) : Type 0 where
  -- UnknownEndUserError
  unknown_end_user : Minted Tok
  minted : (token : Tok) (expires_at : ℕ) (end_user_id : Text) → Minted Tok

pub record SessionPrincipal : Type 0 where
  pub token_id : Text
  pub tenant_id : Text
  pub end_user_id : Text
  pub surface_id : Option Text
  pub device_id : Option Text
  pub scopes : List Text
  pub expires_at : ℕ

-- The three exceptions, or the principal.
pub data Resolution : Type 0 where
  invalid expired revoked : Resolution
  principal : SessionPrincipal → Resolution

-- `ttl_seconds or settings.SESSION_TOKEN_TTL_SECONDS`
abbrev pub or_default : ℕ → Option ℕ → ℕ
or_default default none = default
or_default default (some zero) = default
or_default default (some (suc n)) = suc n

abbrev device_user : EndUsers → Text → Option Text → Option Text
device_user users tenant none = none
device_user users tenant (some []) = none
device_user users tenant (some (c ∷ device)) =
    some (users.anonymous tenant (codes "anon:" ++ (c ∷ device)))

-- The end user of a request, if there is one.
unfoldable pub user_of : EndUsers → MintRequest → Option Text → Option Text
user_of users q none = device_user users q.tenant_id q.device_id
user_of users q (some []) = device_user users q.tenant_id q.device_id
user_of users q (some (c ∷ id)) = if users.exists q.tenant_id (c ∷ id) then some (c ∷ id) else none

abbrev pub principal_of : Claims → SessionPrincipal
principal_of c = record {
  token_id = c.jti;
  tenant_id = c.tenant_id;
  end_user_id = c.end_user_id;
  surface_id = c.surface_id;
  device_id = c.device_id;
  scopes = c.scopes;
  expires_at = c.exp;
}

module _ {S Tok : Type 0} (cipher : Cipher Tok) (table : TokenTable S) where
  abbrev pub claims_for : Text → ℕ → ℕ → MintRequest → Text → Claims
  claims_for jti now ttl q user = record {
    jti = jti;
    tenant_id = q.tenant_id;
    end_user_id = user;
    surface_id = q.surface_id;
    device_id = q.device_id;
    scopes = q.scopes;
    exp = now + ttl;
  }

  unfoldable pub mint_for : Text → ℕ → ℕ → ℕ → MintRequest → Option Text → S → S × Minted Tok
  mint_for jti nonce now ttl q none s = (s, unknown_end_user)
  mint_for jti nonce now ttl q (some user) s =
      let c = claims_for jti now ttl q user in
      (
        table.write jti
            (record {
              tenant_id = q.tenant_id;
              end_user_id = user;
              expires_at = c.exp;
              revoked_at = none;
            })
            s,
        minted (cipher.encrypt nonce c) c.exp user,
      )

  -- `mint`; `default_ttl` is the setting
  unfoldable pub mint : EndUsers → ℕ → Text → ℕ → ℕ → MintRequest → S → S × Minted Tok
  unfolding user_of mint_for
  mint users default_ttl jti nonce now q s =
      mint_for jti nonce now (or_default default_ttl q.ttl_seconds) q
        (user_of users q q.end_user_id) s

  abbrev pub check_row : Claims → Option TokenRow → Resolution
  check_row c none = invalid
  check_row c (some r) =
      if is_some r.revoked_at
      then revoked
      else if not (list_beq r.tenant_id c.tenant_id)
      then invalid
      else principal (principal_of c)

  abbrev pub check_claims : ℕ → Option Claims → S → Resolution
  check_claims now none s = invalid
  check_claims now (some c) s = if leb c.exp now then expired else check_row c (table.find c.jti s)

  unfoldable pub resolve : ℕ → Tok → S → Resolution
  resolve now token s = check_claims now (cipher.decrypt token) s

  -- `SessionTokenRepository.revoke`
  abbrev pub revoke_row : ℕ → Text → Option TokenRow → S → S × Bool
  revoke_row now jti none s = (s, false)
  revoke_row now jti (some r) s =
      if is_some r.revoked_at
      then (s, false)
      else (table.write jti (record r { revoked_at = some now }) s, true)

  abbrev pub revoke_principal : ℕ → Resolution → S → S × Bool
  revoke_principal now (principal p) s = revoke_row now p.token_id (table.find p.token_id s) s
  revoke_principal now _ s = (s, false)

  unfoldable pub revoke : ℕ → Tok → S → S × Bool
  unfolding resolve
  revoke now token s = revoke_principal now (resolve now token s) s
