-- ===== src/Session/Tokens/Tests.antt =====
-- Tokens that are their claims, and a table that is a function.
use agent_studio.Base.{ℕ, ◌≡◌, refl, true, Option, none, some, [], ◌∷◌, if◌then◌else◌}
use agent_studio.Base.Eq.{list_eq, nat_eq, list_beq}
use agent_studio.Base.Text.{Text, codes}
use agent_studio.Session.Tokens.{
  Claims, Cipher, TokenRow, TokenTable, EndUsers, MintRequest, revoked, minted, user_of, mint,
  resolve, revoke,
}
use agent_studio.Session.Tokens.Minting.{Resolves, resolve-mint}
use agent_studio.Session.Tokens.Lifetime.{resolve-revoke, steps, mints, revokes}

abbrev Token : Type 0
Token = ℕ × Claims

abbrev cipher : Cipher Token
cipher = record { encrypt = λ n c. (n, c); decrypt = λ t. some t.1; decrypt-encrypt = λ n c. refl }

abbrev Table : Type 0
Table = Text → Option TokenRow

abbrev table : TokenTable Table
table = record {
  find = λ j s. s j;
  write = λ k r s j. if list_beq k j then some r else s j;
  find-write = λ j k r s. refl;
}

abbrev users : EndUsers
users = record { exists = λ t u. true; anonymous = λ t d. d }

abbrev request : MintRequest
request = record {
  tenant_id = codes "t";
  device_id = some (codes "d");
  end_user_id = none;
  surface_id = none;
  scopes = codes "chat" ∷ [];
  ttl_seconds = some 60;
}

abbrev empty : Table
empty j = none

abbrev claims : Claims
claims = record {
  jti = codes "j";
  tenant_id = codes "t";
  end_user_id = codes "anon:d";
  surface_id = none;
  device_id = some (codes "d");
  scopes = codes "chat" ∷ [];
  exp = 160;
}

abbrev held : Table
held = (mint cipher table users 900 (codes "j") 5 100 request empty).0

resolve-revoke_example :
    resolve cipher table 130
      (5, claims)
      (steps cipher table users 900
        (mints (codes "k") 6 125 request ∷ revokes 126 (5, claims) ∷ [])
        (revoke cipher table 120 (5, claims) held).0)
    ≡ revoked
unfolding mint revoke
resolve-revoke_example =
    resolve-revoke cipher table users 900 claims 120 130 (5, claims) held
      (mints (codes "k") 6 125 request ∷ revokes 126 (5, claims) ∷ []) refl refl (refl, (tt, tt))

resolve-mint_example :
    Resolves cipher table users 900
      (codes "j")
      100
      110
      request
      (mints (codes "k") 6 105 request ∷ [])
      (mint cipher table users 900 (codes "j") 5 100 request empty)
resolve-mint_example =
    resolve-mint cipher table users 900 (codes "j") 5 100 110 request empty
      (mints (codes "k") 6 105 request ∷ []) (refl, tt)

-- The token is for the anonymous user of the device, for a minute.
minted_once :
    (mint cipher table users 900 (codes "j") 5 100 request empty).1
    ≡ minted (5, claims) 160 (codes "anon:d")
unfolding mint user_of
minted_once = refl
