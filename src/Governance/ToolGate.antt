-- ===== src/Governance/ToolGate.antt =====
-- `ToolAuthorizationGate` of backend/app/governance/toolgate.py. The audit of a denial is an effect
-- that never changes the decision; `audited` is the reason that it is told.
use agent_studio.Base.{
  ◌≡◌, ◌↔◌, refl, Bool, true, false, not, ◌&&◌, Option, none, some, List, [], arith, ap, sym, ◌∙◌,
  if◌then◌else◌,
}
use agent_studio.Base.Eq.{nat_eq, list_eq, elem}
use agent_studio.Base.Dict.{Dict, lookup}
use agent_studio.Base.Text.{Text, nonempty}

pub data Denial : Type 0 where
  missing_tool_name not_enabled not_in_allowlist : Denial

pub record Gate : Type 0 where
  pub registered : Dict Text Bool
  pub allowlist : List Text

-- `ToolAuthorization`: allowed, or the reason of the denial
pub data Authorization : Type 0 where
  allowed : Authorization
  denied : Denial → Authorization

-- `self._registered.get(name, False)`
unfoldable pub is_enabled : Gate → Text → Bool
unfolding lookup
is_enabled g name = elim (lookup name g.registered) [ none ↦ false | some b ↦ b ]

unfoldable pub authorize : Gate → Text → Authorization
unfolding is_enabled elem
authorize g name =
    if not (nonempty name)
    then denied missing_tool_name
    else if not (is_enabled g name)
    then denied not_enabled
    else if not (elem name g.allowlist)
    then denied not_in_allowlist
    else allowed

-- What `authorize_async` tells the audit, if there is one.
unfoldable pub audited : Bool → Authorization → Option Denial
audited has_audit allowed = none
audited has_audit (denied d) = if has_audit then some d else none

-- `build_authorizer`: the gate of a request, from the tenant's enabled tools and the surface's
-- list; without a surface the list is empty.
unfoldable pub build_authorizer : Dict Text Bool → Option (List Text) → Gate
build_authorizer registered none = record { registered = registered; allowlist = [] }
build_authorizer registered (some tools) = record { registered = registered; allowlist = tools }

abbrev is_allowed : Authorization → Bool
is_allowed allowed = true
is_allowed (denied d) = false

authorize_test :
    (g : Gate) (name : Text)
    → is_allowed (authorize g name)
      ≡ (nonempty name && (is_enabled g name && elem name g.allowlist))
unfolding authorize
authorize_test g name = ground arith

allowed_of_test : (a : Authorization) → (a ≡ allowed) ↔ (is_allowed a ≡ true)
allowed_of_test allowed = (λ _. refl, λ _. refl)
allowed_of_test (denied d) = (λ h. ap is_allowed h, λ h. absurd (cc))

allowed_iff :
    (g : Gate) (name : Text)
    → (authorize g name ≡ allowed)
      ↔ ((nonempty name && (is_enabled g name && elem name g.allowlist)) ≡ true)
allowed_iff g name = rw (sym (authorize_test g name)) (allowed_of_test (authorize g name))

no_list : (a b : Bool) (name : Text) → (a && (b && elem name [])) ≡ false
unfolding elem
no_list a b name = ground arith

no_tools :
    (tools : List Text) (name : Text)
    → (nonempty name
        && (is_enabled (record { registered = []; allowlist = tools }) name && elem name tools))
      ≡ false
unfolding is_enabled
no_tools tools name = ground arith

unlisted_denied :
    (g : Gate) (name : Text)
    → nonempty name ≡ true
    → is_enabled g name ≡ true
    → elem name g.allowlist ≡ false
    → authorize g name ≡ denied not_in_allowlist
unfolding authorize
unlisted_denied g name a b c = ground (arith, a, b, c)

-- The gate denies by default: a request's gate allows a tool exactly if it has a name, is enabled
-- in the tenant's registry and is on the list of the surface; with no surface it allows none, nor
-- with no registered tool. A denial of a tool that is enabled is for the list, and is audited.
pub build_authorizer-denies :
    (registered : Dict Text Bool) (tools : List Text) (name : Text)
    → let g = build_authorizer registered (some tools) in
      ((authorize g name ≡ allowed)
        ↔ ((nonempty name && (is_enabled g name && elem name tools)) ≡ true))
      × (is_allowed (authorize (build_authorizer registered none) name) ≡ false)
      × (is_allowed (authorize (build_authorizer [] (some tools)) name) ≡ false)
      × (nonempty name ≡ true
          → is_enabled g name ≡ true
          → elem name tools ≡ false
          → audited true (authorize g name) ≡ some not_in_allowlist)
unfolding build_authorizer audited
build_authorizer-denies registered tools name =
    let g : Gate = record { registered = registered; allowlist = tools } in
    (
      allowed_iff g name,
      authorize_test (record { registered = registered; allowlist = [] }) name ∙ no_list _ _ name,
      authorize_test (record { registered = []; allowlist = tools }) name ∙ no_tools tools name,
      λ named enabled unlisted. rw (unlisted_denied g name named enabled unlisted) refl,
    )
