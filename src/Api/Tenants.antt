-- ===== src/Api/Tenants.antt =====
-- apps/api/middleware.py, and `get_current_tenant` and `get_current_user` of apps/api/deps.py: the
-- tenant of a request, as the context variable of packages/common/tenant_context.py holds it. Paths
-- and headers are lists of code points.
use operational_intelligence.Prelude.{
  ℕ, String, Bool, true, false, ◌&&◌, ◌||◌, not, Option, some, none, List, [], ◌∷◌, ◌==◌, leb,
  any_of, codes, codes_eq, reversed, if◌then◌else◌,
}

abbrev Text : Type 0
Text = List ℕ

-- The claim `tenant_id` of a token: the text of a UUID, or anything else.
pub data Claim : Type 0 where
  uuid : ℕ → Claim
  malformed : Claim

-- What verify_token returns. A claim is `none` where the key is absent or null.
pub record Payload : Type 0 where
  pub sub : Option String
  pub tenant_id : Option Claim
  pub email : Option String
  pub role : Option String

-- s.startswith(prefix)
unfoldable pub starts_with : Text → Text → Bool
starts_with [] s = true
starts_with (c ∷ prefix) [] = false
starts_with (c ∷ prefix) (d ∷ s) = (c == d) && starts_with prefix s

unfoldable pub is_auth_free : Text → Bool
unfolding starts_with
is_auth_free path =
    any_of (codes_eq path) (codes "/" ∷ codes "/docs" ∷ codes "/openapi.json" ∷ codes "/redoc" ∷ [])
    || any_of (λ prefix. starts_with prefix path) (codes "/api/v1/auth/" ∷ [])

-- s.removeprefix(prefix)
abbrev after_prefix : Text → Text → Option Text
after_prefix [] s = some s
after_prefix (c ∷ prefix) [] = none
after_prefix (c ∷ prefix) (d ∷ s) =
    let rest = after_prefix prefix s in if c == d then rest else none

abbrev removeprefix : Text → Text → Text
removeprefix prefix s = elim (after_prefix prefix s) [ none ↦ s | some t ↦ t ]

-- str.isspace() of a Latin-1 character
abbrev is_space : ℕ → Bool
is_space c = ((leb 9 c && leb c 13) || (leb 28 c && leb c 32)) || ((c == 133) || (c == 160))

abbrev lstrip : Text → Text
lstrip [] = []
lstrip (c ∷ s) = let rest = lstrip s in if is_space c then rest else c ∷ s

abbrev strip : Text → Text
strip s = reversed (lstrip (reversed (lstrip s)))

-- The parts of the ASGI scope that the middleware reads.
pub record Scope : Type 0 where
  pub is_request : Bool
  pub path : Text
  pub authorization : Option Text

-- What a dependency returns or raises: TenantAccessDeniedError, or the ValueError of UUID().
pub data Dependency (A : Type 0) : Type 0 where
  resolved : A → Dependency A
  access_denied : String → Dependency A
  value_error : Dependency A

-- The context variable, and the tenant that the database session is scoped to.
pub record Scoped : Type 0 where
  pub context : Option ℕ
  pub session : Option ℕ

module _ (verify_token : Text → Option Payload) where
  -- The tenant that a token names, for the middleware: every error is passed over.
  unfoldable pub tenant_of : Option Text → Option ℕ
  tenant_of none = none
  tenant_of (some header) = elim (verify_token (strip (removeprefix (codes "Bearer ") header))) [
    | none ↦ none
    | some payload ↦ elim payload.tenant_id [
      | none ↦ none
      | some claim ↦ elim claim [ uuid n ↦ some n | malformed ↦ none ]
    ]
  ]

  -- Whether the middleware looks at the token.
  abbrev pub needs_token : Scope → Bool
  needs_token scope = scope.is_request && not (is_auth_free scope.path)

  abbrev context_for : Option ℕ → Option ℕ → Option ℕ
  context_for none context = context
  context_for (some tenant) context = some tenant

  -- The call of the application, and clear_tenant behind it where the token was looked at.
  abbrev serve : (Option ℕ → Option ℕ) → (needed : Bool) → Option ℕ → Option ℕ → Option ℕ × Option ℕ
  serve app false tenant context = (context, app context)
  serve app true tenant context = (context_for tenant context, none)

  -- `TenantMiddleware.__call__`: the context that the application starts with, and the one that is
  -- left. `app` is the context that the application leaves.
  unfoldable pub call_middleware :
      (app : Scope → Option ℕ → Option ℕ) → Scope → Option ℕ → Option ℕ × Option ℕ
  unfolding is_auth_free tenant_of
  call_middleware app scope context =
      serve (app scope) (needs_token scope) (tenant_of scope.authorization) context

  -- The contexts that the application starts with, over a run of requests.
  unfoldable pub serve_all :
      (app : Scope → Option ℕ → Option ℕ) → List Scope → Option ℕ → List (Option ℕ)
  unfolding call_middleware
  serve_all app [] context = []
  serve_all app (scope ∷ scopes) context =
      let (seen, after) = call_middleware app scope context in seen ∷ serve_all app scopes after

  unfoldable pub get_current_tenant : (credentials : Text) → Scoped → Dependency ℕ × Scoped
  get_current_tenant credentials s = elim (verify_token credentials) [
    | none ↦ (access_denied "Invalid or expired token", s)
    | some payload ↦ elim payload.tenant_id [
      | none ↦ (access_denied "Token does not contain tenant_id", s)
      | some claim ↦ elim claim [
        | malformed ↦ (value_error, s)
        | uuid n ↦ (resolved n, record { context = some n; session = some n })
      ]
    ]
  ]

  unfoldable pub get_current_user : (credentials : Text) → Dependency Payload
  get_current_user credentials = elim (verify_token credentials) [
    | none ↦ access_denied "Invalid or expired token"
    | some payload ↦ resolved payload
  ]

  -- What a request sees by itself.
  abbrev pub own_tenant : Scope → Option ℕ
  own_tenant scope = if needs_token scope then tenant_of scope.authorization else none
