-- ===== src/Gateway.antt =====
-- The gateway: gateway/src/config/routeManifest.ts, middlewares/authMiddleware.ts and
-- app/createApp.ts. How Express mounts a prefix and `match` of path-to-regexp are parameters, and so
-- is the library of tokens.
pub mod Authority
pub mod Routes
mod Tests
use Prim.Native.Char.{code}
use Prim.Native.String.{◌++◌ as append}
use text.Mathlib.Text.{◌==◌ as str_eq}
use skill_stew_api.Prelude.{
  ℕ, Bool, true, false, not, ◌&&◌, ◌||◌, Option, none, some, List, [], ◌∷◌, String, ◌==◌, find,
  if◌then◌else◌,
}
use skill_stew_api.Effect.{Result, ok, err}
use skill_stew_api.Tokens.{
  UserRole, user, expert, expert_applicant, admin, role_text, Claims, Jwt, Secrets, JwtError,
  verify_access_token,
}

pub data ServiceName : Type 0 where
  user_service payments_service skill_service search_service notification_service : ServiceName

pub data AuthPolicy : Type 0 where
  public : AuthPolicy
  protected : List UserRole → AuthPolicy

pub record RouteOverride : Type 0 where
  pub method : String
  pub path : String
  pub auth : AuthPolicy

pub record RouteGroup : Type 0 where
  pub prefix : String
  pub service : ServiceName
  pub auth : AuthPolicy
  pub overrides : List RouteOverride

abbrev group : String → ServiceName → AuthPolicy → List RouteOverride → RouteGroup
group prefix service auth overrides = record {
  prefix = prefix;
  service = service;
  auth = auth;
  overrides = overrides;
}

abbrev override : String → String → AuthPolicy → RouteOverride
override method path auth = record { method = method; path = path; auth = auth }

abbrev pub everyone : List UserRole
everyone = user ∷ expert ∷ admin ∷ expert_applicant ∷ []

abbrev pub only : UserRole → AuthPolicy
only r = protected (r ∷ [])

-- The entry of `/api/v1/users`
abbrev pub users_group : RouteGroup
users_group = group "/api/v1/users" user_service public (
    override "GET" "/api/v1/users" (only admin)
    ∷ override "POST" "/api/v1/users/dummy" (only admin)
    ∷ override "PATCH" "/api/v1/users/:id/block-status" (only admin)
    ∷ override "PATCH" "/api/v1/users/onboarding/profile" (only user)
    ∷ [])

-- `routeGroups`
abbrev pub route_groups : List RouteGroup
route_groups =
    group "/api/v1/auth" user_service public []
    ∷ group "/api/v1/me" user_service (protected everyone)
        (override "PATCH" "/api/v1/me" (only user) ∷ [])
    ∷ users_group
    ∷ group "/api/v1/connections" user_service (protected (user ∷ expert ∷ admin ∷ [])) []
    ∷ group "/api/v1/payments" payments_service public []
    ∷ group "/api/v1/skills" skill_service public (
        override "GET" "/api/v1/skills/profile/me" (only user)
        ∷ override "PUT" "/api/v1/skills/profile" (only user)
        ∷ [])
    ∷ group "/api/v1/workshops" skill_service (only expert) []
    ∷ group "/api/v1/public/workshops" skill_service public []
    ∷ group "/api/v1/cohorts" skill_service (only expert)
        (override "POST" "/api/v1/cohorts/:id/enrollments" (only user) ∷ [])
    ∷ group "/api/v1/public/cohorts" skill_service public []
    ∷ group "/api/v1/search" search_service public
        (override "GET" "/api/v1/search/users/recommended" (only user) ∷ [])
    ∷ group "/api/v1/notifications" notification_service (protected everyone) []
    ∷ group "/api/v1/experts" user_service (protected (expert ∷ admin ∷ [])) []
    ∷ group "/api/v1/expert-applications" user_service (only admin)
        (override "POST" "/api/v1/expert-applications/apply" (only expert_applicant) ∷ [])
    ∷ []

-- `text.split(separator)[0]`, and the pieces after it
unfoldable pub first_piece : ℕ → String → String
first_piece sep String.[] = String.[]
first_piece sep (String.◌∷◌ c s) =
    let rest = first_piece sep s in if code c == sep then String.[] else String.◌∷◌ c rest

unfoldable pub after_piece : ℕ → String → Option String
after_piece sep String.[] = none
after_piece sep (String.◌∷◌ c s) =
    let rest = after_piece sep s in if code c == sep then some s else rest

abbrev pub is_no_text : String → Bool
is_no_text s = str_eq s ""

-- `req.headers.authorization?.split(" ")[1]`, where an empty piece is no token
unfoldable pub token_of : Option String → Option String
token_of none = none
token_of (some header) = elim (after_piece b' ' header) [
  | none ↦ none
  | some rest ↦ let token = first_piece b' ' rest in if is_no_text token then none else some token
]

-- `path.startsWith(prefix)`
unfoldable pub starts_with : String → String → Bool
starts_with String.[] s = true
starts_with (String.◌∷◌ c p) String.[] = false
starts_with (String.◌∷◌ c p) (String.◌∷◌ d s) = code c == code d && starts_with p s

-- `getMatchingRouteGroup`
abbrev pub is_under : String → String → Bool
is_under path prefix = str_eq path prefix || starts_with (append prefix "/") path

unfoldable pub get_matching_route_group : List RouteGroup → String → Option RouteGroup
get_matching_route_group groups path = find (λ g. is_under path g.prefix) groups

-- A request, with the identity headers that its sender has put in.
pub record Request : Type 0 where
  pub method : String
  pub original_url : String
  pub authorization : Option String
  pub x_user_id : Option ℕ
  pub x_user_role : Option String

-- `req.user`
pub record Caller : Type 0 where
  pub id : ℕ
  pub email : String
  pub role : String

-- What the gateway does with a request: it passes it on, with the identity headers that it has
-- then, or answers itself.
pub data Answer : Type 0 where
  proxied : ServiceName → Option ℕ → Option String → Answer
  unauthenticated role_refused route_not_found : Answer
  token_refused : JwtError → Answer

-- `policy.roles.includes(role)`
unfoldable pub includes : List UserRole → String → Bool
includes [] role = false
includes (r ∷ rs) role = str_eq (role_text r) role || includes rs role

abbrev pub caller_of : Claims → Caller
caller_of c = record { id = c.body.user_id; email = c.body.email; role = c.body.role }

-- `on.proxyReq` of `buildProxyOptions`
unfoldable pub proxy : ServiceName → Option Caller → Request → Answer
proxy service none r = proxied service r.x_user_id r.x_user_role
proxy service (some caller) r = proxied service (some caller.id) (some caller.role)

-- The check of the role of a caller whose token is valid
unfoldable pub check_role : AuthPolicy → ServiceName → Claims → Request → Answer
check_role public service c r = proxy service (some (caller_of c)) r
check_role (protected roles) service c r =
    if includes roles c.body.role then proxy service (some (caller_of c)) r else role_refused

-- A request without a token
unfoldable pub anonymous : AuthPolicy → ServiceName → Request → Answer
anonymous public service r = proxy service none r
anonymous (protected roles) service r = unauthenticated

module _ (matches : String → String → Bool) where
  -- `resolveAuthPolicy`
  unfoldable pub resolve_overrides : List RouteOverride → String → String → AuthPolicy → AuthPolicy
  resolve_overrides [] path method auth = auth
  resolve_overrides (o ∷ os) path method auth =
      let rest = resolve_overrides os path method auth in
      if str_eq o.method method && matches o.path path then o.auth else rest

  abbrev pub resolve_auth_policy : String → String → RouteGroup → AuthPolicy
  resolve_auth_policy path method g = resolve_overrides g.overrides path method g.auth

module _ (jwt : Jwt) (secrets : Secrets) (now : ℕ) where
  -- `authMiddleware`, and the proxy behind it
  unfoldable pub with_token : AuthPolicy → ServiceName → Option String → Request → Answer
  with_token policy service none r = anonymous policy service r
  with_token policy service (some token) r = elim (verify_access_token jwt secrets now token) [
    | ok c ↦ check_role policy service c r
    | err e ↦ token_refused e
  ]

module _ (matches : String → String → Bool) (mounts : String → String → Bool) (jwt : Jwt)
    (secrets : Secrets) (now : ℕ) where
  unfoldable pub guarded : RouteGroup → Request → Answer
  guarded g r =
      with_token jwt secrets now
        (resolve_auth_policy matches (first_piece b'?' r.original_url) r.method g) g.service
        (token_of r.authorization) r

  -- The application: each group is mounted in turn, and none passes a request on.
  unfoldable pub gateway : List RouteGroup → Request → Answer
  gateway [] r = route_not_found
  gateway (g ∷ gs) r =
      let rest = gateway gs r in if mounts g.prefix r.original_url then guarded g r else rest
