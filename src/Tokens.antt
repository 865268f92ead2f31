-- ===== src/Tokens.antt =====
-- The tokens that the user service issues and the gateways check: user/src/infrastructure/services/
-- JwtService.ts, gateway/src/utils/JwtService.ts and websocket-gateway/src/utils/JwtService.ts.
-- The library `jsonwebtoken` is a parameter. Times are in seconds, as in its claims.
pub mod RoundTrip
mod Tests
use text.Mathlib.Text.{◌==◌ as str_eq}
use skill_stew_api.Prelude.{
  ℕ, ◌*◌, Bool, not, ◌||◌, Option, none, some, List, [], ◌∷◌, String, if◌then◌else◌, false,
}
use skill_stew_api.Effect.{Result, ok, err}
use skill_stew_api.Effect.Results.{◌>>=◌, ◌>>◌, found_or, fail_if}

pub data UserRole : Type 0 where
  user expert expert_applicant admin : UserRole

abbrev pub role_text : UserRole → String
role_text user = "USER"
role_text expert = "EXPERT"
role_text expert_applicant = "EXPERT_APPLICANT"
role_text admin = "ADMIN"

-- `!role || !isUserRole(role)`
abbrev pub known_role : Option String → Option UserRole
known_role none = none
known_role (some s) =
    if str_eq s "ADMIN"
    then some admin
    else if str_eq s "EXPERT"
    then some expert
    else if str_eq s "EXPERT_APPLICANT"
    then some expert_applicant
    else if str_eq s "USER"
    then some user
    else none

-- `tokenBody`
pub record TokenBody : Type 0 where
  pub user_id : ℕ
  pub email : String
  pub role : String

-- `JWTPayload`
pub record Claims : Type 0 where
  pub body : TokenBody
  pub iat : ℕ
  pub exp : ℕ

pub record SignOptions : Type 0 where
  pub expires_in : ℕ
  pub kid : String

-- `jwt.decode(token, { complete: true })` gives the key id of the header where there is a header,
-- `jwt.verify(token, secret)` the claims where it does not throw.
pub record Jwt : Type 0 where
  pub sign : TokenBody → String → SignOptions → ℕ → String
  pub decode : String → Option (Option String)
  pub verify : String → String → ℕ → Option Claims

-- The secrets, of which applicants share those of experts.
pub record Secrets : Type 0 where
  pub user_secret : String
  pub expert_secret : String
  pub admin_secret : String

-- `this.SECRETS[role]`
abbrev pub secret_of : Secrets → UserRole → String
secret_of s user = s.user_secret
secret_of s expert = s.expert_secret
secret_of s expert_applicant = s.expert_secret
secret_of s admin = s.admin_secret

pub data JwtError : Type 0 where
  access_token_verify invalid_token invalid_token_role token_role_mismatch : JwtError

module _ (jwt : Jwt) where
  -- `verifyAccessToken` of the gateway
  unfoldable pub verify_access_token : Secrets → ℕ → String → Result JwtError Claims
  verify_access_token secrets now token = do
    kid ← found_or invalid_token (jwt.decode token)
    role ← found_or invalid_token_role (known_role kid)
    claims ← found_or access_token_verify (jwt.verify token (secret_of secrets role) now)
    fail_if (not (str_eq (role_text role) claims.body.role)) token_role_mismatch
    ok claims

  -- `verifyAccessToken` of the websocket gateway
  unfoldable pub verify_socket_token : Secrets → ℕ → String → Result JwtError Claims
  verify_socket_token secrets now token = do
    kid ← found_or invalid_token (jwt.decode token)
    role ← found_or invalid_token_role (known_role kid)
    claims ← found_or invalid_token (jwt.verify token (secret_of secrets role) now)
    fail_if (not (str_eq (role_text role) claims.body.role)) token_role_mismatch
    ok claims

-- The expiries of the user service
abbrev pub access_expiry : ℕ
access_expiry = 60 * 10

abbrev pub refresh_expiry : ℕ
refresh_expiry = 60 * 60 * 24 * 15

-- Its two sets of secrets
pub record UserSecrets : Type 0 where
  pub access : Secrets
  pub refresh : Secrets

pub data AuthError : Type 0 where
  invalid_auth_token : AuthError

module _ (jwt : Jwt) where
  -- `generateAccessToken` and `generateRefreshToken`
  unfoldable pub generate_access_token : UserSecrets → TokenBody → UserRole → ℕ → String
  generate_access_token secrets body role now =
      jwt.sign body (secret_of secrets.access role)
        (record { expires_in = access_expiry; kid = role_text role }) now

  unfoldable pub generate_refresh_token : UserSecrets → TokenBody → UserRole → ℕ → String
  generate_refresh_token secrets body role now =
      jwt.sign body (secret_of secrets.refresh role)
        (record { expires_in = refresh_expiry; kid = role_text role }) now

  -- `verifyRefreshToken`
  unfoldable pub verify_refresh_token : UserSecrets → ℕ → String → Result AuthError Claims
  verify_refresh_token secrets now token = do
    kid ← found_or invalid_auth_token (jwt.decode token)
    role ← found_or invalid_auth_token (known_role kid)
    claims ← found_or invalid_auth_token (jwt.verify token (secret_of secrets.refresh role) now)
    fail_if (not (str_eq (role_text role) claims.body.role)) invalid_auth_token
    ok claims
