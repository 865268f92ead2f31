-- ===== src/Gateway/Tests.antt =====
-- Requests at the gateway, where a pattern without parameters matches its own path.
use Prim.Native.String.{◌++◌ as append}
use text.Mathlib.Text.{◌==◌ as str_eq}
use skill_stew_api.Prelude.{
  ℕ, ◌≤◌, ◌≡◌, refl, Bool, ◌||◌, none, some, String, ltb, count, find, if◌then◌else◌,
}
use skill_stew_api.Tokens.{Claims, Jwt, Secrets}
use skill_stew_api.Gateway.{
  Request, Answer, proxied, user_service, route_groups, users_group, is_under, starts_with,
  first_piece, token_of, gateway,
}
use skill_stew_api.Gateway.Authority.{gateway_unnamed_method}
use skill_stew_api.Gateway.Routes.{route_groups_unambiguous}

abbrev claims : Claims
claims = record {
  body = record { user_id = 7; email = "a@b.c"; role = "ADMIN" };
  iat = 1000;
  exp = 1600;
}

abbrev jwt : Jwt
jwt = record {
  sign = λ b secret options issued. "t";
  decode = λ token. if str_eq token "t" then some (some "ADMIN") else none;
  verify = λ token secret now. if str_eq secret "a" then some claims else none;
}

abbrev secrets : Secrets
secrets = record { user_secret = "u"; expert_secret = "e"; admin_secret = "a" }

abbrev mounts : String → String → Bool
mounts prefix url =
    let path = first_piece b'?' url in str_eq path prefix || starts_with (append prefix "/") path

abbrev call : String → String → ℕ → Request
call method url n = record {
  method = method;
  original_url = url;
  authorization = if ltb 0 n then some "Bearer t" else none;
  x_user_id = some 99;
  x_user_role = some "ADMIN";
}

abbrev answer : Request → Answer
answer r = gateway str_eq mounts jwt secrets 1200 route_groups r

route_groups_unambiguous_example :
    count (λ g. is_under "/api/v1/cohorts/5" g.prefix) route_groups ≤ 1
route_groups_unambiguous_example = route_groups_unambiguous "/api/v1/cohorts/5"

users_first : find (λ h. mounts h.prefix "/api/v1/users?limit=5") route_groups ≡ some users_group
unfolding first_piece starts_with
users_first = refl

abbrev head_request : Request
head_request = call "HEAD" "/api/v1/users?limit=5" 0

gateway_unnamed_method_example :
    gateway str_eq mounts jwt secrets 1200 route_groups head_request
    ≡ proxied user_service (some 99) (some "ADMIN")
unfolding token_of
gateway_unnamed_method_example =
    gateway_unnamed_method jwt secrets 1200 str_eq mounts route_groups users_group head_request
      users_first refl (refl, (refl, (refl, (refl, tt)))) refl
