-- ===== src/Tokens/Tests.antt =====
-- A library that signs one token, which an applicant gets.
use text.Mathlib.Text.{◌==◌ as str_eq}
use skill_stew_api.Prelude.{◌≡◌, refl, none, some, String, ltb, if◌then◌else◌}
use skill_stew_api.Effect.{ok, err}
use skill_stew_api.Tokens.{
  expert_applicant, TokenBody, Claims, Jwt, Secrets, UserSecrets, access_token_verify,
  invalid_token, invalid_auth_token, verify_access_token, verify_socket_token, verify_refresh_token,
  generate_access_token, generate_refresh_token,
}
use skill_stew_api.Tokens.RoundTrip.{
  Signs, access_options, checked, verify_access_token-generate_access_token,
}

abbrev body : TokenBody
body = record { user_id = 7; email = "a@b.c"; role = "EXPERT_APPLICANT" }

abbrev claims : Claims
claims = record { body = body; iat = 1000; exp = 1600 }

abbrev jwt : Jwt
jwt = record {
  sign = λ b secret options issued. "t";
  decode = λ token. if str_eq token "t" then some (some "EXPERT_APPLICANT") else none;
  verify = λ token secret now.
      if str_eq secret "e" then (if ltb now 1600 then some claims else none) else none;
}

abbrev three : String → String → String → Secrets
three u e a = record { user_secret = u; expert_secret = e; admin_secret = a }

abbrev secrets : UserSecrets
secrets = record { access = three "u" "e" "a"; refresh = three "ru" "re" "ra" }

signs : Signs jwt body "e" (access_options expert_applicant) 1000
signs = record { decoded = refl; verified = λ now. refl }

verify_access_token-generate_access_token_example :
    verify_access_token jwt secrets.access 1200
      (generate_access_token jwt secrets body expert_applicant 1000)
    ≡ checked body 1000 1200
verify_access_token-generate_access_token_example =
    verify_access_token-generate_access_token jwt secrets body expert_applicant 1000 1200 signs refl

-- An access token is no refresh token.
kinds :
    (verify_access_token jwt secrets.access 1200 "t" ≡ ok claims)
    × (verify_access_token jwt secrets.access 1600 "t" ≡ err access_token_verify)
    × (verify_socket_token jwt secrets.access 1600 "t" ≡ err invalid_token)
    × (verify_refresh_token jwt secrets 1200
          (generate_access_token jwt secrets body expert_applicant 1000)
        ≡ err invalid_auth_token)
    × (generate_refresh_token jwt secrets body expert_applicant 1000 ≡ "t")
unfolding verify_access_token verify_socket_token verify_refresh_token generate_access_token
    generate_refresh_token
kinds = (refl, refl, refl, refl, refl)
