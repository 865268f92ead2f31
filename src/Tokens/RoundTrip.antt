-- ===== src/Tokens/RoundTrip.antt =====
-- Access tokens from the user service through the gateway.
use text.Mathlib.Text.{◌==◌ as str_eq}
use text.Mathlib.TextPositions.{eq_refl}
use skill_stew_api.Prelude.{
  ℕ, ◌+◌, ◌≡◌, refl, true, none, some, String, ltb, if◌then◌else◌, Bool-cases, inl, inr,
}
use skill_stew_api.Effect.{Result, ok, err}
use skill_stew_api.Tokens.{
  UserRole, user, expert, expert_applicant, admin, role_text, known_role, TokenBody, Claims,
  SignOptions, Jwt, UserSecrets, secret_of, JwtError, access_token_verify, access_expiry,
  verify_access_token, generate_access_token,
}

-- What `jsonwebtoken` documents of a token that it signs: the header is there to decode, and the
-- token is valid under the secret that signed it until it expires.
pub record Signs (jwt : Jwt) (body : TokenBody) (secret : String) (options : SignOptions)
    (issued : ℕ) : Type 0 where
  pub decoded : jwt.decode (jwt.sign body secret options issued) ≡ some (some options.kid)
  pub verified :
      (now : ℕ)
      → jwt.verify (jwt.sign body secret options issued) secret now ≡ (
          if ltb now (issued + options.expires_in)
          then some (record { body = body; iat = issued; exp = issued + options.expires_in })
          else none)

known_role_text : (role : UserRole) → known_role (some (role_text role)) ≡ some role
known_role_text user = refl
known_role_text expert = refl
known_role_text expert_applicant = refl
known_role_text admin = refl

-- What the check makes of a token that was issued for a role.
abbrev pub checked : TokenBody → ℕ → ℕ → Result JwtError Claims
checked body issued now =
    if ltb now (issued + access_expiry)
    then ok (record { body = body; iat = issued; exp = issued + access_expiry })
    else err access_token_verify

abbrev pub access_options : UserRole → SignOptions
access_options role = record { expires_in = access_expiry; kid = role_text role }

-- An access token that the user service issues to a user of a role is accepted by a gateway with
-- the same secrets, with the user's id, email and role, for the ten minutes of its life, and refused
-- from then on; for a library that decodes and verifies what it signs.
pub verify_access_token-generate_access_token :
    (jwt : Jwt) (secrets : UserSecrets) (body : TokenBody) (role : UserRole) (issued now : ℕ)
    → Signs jwt body (secret_of secrets.access role) (access_options role) issued
    → body.role ≡ role_text role
    → verify_access_token jwt secrets.access now
        (generate_access_token jwt secrets body role issued)
      ≡ checked body issued now
unfolding verify_access_token generate_access_token
verify_access_token-generate_access_token jwt secrets body role issued now signs own =
    rw (signs.decoded, known_role_text role, signs.verified now)
      (elim (Bool-cases (ltb now (issued + access_expiry))) [
        | inl e ↦
            let same : str_eq (role_text role) body.role ≡ true =
              rw own (eq_refl (role_text role)) in
            rw (e, same) refl
        | inr e ↦ rw e refl
      ])
