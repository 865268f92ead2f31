-- ===== src/Accounts/Access/Granting.antt =====
-- user/src/application/use-cases/auth: to whom tokens are given.
use skill_stew_api.Prelude.{
  ◌≡◌, refl, ap, ◌∙◌, ℕ, ◌/◌, Bool, true, false, not, ◌&&◌, Option, none, some, String, arith,
}
use skill_stew_api.Effect.{ok, ◌>>=◌}
use skill_stew_api.Effect.Inversion.{query-eq-ok, raise_if-eq-ok}
use skill_stew_api.Effect.Rules.{Reaches}
use skill_stew_api.Effect.Ending.{reached_by, Ends-if, Ends-found}
use skill_stew_api.Prelude.Table.{lookup}
use skill_stew_api.Tokens.{
  UserRole, role_text, known_role, Claims, generate_access_token, generate_refresh_token,
  verify_refresh_token,
}
use skill_stew_api.Accounts.World.{
  User, World, not_found, provider_conflict, invalid_credentials, blocked_user, not_verified,
}
use skill_stew_api.Accounts.Repo.{find_by_email, is_some, update_user, is_taken_name, user_key}
use skill_stew_api.Accounts.Access.{
  Services, TokenPair, seconds, is_applicant, password_matches, issue_tokens, login_user,
  refresh_access_token, update_user_block_status,
}

block-now :
    (id : ℕ) (blocked : Bool) (w : World) → (update_user_block_status id blocked w).1.now ≡ w.now
unfolding update_user_block_status update_user
block-now id blocked w =
    let run : Reaches (λ v. v.now ≡ w.now) w (update_user_block_status id blocked) = reached_by (
      Ends-found (lookup user_key id w.users) _ _ (record { ends = refl })
        λ old found.
          Ends-if (is_taken_name id none w.users) _ _ (record { ends = refl })
            (record { ends = refl })) in
    run.reached

module _ (s : Services) where
  -- The pair of tokens that names a user
  abbrev pub pair_of : User → String → World → TokenPair
  pair_of u email w = record {
    refresh_token =
        generate_refresh_token s.jwt s.secrets
          (record { user_id = u.id; email = email; role = role_text u.role }) u.role (seconds w);
    access_token =
        generate_access_token s.jwt s.secrets
          (record { user_id = u.id; email = email; role = role_text u.role }) u.role (seconds w);
  }

  -- Who may sign in with a password.
  pub record MaySignIn (password : String) (u : User) : Type 0 where
    pub stored : (hash : String) × (u.password_hash ≡ some hash) × (s.compare password hash ≡ true)
    pub unblocked : u.is_blocked ≡ false
    pub verified : is_applicant u.role ≡ true → u.is_verified ≡ true

  matched :
      (password : String) (o : Option String)
      → password_matches s.compare password o ≡ true
      → (hash : String) × (o ≡ some hash) × (s.compare password hash ≡ true)
  matched password none h = absurd (ground arith)
  matched password (some hash) h = (hash, refl, h)

  -- A sign-in with a password that returns tokens changes nothing, and they name the user who has
  -- the email, whose password it is, who is not blocked and, as an applicant, is verified.
  pub login_user-Granted :
      (email password : String) (w v : World) (pair : TokenPair)
      → login_user s email password w ≡ (ok pair, v)
      → (v ≡ w)
        × ((u : User) × (find_by_email email w.users ≡ some u)
            × MaySignIn password u
            × (pair ≡ pair_of u email w))
  unfolding login_user issue_tokens
  login_user-Granted email password w v pair h =
      let (u, found, h1) = query-eq-ok (λ x. find_by_email email x.users) not_found _ w v pair h in
      let (has, h2) =
        raise_if-eq-ok (not (is_some u.password_hash)) provider_conflict _ w v pair h1 in
      let (match, h3) =
        raise_if-eq-ok (not (password_matches s.compare password u.password_hash))
          invalid_credentials _ w v pair h2 in
      let (unblocked, h4) = raise_if-eq-ok u.is_blocked blocked_user _ w v pair h3 in
      let (checked, h5) =
        raise_if-eq-ok (is_applicant u.role && not u.is_verified) not_verified _ w v pair h4 in
      (
        ground (arith, h5),
        (
          u,
          found,
          record {
            stored = matched password u.password_hash (ground arith);
            unblocked = unblocked;
            verified = ground arith;
          },
          ground (arith, h5),
        ),
      )

  refresh_lem :
      (token : String) (w : World) (c : Claims) (role : UserRole)
      → verify_refresh_token s.jwt s.secrets (seconds w) token ≡ ok c
      → known_role (some c.body.role) ≡ some role
      → is_applicant role ≡ false
      → refresh_access_token s token w
        ≡ (ok (generate_access_token s.jwt s.secrets c.body role (seconds w)), w)
  unfolding refresh_access_token ◌>>=◌
  refresh_lem token w c role valid known plain = rw (valid, known, plain) refl

  -- A refresh token that is valid and names another role than an applicant's gives the same access
  -- token after a block of any account, its owner's too.
  pub refresh_access_token_blocked :
      (id : ℕ) (token : String) (w : World) (c : Claims) (role : UserRole)
      → verify_refresh_token s.jwt s.secrets (seconds w) token ≡ ok c
      → known_role (some c.body.role) ≡ some role
      → is_applicant role ≡ false
      → (let v : World = (update_user_block_status id true w).1 in
          refresh_access_token s token v
          ≡ (ok (generate_access_token s.jwt s.secrets c.body role (seconds w)), v))
  refresh_access_token_blocked id token w c role valid known plain =
      let same = ap (λ n. n / 1000) (block-now id true w) in
      refresh_lem token _ c role
        (ap (λ n. verify_refresh_token s.jwt s.secrets n token) same ∙ valid) known plain
      ∙ ap
          (λ n. (
            ok (generate_access_token s.jwt s.secrets c.body role n),
            (update_user_block_status id true w).1,
          ))
          same
