-- ===== src/Gateway/Authority.antt =====
-- Who gets past the gateway, and as whom.
use text.Mathlib.Text.{◌==◌ as str_eq}
use skill_stew_api.Prelude.{
  ℕ, ◌≡◌, refl, ◌∙◌, ◌⊎◌, inl, inr, Bool, true, false, Option, none, some, List, [], ◌∷◌, String,
  find, arith, Bool-cases, All, some_inj,
}
use skill_stew_api.Effect.{ok}
use skill_stew_api.Effect.Results.{found_or}
use skill_stew_api.Tokens.{UserRole, role_text, Claims, Jwt, Secrets, secret_of}
use skill_stew_api.Gateway.{
  AuthPolicy, public, protected, RouteGroup, ServiceName, Request, proxied, token_of, includes,
  proxy, anonymous, with_token, resolve_auth_policy, resolve_overrides, RouteOverride, guarded,
  gateway, first_piece,
}

pub found_or-eq-ok :
    {E A : Type 0} (e : E) (o : Option A) (a : A) → found_or e o ≡ ok a → o ≡ some a
found_or-eq-ok e none a h = absurd (ground arith)
found_or-eq-ok e (some b) a h = ground arith

module _ (jwt : Jwt) (secrets : Secrets) (now : ℕ) where
  -- The token of the request is valid now under the secret of the role that it claims.
  pub record Proven (r : Request) (c : Claims) : Type 0 where
    pub token : String
    pub role : UserRole
    pub presented : token_of r.authorization ≡ some token
    pub signed : jwt.verify token (secret_of secrets role) now ≡ some c
    pub own_role : c.body.role ≡ role_text role

  -- What the headers of a request that is passed on say: its sender's claims, or what the sender
  -- wrote, where the policy lets requests pass without a token.
  abbrev pub Speaks : Request → Option ℕ → Option String → Claims → Type 0
  Speaks r id role c = Proven r c × (id ≡ some c.body.user_id) × (role ≡ some c.body.role)

  abbrev pub Allowed : AuthPolicy → Request → Option ℕ → Option String → Type 0
  Allowed public r id role =
      ((token_of r.authorization ≡ none) × (id ≡ r.x_user_id) × (role ≡ r.x_user_role))
      ⊎ ((c : Claims) × Speaks r id role c)
  Allowed (protected roles) r id role =
      (c : Claims) × Speaks r id role c × (includes roles c.body.role ≡ true)

  module _ (matches mounts : String → String → Bool) where
    -- The policy of a group for a request.
    abbrev pub policy_for : RouteGroup → Request → AuthPolicy
    policy_for g r = resolve_auth_policy matches (first_piece b'?' r.original_url) r.method g

    pub record Admitted (gs : List RouteGroup) (r : Request) (s : ServiceName) (id : Option ℕ)
        (role : Option String) : Type 0 where
      pub group : RouteGroup
      pub mounted : find (λ g. mounts g.prefix r.original_url) gs ≡ some group
      pub service : group.service ≡ s
      pub allowed : Allowed (policy_for group r) r id role

    -- A method that no override names gets the policy of the group.
    other_method :
        (os : List RouteOverride) (path method : String) (auth : AuthPolicy)
        → All (λ o. str_eq o.method method ≡ false) os
        → resolve_overrides matches os path method auth ≡ auth
    unfolding resolve_overrides
    other_method [] path method auth h = refl
    other_method (o ∷ os) path method auth (first, h) =
        rw first (other_method os path method auth h)

    open_passes :
        (g : RouteGroup) (r : Request) (policy : AuthPolicy)
        → policy_for g r ≡ policy
        → policy ≡ public
        → token_of r.authorization ≡ none
        → guarded matches mounts jwt secrets now g r ≡ proxied g.service r.x_user_id r.x_user_role
    unfolding guarded with_token anonymous proxy
    open_passes g r policy here open_to_all bare = rw (bare, here ∙ open_to_all) refl

    -- Where the first group that is mounted at the path of a request lets requests pass without a
    -- token and names the method of the request in no override, a request without a token goes to
    -- its service with the identity headers that the sender wrote.
    pub gateway_unnamed_method :
        (gs : List RouteGroup) (g : RouteGroup) (r : Request)
        → find (λ h. mounts h.prefix r.original_url) gs ≡ some g
        → g.auth ≡ public
        → All (λ o. str_eq o.method r.method ≡ false) g.overrides
        → token_of r.authorization ≡ none
        → gateway matches mounts jwt secrets now gs r ≡ proxied g.service r.x_user_id r.x_user_role
    unfolding gateway
    gateway_unnamed_method [] g r h auth others bare = absurd (ground arith)
    gateway_unnamed_method (f ∷ gs) g r h auth others bare =
        elim (Bool-cases (mounts f.prefix r.original_url)) [
          | inl e ↦
              let same : f ≡ g = some_inj (rw e at h) in
              rw (e, same)
                (open_passes g r (policy_for g r) refl
                  (other_method g.overrides _ r.method g.auth others ∙ auth) bare)
          | inr e ↦ rw e (gateway_unnamed_method gs g r (rw e at h) auth others bare)
        ]
