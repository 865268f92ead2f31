-- ===== src/Accounts/Views/Experts.antt =====
-- Every expert can see the own profile.
use skill_stew_api.Prelude.{
  ◌≡◌, ap, subst, ◌∙◌, ℕ, ◌≤◌, true, Option, some, List, find, find-holds, count,
  count_of_find-none, String, arith, Option-cases, inl, inr,
}
use skill_stew_api.Prelude.Table.{lookup, All-lookup, lookup-key}
use skill_stew_api.Effect.{Result, ok, or_raise}
use skill_stew_api.Effect.Inversion.{>>=-of-ok}
use skill_stew_api.Accounts.World.{User, ExpertProfile, World, Error, not_found}
use skill_stew_api.Accounts.Repo.{user_key, get_user}
use skill_stew_api.Accounts.Access.{Services}
use skill_stew_api.Accounts.Earned.{is_expert, is_profile_of, Earned, IsEarned}
use skill_stew_api.Accounts.Earned.History.{History, History-IsEarned}
use skill_stew_api.Accounts.Views.{
  current_expert, get_expert_profile, get_current_expert_profile, is_of_expert,
}

found :
    {A : Type 0} (o : Option A) (a : A) (e : Error) (w : World)
    → o ≡ some a
    → Path (Result Error A × World) (or_raise o e w) (ok a, w)
found o a e w h = ap (λ x. or_raise x e w) h

present :
    (id : ℕ) (ps : List ExpertProfile)
    → 1 ≤ count (is_profile_of id) ps
    → (p : ExpertProfile) × (find (is_of_expert id) ps ≡ some p)
present id ps h = elim (Option-cases (find (is_of_expert id) ps)) [
  | inr there ↦ there
  | inl gone ↦ absurd (omega (arith, h, count_of_find-none (is_profile_of id) ps gone))
]

-- From a state where every expert has earned it, after any use cases of accounts: the profile of an
-- expert is there to be seen, and changes nothing.
pub get_current_expert_profile_returns :
    (s : Services) (cdn : String) (id : ℕ) (w v : World) (u : User)
    → IsEarned w
    → History s w v
    → lookup user_key id v.users ≡ some u
    → is_expert u.role ≡ true
    → (p : ExpertProfile) × (p.expert_id ≡ id)
      × (get_current_expert_profile cdn id v ≡ (ok (current_expert cdn u p), v))
unfolding get_current_expert_profile
get_current_expert_profile_returns s cdn id w v u h steps known role =
    let fact =
      (All-lookup user_key (Earned v.applications v.expert_profiles) id v.users u
          (History-IsEarned s h steps).earned known)
        role in
    let same = lookup-key user_key id v.users u known in
    let (p, there) =
      present id v.expert_profiles
        (subst (λ k. 1 ≤ count (is_profile_of k) v.expert_profiles) same fact.1) in
    (
      p,
      ground (arith, find-holds (is_of_expert id) v.expert_profiles p there),
      >>=-of-ok (get_user id) _ v v u (found (lookup user_key id v.users) u not_found v known)
          ∙ >>=-of-ok (get_expert_profile id) _ v v p
              (found (find (is_of_expert id) v.expert_profiles) p not_found v there),
    )
