-- ===== src/Accounts/Profiles/Updating.antt =====
-- What a changed profile shows afterwards.
use skill_stew_api.Prelude.{
  ◌≡◌, ◌≢◌, refl, sym, ap, ◌∙◌, ℕ, Option, none, some, List, map, find, find-map_where,
  find-map_apart, String, arith,
}
use skill_stew_api.Effect.{Result, ok, err, pure, or_raise, ◌>>=◌}
use skill_stew_api.Effect.Results.{ok_inj}
use skill_stew_api.Effect.Rules.{Keeps, Keeps-bind}
use skill_stew_api.Effect.Inversion.{>>=-eq-ok, transact-eq-ok}
use skill_stew_api.Accounts.World.{
  UserProfile, World, Error, not_found, fresh_id, rollback, in_transaction,
}
use skill_stew_api.Accounts.Repo.{announce_event}
use skill_stew_api.Accounts.Profiles.{
  ProfileChanges, changed_profile, is_of_user, change_of_user, update_by_user_id, asset_url,
  announce_profile, profile_work, ProfileResponse, profile_response, without_onboarding,
  update_user_profile, get_user_avatar,
}

module _ (id now : ℕ) (d : ProfileChanges) where
  update_by_user_id-led :
      (w v : World) (p : UserProfile)
      → update_by_user_id id d w ≡ (ok p, v)
      → (old : UserProfile) × (find (is_of_user id) w.profiles ≡ some old)
        × (p ≡ changed_profile w.now d old)
        × (v.profiles ≡ map (change_of_user id w.now d) w.profiles)
  unfolding update_by_user_id
  update_by_user_id-led w v p h = ground arith

announce_profile-profiles :
    (ps : List UserProfile) (p : UserProfile) → Keeps (λ w. w.profiles ≡ ps) (announce_profile p)
unfolding announce_profile announce_event
announce_profile-profiles ps p =
    Keeps-bind fresh_id _ (record { kept = λ w h. h }) λ id. record { kept = λ w h. h }

returned :
    {A : Type 0} (a b : A) (w v : World)
    → Path (Result Error A × World) (ok a, w) (ok b, v)
    → (a ≡ b) × (w ≡ v)
returned a b w v h = (ok_inj a b (ap (λ r. r.0) h), ap (λ r. r.1) h)

profile_work-led :
    (id : ℕ) (d : ProfileChanges) (w v : World) (p : UserProfile)
    → profile_work id d w ≡ (ok p, v)
    → (old : UserProfile) × (find (is_of_user id) w.profiles ≡ some old)
      × (p ≡ changed_profile w.now d old)
      × (v.profiles ≡ map (change_of_user id w.now d) w.profiles)
unfolding profile_work
profile_work-led id d w v p h =
    let (q, w1, e1, k1) = >>=-eq-ok (update_by_user_id id d) _ w v p h in
    let (t, w2, e2, k2) = >>=-eq-ok (announce_profile q) _ w1 v p k1 in
    let (old, found, q_eq, w1_eq) = update_by_user_id-led id w.now d w w1 q e1 in
    let same = (announce_profile-profiles w1.profiles q).kept w1 refl in
    let (p_eq, v_eq) = returned q p w2 v k2 in
    (
      old,
      found,
      sym p_eq ∙ q_eq,
      ap (λ u. u.profiles) (sym v_eq) ∙ sym (ap (λ r. r.1.profiles) e2) ∙ same ∙ w1_eq,
    )

-- The avatar that a query for a profile leads to
abbrev avatar_of : String → Option UserProfile → World → Result Error (Option String) × World
avatar_of cdn none w = (err not_found, w)
avatar_of cdn (some p) w = (ok (asset_url cdn p.avatar_key), w)

shown :
    (cdn : String) (o : Option UserProfile) (w : World)
    → ((λ u. or_raise o not_found u) >>= λ p. pure (asset_url cdn p.avatar_key)) w
      ≡ avatar_of cdn o w
unfolding ◌>>=◌
shown cdn none w = refl
shown cdn (some p) w = refl

seen :
    (cdn : String) (j : ℕ) (w : World)
    → get_user_avatar cdn j w ≡ avatar_of cdn (find (is_of_user j) w.profiles) w
unfolding get_user_avatar ◌>>=◌
seen cdn j w = shown cdn (find (is_of_user j) w.profiles) w

unseen :
    (cdn : String) (o : Option UserProfile) (w v : World)
    → (avatar_of cdn o v).0 ≡ (avatar_of cdn o w).0
unseen cdn none w v = refl
unseen cdn (some p) w v = refl

-- For a change of a profile that returns: the avatar of the user is seen then at the address that
-- was returned, and that of everyone else as before.
pub get_user_avatar-update_user_profile :
    (cdn : String) (id : ℕ) (d : ProfileChanges) (w v : World) (r : ProfileResponse)
    → update_user_profile cdn id d w ≡ (ok r, v)
    → (get_user_avatar cdn id v ≡ (ok r.avatar_url, v))
      × ((j : ℕ) → j ≢ id → (get_user_avatar cdn j v).0 ≡ (get_user_avatar cdn j w).0)
unfolding update_user_profile
get_user_avatar-update_user_profile cdn id d w v r h =
    let e = without_onboarding d in
    let (p, u, done, answer) = >>=-eq-ok (in_transaction (profile_work id e)) _ w v r h in
    let (old, found, p_eq, u_eq) =
      profile_work-led id e w u p (transact-eq-ok rollback (profile_work id e) w u p done) in
    let (r_eq, v_eq) = returned (profile_response cdn p) r u v answer in
    let rows = ap (λ x. x.profiles) (sym v_eq) ∙ u_eq in
    let now_there =
      ap (find (is_of_user id)) rows
      ∙ find-map_where (is_of_user id) (is_of_user id) (changed_profile w.now e) w.profiles old
          (λ x. refl) found
      ∙ ap some (sym p_eq) in
    (
      seen cdn id v ∙ ap (λ o. avatar_of cdn o v) now_there ∙ ap (λ x. (ok x.avatar_url, v)) r_eq,
      λ j other.
          ap (λ x. x.0) (seen cdn j v)
          ∙ ap (λ ps. (avatar_of cdn (find (is_of_user j) ps) v).0) rows
          ∙ ap (λ o. (avatar_of cdn o v).0)
              (find-map_apart (is_of_user id) (is_of_user j) (changed_profile w.now e) w.profiles
                (λ x here. ground arith) (λ x here. ground arith))
          ∙ unseen cdn (find (is_of_user j) w.profiles) w v
          ∙ ap (λ x. x.0) (sym (seen cdn j w)),
    )
