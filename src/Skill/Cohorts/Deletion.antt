-- ===== src/Skill/Cohorts/Deletion.antt =====
-- What `deleteCohort` does to the collections, as its caller sees it.
use skill_stew_api.Prelude.{ℕ, ◌≡◌, subst, count, some, arith, ltb}
use skill_stew_api.Prelude.Table.{lookup, erase, lookup-key}
use skill_stew_api.Effect.{ok, err}
use skill_stew_api.Effect.Rules.{Keeps-raise_if, Keeps-gets}
use skill_stew_api.Effect.Failing.{Undone, Undone-after}
use skill_stew_api.Effect.Inversion.{raise_if-eq-ok, gets-eq-ok, >>=-eq-ok}
use skill_stew_api.Skill.Cohort.{Cohort}
use skill_stew_api.Skill.World.{World, Error}
use skill_stew_api.Skill.Repos.{cohort_key, remove_cohort, count_by_cohort, in_cohort}
use skill_stew_api.Skill.Cohorts.{get_owned_cohort, delete_cohort}
use skill_stew_api.Skill.Cohorts.Checks.{get_owned_cohort-Keeps, unchanged, get_owned_cohort-eq-ok}

removed-eq-ok :
    (id : ℕ) (w v : World)
    → remove_cohort id w ≡ (ok tt, v)
    → v ≡ record w { cohorts = erase cohort_key id w.cohorts }
unfolding remove_cohort
removed-eq-ok id w v h = ground arith

removed : (id : ℕ) (w : World) → Undone w (remove_cohort id)
unfolding remove_cohort
removed id w = record { undone = λ e v h. ground arith }

-- A deletion that throws has written nothing.
pub delete_cohort_failed :
    (id expert : ℕ) (w v : World) (e : Error) → delete_cohort id expert w ≡ (err e, v) → v ≡ w
unfolding delete_cohort
delete_cohort_failed id expert w v e h =
    (Undone-after _ _ (get_owned_cohort-Keeps id expert) λ c owned.
        Undone-after _ _ (Keeps-gets _) λ members counted.
          Undone-after _ _ (Keeps-raise_if _ _) λ _ passed. removed c.id w).undone
      e v h

module _ (id expert : ℕ) where
  pub record Deleted (w v : World) : Type 0 where
    pub cohort : Cohort
    pub found : lookup cohort_key id w.cohorts ≡ some cohort
    pub owner : cohort.expert_id ≡ expert
    pub memberless : count (in_cohort id) w.memberships ≡ 0
    pub state : v ≡ record w { cohorts = erase cohort_key id w.cohorts }

  -- A deletion that returns was asked for by the expert of the cohort, which nobody had joined or
  -- reserved a seat of, and takes out that cohort alone.
  pub delete_cohort-Deleted : (w v : World) → delete_cohort id expert w ≡ (ok tt, v) → Deleted w v
  unfolding delete_cohort count_by_cohort
  delete_cohort-Deleted w v h =
      let (c, u, owned, rest) = >>=-eq-ok (get_owned_cohort id expert) _ w v tt h in
      let same =
        unchanged (get_owned_cohort id expert) w u c (get_owned_cohort-Keeps id expert) owned in
      let (known, mine) = get_owned_cohort-eq-ok id expert w u c owned in
      let key = lookup-key cohort_key id w.cohorts c known in
      let counted = gets-eq-ok (λ s. count (in_cohort c.id) s.memberships) _ u v tt rest in
      let (none_in, last) =
        raise_if-eq-ok (ltb 0 (count (in_cohort c.id) u.memberships)) _ _ u v tt counted in
      record {
        cohort = c;
        found = known;
        owner = mine;
        memberless = ground (arith, none_in, same, key);
        state =
            subst (λ k. v ≡ record w { cohorts = erase cohort_key k w.cohorts }) key
              (subst (λ s. v ≡ record s { cohorts = erase cohort_key c.id s.cohorts }) same
                (removed-eq-ok c.id u v last));
      }
