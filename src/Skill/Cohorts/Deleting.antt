-- ===== src/Skill/Cohorts/Deleting.antt =====
-- `deleteCohort` on the three collections.
use skill_stew_api.Prelude.{
  ℕ, ◌≡◌, false, some, none, All, All-zip, All-count, arith, ◌==◌, ltb, count, if◌then◌else◌,
}
use skill_stew_api.Prelude.Table.{lookup, erase, lookup-erase, lookup-key, HasUniqueKeys-erase}
use skill_stew_api.Effect.Rules.{Reaches, Reaches-after, Reaches-gets, Reaches-raise_if}
use skill_stew_api.Skill.Membership.{Membership}
use skill_stew_api.Skill.Cohort.{Cohort}
use skill_stew_api.Skill.World.{World}
use skill_stew_api.Skill.Repos.{cohort_key, in_cohort, count_by_cohort, remove_cohort}
use skill_stew_api.Skill.Placement.{HasCohort}
use skill_stew_api.Skill.Soundness.{IsSound}
use skill_stew_api.Skill.Cohorts.{get_owned_cohort, delete_cohort}
use skill_stew_api.Skill.Cohorts.Checks.{get_owned_cohort-Keeps, get_owned_cohort-eq-ok}

module _ (w : World) (h : IsSound w) (c : Cohort)
    (found : lookup cohort_key c.id w.cohorts ≡ some c)
    (empty : All (λ m. in_cohort c.id m ≡ false) w.memberships) where
  left :
      (j : ℕ)
      → lookup cohort_key j (erase cohort_key c.id w.cohorts)
        ≡ (if j == c.id then none else lookup cohort_key j w.cohorts)
  left j = lookup-erase cohort_key j c.id w.cohorts h.unique

  still_HasCohort :
      (m : Membership)
      → HasCohort w.cohorts m
      → in_cohort c.id m ≡ false
      → HasCohort (erase cohort_key c.id w.cohorts) m
  still_HasCohort m known other = ground (arith, left m.cohort_id)

  erased-IsSound : IsSound (record w { cohorts = erase cohort_key c.id w.cohorts })
  erased-IsSound = record {
    valid = record {
      fresh = h.valid.fresh;
      dated = h.valid.dated;
      room = λ id d known. h.valid.room id d (ground (arith, left id));
    };
    placed = All-zip still_HasCohort w.memberships h.placed empty;
    unused = λ k le. ground (arith, left k, h.unused k le);
    unique = HasUniqueKeys-erase cohort_key c.id w.cohorts h.unique;
    apart = λ j k d e other one two same.
        h.apart j k d e other (ground (arith, left j)) (ground (arith, left k)) same;
  }

  remove-IsSound : Reaches IsSound w (remove_cohort c.id)
  unfolding remove_cohort
  remove-IsSound = record { reached = rw (found, remove_cohort) erased-IsSound }

-- The deletion of a cohort keeps everything sound: a cohort with members stays.
pub delete_cohort-IsSound :
    (id expert : ℕ) (w : World) → IsSound w → IsSound (delete_cohort id expert w).1
unfolding delete_cohort count_by_cohort
delete_cohort-IsSound id expert w h =
    (Reaches-after (get_owned_cohort id expert) _ (get_owned_cohort-Keeps id expert) h λ c owned.
      let (known, mine) = get_owned_cohort-eq-ok id expert w w c owned in
      let key = lookup-key cohort_key id w.cohorts c known in
      Reaches-gets _ _ (
        Reaches-raise_if (ltb 0 (count (in_cohort c.id) w.memberships)) _ _ h λ passed.
          remove-IsSound w h c (ground arith)
            (All-count (in_cohort c.id) w.memberships (ground arith)))).reached
