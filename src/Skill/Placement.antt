-- ===== src/Skill/Placement.antt =====
-- Memberships and the cohorts that they are of, under the writes of memberships.
use skill_stew_api.Prelude.{◌≢◌, none, some, List, All, All-append, inl, inr, Option-cases}
use skill_stew_api.Prelude.Table.{lookup, All-replace}
use skill_stew_api.Effect.{◌>>=◌}
use skill_stew_api.Effect.Rules.{Keeps}
use skill_stew_api.Skill.Membership.{Membership, MembershipChanges, update_membership}
use skill_stew_api.Skill.Cohort.{Cohort}
use skill_stew_api.Skill.World.{World, Action}
use skill_stew_api.Skill.Repos.{membership_key, cohort_key, save_membership, create_membership}

abbrev pub HasCohort : List Cohort → Membership → Type 0
HasCohort cs m = lookup cohort_key m.cohort_id cs ≢ none

-- Each membership is of one of the cohorts `cs`.
abbrev pub IsPlaced : List Cohort → World → Type 0
IsPlaced cs w = All (HasCohort cs) w.memberships

pub save_membership-IsPlaced :
    (cs : List Cohort) (m : Membership) → HasCohort cs m → Keeps (IsPlaced cs) (save_membership m)
unfolding save_membership
save_membership-IsPlaced cs m known = record {
  kept = λ w h. elim (Option-cases (lookup membership_key m.id w.memberships)) [
    | inl gone ↦ rw (gone, save_membership) h
    | inr (old, found) ↦
        rw (found, save_membership)
          (All-replace membership_key (HasCohort cs) m.id _ w.memberships known h)
  ];
}

pub update_membership-HasCohort :
    (cs : List Cohort) (m : Membership) (c : MembershipChanges)
    → HasCohort cs m
    → HasCohort cs (update_membership m c)
unfolding update_membership
update_membership-HasCohort cs m c h = h

pub create_membership-IsPlaced :
    (cs : List Cohort) (m : Membership) → HasCohort cs m → Keeps (IsPlaced cs) (create_membership m)
unfolding create_membership
create_membership-IsPlaced cs m known = record {
  kept = λ w h. All-append (HasCohort cs) w.memberships _ h (known, tt);
}

-- What follows a creation gets a membership of the same cohort.
pub create_membership-then :
    {B : Type 0} (cs : List Cohort) (m : Membership) (f : Membership → Action B)
    → HasCohort cs m
    → ((saved : Membership) → HasCohort cs saved → Keeps (IsPlaced cs) (f saved))
    → Keeps (IsPlaced cs) (create_membership m >>= f)
unfolding create_membership ◌>>=◌
create_membership-then cs m f known rest = record {
  kept = λ w h.
      (rest (record m { created_at = some w.now; updated_at = some w.now }) known).kept _
        (All-append (HasCohort cs) w.memberships _ h (known, tt));
}
