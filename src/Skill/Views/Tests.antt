-- ===== src/Skill/Views/Tests.antt =====
-- A published workshop with a cohort to come and one that is over, as a user sees them who has
-- dropped out of the first and then joined it again.
use skill_stew_api.Prelude.{ℕ, ◌≡◌, refl, true, false, none, some, List, [], ◌∷◌}
use skill_stew_api.Prelude.Sorting.{sort, insert}
use skill_stew_api.Effect.{ok, err, ◌>>=◌}
use skill_stew_api.Skill.Membership.{Membership, MembershipStatus, dropped, active}
use skill_stew_api.Skill.Cohort.{Cohort, derived_status}
use skill_stew_api.Skill.Workshop.{Workshop, published}
use skill_stew_api.Skill.World.{World, conflict, cohort_not_public}
use skill_stew_api.Skill.Repos.{
  find_by_cohort_and_statuses, count_by_cohort_and_statuses, find_by_cohort_and_status,
  find_by_user_and_cohorts, find_by_workshop, find_by_expert,
}
use skill_stew_api.Skill.Seats.{seat_counts, is_cohort_enrollable}
use skill_stew_api.Skill.Cohorts.{get_owned_cohort}
use skill_stew_api.Skill.Views.{
  EnrollmentContext, pick_best_membership, get_cohort_members, get_cohorts, public_workshop,
  get_public_cohort_by_id, summarise, to_member,
}
use skill_stew_api.Skill.Views.Picking.{IsBest, pick_best_membership-IsBest}

abbrev weaving : Workshop
weaving = record {
  id = 1;
  expert_id = 100;
  title = "Weaving";
  description = none;
  target_audience = none;
  banner_image_key = none;
  max_cohort_size = 2;
  status = published;
  sessions = [];
  timezone = some "Asia/Kolkata";
  created_at = none;
  updated_at = none;
}

abbrev cohort_at : ℕ → ℕ → Cohort
cohort_at id time = record {
  id = id;
  workshop_id = 1;
  expert_id = 100;
  workshop_title = "Weaving";
  workshop_banner_image_key = none;
  workshop_timezone = "Asia/Kolkata";
  spot_price_amount = 0;
  currency = "INR";
  start_date = "2026-06-01";
  max_students = 2;
  first_session_starts_at = time;
  last_session_starts_at = time;
  created_at = none;
  updated_at = none;
}

abbrev membership : ℕ → MembershipStatus → ℕ → Membership
membership id status made = record {
  id = id;
  cohort_id = 3;
  user_id = 200;
  payment_id = none;
  status = status;
  joined_at = none;
  expires_at = none;
  last_payment_event_at = none;
  created_at = some made;
  updated_at = none;
}

abbrev mine : List Membership
mine = membership 5 dropped 30 ∷ membership 6 active 20 ∷ membership 7 dropped 40 ∷ []

abbrev loom : World
loom = record {
  now = 50;
  next_id = 8;
  workshops = weaving ∷ [];
  cohorts = cohort_at 2 10 ∷ cohort_at 3 90 ∷ [];
  memberships = mine;
  checkouts = [];
  outbox = [];
}

abbrev joined : EnrollmentContext
joined = record { membership_id = 6; cohort_id = 3; status = active }

-- The active membership is shown, of the cohort to come; a seat of it is left.
views :
    (get_cohorts "cdn" 100 none none loom ≡ (
      ok (summarise "cdn" loom (cohort_at 2 10) ∷ summarise "cdn" loom (cohort_at 3 90) ∷ []),
      loom,
    ))
    × (get_cohort_members 3 100 loom ≡ (ok (to_member (membership 6 active 20) ∷ []), loom))
    × ((public_workshop "cdn" weaving (some 200) loom).my_enrollment ≡ some joined)
    × ((public_workshop "cdn" weaving (some 200) loom).cohorts
        ≡ record {
          summary = summarise "cdn" loom (cohort_at 3 90);
          standing = record {
            is_enrollable = true;
            my_enrollment = some joined;
            has_enrollment_in_another_cohort = false;
          };
        }
          ∷ [])
    × (get_public_cohort_by_id (λ zone instant. none) "cdn" 2 none loom
        ≡ (err (conflict cohort_not_public), loom))
unfolding get_cohorts get_cohort_members get_owned_cohort public_workshop get_public_cohort_by_id
    pick_best_membership seat_counts is_cohort_enrollable derived_status find_by_cohort_and_statuses
    count_by_cohort_and_statuses find_by_cohort_and_status find_by_user_and_cohorts find_by_workshop
    find_by_expert sort insert ◌>>=◌
views = (refl, refl, refl, refl, refl)

pick_best_membership-IsBest_example : IsBest mine (pick_best_membership mine)
pick_best_membership-IsBest_example = pick_best_membership-IsBest mine
