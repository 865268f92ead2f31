-- ===== src/Skill/Seats.antt =====
-- The seats of a cohort: `getSeatCounts`, `getHeldSeats`, `isCohortEnrollable` of
-- skill/src/application/services/CohortService.ts.
pub mod Counting
use skill_stew_api.Prelude.{
  ℕ, ◌+◌, Bool, false, ◌&&◌, none, some, List, [], ◌∷◌, ltb, leb, length, filter,
}
use skill_stew_api.Skill.Membership.{Membership, MembershipStatus, pending_payment, active}
use skill_stew_api.Skill.Cohort.{Cohort, cohort_status, is_upcoming}
use skill_stew_api.Skill.Repos.{find_by_cohort_and_statuses, count_by_cohort_and_statuses}

-- `membership.expiresAt && membership.expiresAt > new Date()`
abbrev pub is_unexpired : ℕ → Membership → Bool
is_unexpired now m = elim m.expires_at [ none ↦ false | some t ↦ ltb now t ]

-- `membership.expiresAt && membership.expiresAt <= new Date()`
abbrev pub is_stale : ℕ → Membership → Bool
is_stale now m = elim m.expires_at [ none ↦ false | some t ↦ leb t now ]

pub record SeatCounts : Type 0 where
  pub active_seats : ℕ
  pub held_seats : ℕ

-- `getSeatCounts`
unfoldable pub seat_counts : ℕ → ℕ → List Membership → SeatCounts
seat_counts now cohort_id ms =
    let active_seats = count_by_cohort_and_statuses cohort_id (active ∷ []) ms in
    let pending = find_by_cohort_and_statuses cohort_id (pending_payment ∷ []) ms in
    record {
      active_seats = active_seats;
      held_seats = active_seats + length (filter (is_unexpired now) pending);
    }

-- `isCohortEnrollable`
unfoldable pub is_cohort_enrollable : ℕ → Cohort → ℕ → Bool
is_cohort_enrollable now c held_seats =
    is_upcoming (cohort_status c now) && ltb held_seats c.max_students
