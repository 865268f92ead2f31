-- ===== src/Skill/Views.antt =====
-- The views of cohorts, which write nothing: `getCohorts`, `getCohortById`, `getCohortMembers`,
-- `getPublicWorkshopById`, `getPublicCohortById` and `pickBestMembership` of
-- skill/src/application/services/CohortService.ts. `short_offset` and `cdn` are those of the
-- operations on cohorts.
pub mod Picking
mod Tests
use skill_stew_api.Prelude.{
  ℕ, Bool, true, false, not, ◌||◌, Option, none, some, List, [], ◌∷◌, String, ◌==◌, ltb, map,
  filter, find, if◌then◌else◌,
}
use skill_stew_api.Prelude.Sorting.{sort}
use skill_stew_api.Effect.{pure, gets, ◌>>=◌, ◌>>◌, raise_if}
use skill_stew_api.Skill.Membership.{
  Membership, MembershipStatus, pending_payment, active, payment_failed, expired, dropped, refunded,
  awaiting_reconciliation, given_or,
}
use skill_stew_api.Skill.Cohort.{
  Cohort, CohortStatus, upcoming, cohort_status, is_upcoming, completed,
}
use skill_stew_api.Skill.Workshop.{Workshop, Session}
use skill_stew_api.Skill.World.{
  World, Action, conflict, forbidden, cohort_not_public, workshop_not_public,
}
use skill_stew_api.Skill.Repos.{
  cohort_key, get_cohort, get_workshop, in_cohort, find_by_cohort_and_status,
  find_by_user_and_cohorts, find_by_workshop, find_by_expert,
}
use skill_stew_api.Skill.Seats.{SeatCounts, seat_counts, is_cohort_enrollable}
use skill_stew_api.Skill.Cohorts.{
  CohortSummary, CohortResponse, get_owned_cohort, banner_url, to_summary_response, to_response,
  is_published, is_given,
}

-- `priority`
abbrev pub priority : MembershipStatus → ℕ
priority active = 7
priority pending_payment = 6
priority awaiting_reconciliation = 5
priority refunded = 4
priority dropped = 3
priority payment_failed = 2
priority expired = 1

-- `membership.createdAt?.getTime() ?? 0`
abbrev pub created_time : Membership → ℕ
created_time m = given_or m.created_at 0

-- The comparison of `pickBestMembership` puts `a` ahead of `b`.
abbrev pub outranks : Membership → Membership → Bool
outranks a b =
    if priority a.status == priority b.status
    then ltb (created_time b) (created_time a)
    else ltb (priority b.status) (priority a.status)

abbrev pub head {ℓ} : {A : Type ℓ} → List A → Option A
head [] = none
head (a ∷ _) = some a

-- `pickBestMembership`
unfoldable pub pick_best_membership : List Membership → Option Membership
pick_best_membership ms = head (sort outranks ms)

-- `PublicEnrollmentContextDTO`
pub record EnrollmentContext : Type 0 where
  pub membership_id : ℕ
  pub cohort_id : ℕ
  pub status : MembershipStatus

-- `best ? this.toPublicEnrollmentContext(best) : null`
abbrev pub to_public_enrollment_context : Option Membership → Option EnrollmentContext
to_public_enrollment_context none = none
to_public_enrollment_context (some m) =
    some (record { membership_id = m.id; cohort_id = m.cohort_id; status = m.status })

-- What the public views add to a cohort.
pub record Standing : Type 0 where
  pub is_enrollable : Bool
  pub my_enrollment : Option EnrollmentContext
  pub has_enrollment_in_another_cohort : Bool

abbrev pub standing_of : ℕ → List Membership → Cohort → ℕ → Standing
standing_of now mine c held = record {
  is_enrollable = is_cohort_enrollable now c held;
  my_enrollment =
      to_public_enrollment_context (pick_best_membership (filter (in_cohort c.id) mine));
  has_enrollment_in_another_cohort = is_given (find (λ m. not (in_cohort c.id m)) mine);
}

-- `userId ? await this.cohortMembershipRepo.findByUserIdAndCohortIds(…) : []`
abbrev pub memberships_of : Option ℕ → List Cohort → List Membership → List Membership
memberships_of none cs ms = []
memberships_of (some user) cs ms = find_by_user_and_cohorts user (map cohort_key cs) ms

-- `PublicCohortSummaryResponseDTO`
pub record PublicSummary : Type 0 where
  pub summary : CohortSummary
  pub standing : Standing

-- `PublicCohortResponseDTO`
pub record PublicCohort : Type 0 where
  pub cohort : CohortResponse
  pub standing : Standing

-- `PublicWorkshopResponseDTO`
pub record PublicWorkshop : Type 0 where
  pub id : ℕ
  pub title : String
  pub description : Option String
  pub target_audience : Option String
  pub banner_image_key : Option String
  pub banner_image_url : Option String
  pub timezone : Option String
  pub sessions : List Session
  pub my_enrollment : Option EnrollmentContext
  pub cohorts : List PublicSummary

-- `CohortMemberResponseDTO`
pub record CohortMember : Type 0 where
  pub membership_id : ℕ
  pub user_id : ℕ
  pub payment_id : Option ℕ
  pub joined_at : Option ℕ

abbrev pub to_member : Membership → CohortMember
to_member m = record {
  membership_id = m.id;
  user_id = m.user_id;
  payment_id = m.payment_id;
  joined_at = m.joined_at;
}

-- `getCohortMembers`
unfoldable pub get_cohort_members : ℕ → ℕ → Action (List CohortMember)
get_cohort_members id expert = do
  c ← get_owned_cohort id expert
  gets (λ w. map to_member (find_by_cohort_and_status c.id active w.memberships))

-- `["upcoming", "active"].includes(status)`
abbrev pub is_public_status : CohortStatus → Bool
is_public_status completed = false
is_public_status _ = true

abbrev pub cohort_status_index : CohortStatus → ℕ
cohort_status_index upcoming = 0
cohort_status_index completed = 2
cohort_status_index _ = 1

-- `status ? summaries.filter((cohort) => cohort.status === status) : summaries`
abbrev pub with_status : Option CohortStatus → List CohortSummary → List CohortSummary
with_status none ss = ss
with_status (some s) ss = filter (λ x. cohort_status_index x.status == cohort_status_index s) ss

module _ (cdn : String) where
  abbrev pub summarise : World → Cohort → CohortSummary
  summarise w c =
      let counts = seat_counts w.now c.id w.memberships in
      to_summary_response cdn w.now c counts.active_seats counts.held_seats

  -- `getCohorts`
  unfoldable pub get_cohorts : ℕ → Option ℕ → Option CohortStatus → Action (List CohortSummary)
  get_cohorts expert workshop status =
      gets (λ w. with_status status (map (summarise w) (find_by_expert expert workshop w.cohorts)))

  abbrev pub public_summary : World → List Membership → Cohort → PublicSummary
  public_summary w mine c = record {
    summary = summarise w c;
    standing = standing_of w.now mine c (seat_counts w.now c.id w.memberships).held_seats;
  }

  -- The response of `getPublicWorkshopById`
  unfoldable pub public_workshop : Workshop → Option ℕ → World → PublicWorkshop
  public_workshop x user w =
      let all_cohorts = find_by_workshop x.id w.cohorts in
      let mine = memberships_of user all_cohorts w.memberships in
      record {
        id = x.id;
        title = x.title;
        description = x.description;
        target_audience = x.target_audience;
        banner_image_key = x.banner_image_key;
        banner_image_url = banner_url cdn x.banner_image_key;
        timezone = x.timezone;
        sessions = x.sessions;
        my_enrollment = to_public_enrollment_context (pick_best_membership mine);
        cohorts =
            map (public_summary w mine)
              (filter (λ c. is_upcoming (cohort_status c w.now)) all_cohorts);
      }

  -- `getPublicWorkshopById`
  unfoldable pub get_public_workshop_by_id : ℕ → Option ℕ → Action PublicWorkshop
  get_public_workshop_by_id id user = do
    x ← get_workshop id
    raise_if (not (is_published x.status)) (conflict workshop_not_public)
    gets (public_workshop x user)

module _ (short_offset : String → ℕ → Option String) (cdn : String) where
  -- `getCohortById`
  unfoldable pub get_cohort_by_id : ℕ → ℕ → Action CohortResponse
  get_cohort_by_id id expert = do
    c ← get_cohort id
    raise_if (not (c.expert_id == expert)) forbidden
    x ← get_workshop c.workshop_id
    counts ← gets (λ w. seat_counts w.now c.id w.memberships)
    to_response short_offset cdn c x counts.active_seats counts.held_seats

  -- `getPublicCohortById`
  unfoldable pub get_public_cohort_by_id : ℕ → Option ℕ → Action PublicCohort
  get_public_cohort_by_id id user = do
    c ← get_cohort id
    now ← gets (λ w. w.now)
    raise_if (not (is_public_status (cohort_status c now))) (conflict cohort_not_public)
    x ← get_workshop c.workshop_id
    raise_if (not (is_published x.status)) (conflict workshop_not_public)
    counts ← gets (λ w. seat_counts w.now c.id w.memberships)
    mine ← gets (λ w. memberships_of user (find_by_workshop c.workshop_id w.cohorts) w.memberships)
    response ← to_response short_offset cdn c x counts.active_seats counts.held_seats
    pure (record { cohort = response; standing = standing_of now mine c counts.held_seats })
