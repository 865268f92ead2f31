-- ===== src/Skill/Repos.antt =====
-- skill/src/infrastructure/repositories: the queries and writes that the cohort service makes.
-- A collection holds the entities as `toDomain` returns them; `create` and `update` stamp the
-- `timestamps` of the schema. Connection failures are left out.
use skill_stew_api.Prelude.{
  ℕ, Bool, true, false, ◌&&◌, none, some, List, [], ◌∷◌, ◌++◌, ◌==◌, ltb, leb, not, Option, find,
  if◌then◌else◌, filter, count,
}
use skill_stew_api.Prelude.Table.{lookup, replace, erase}
use skill_stew_api.Prelude.Sorting.{sort}
use skill_stew_api.Skill.Membership.{Membership, MembershipStatus, has_status, given_or}
use skill_stew_api.Skill.Cohort.{Cohort}
use skill_stew_api.Skill.Workshop.{Workshop, WorkshopStatus, status_is}
use skill_stew_api.Effect.{ok, err, or_raise}
use skill_stew_api.Skill.World.{OutboxEntry, Action, not_found, a_cohort, a_workshop, a_membership}

abbrev pub cohort_key : Cohort → ℕ
cohort_key c = c.id

abbrev pub workshop_key : Workshop → ℕ
workshop_key x = x.id

abbrev pub membership_key : Membership → ℕ
membership_key m = m.id

-- `CohortRepository.create`, `update` and `delete`
unfoldable pub insert_cohort : Cohort → Action Cohort
insert_cohort c w =
    let saved = record c { created_at = some w.now; updated_at = some w.now } in
    (ok saved, record w { cohorts = w.cohorts ++ saved ∷ [] })

unfoldable pub save_cohort : Cohort → Action Cohort
save_cohort c w = elim (lookup cohort_key c.id w.cohorts) [
  | none ↦ (err (not_found a_cohort), w)
  | some old ↦
      let saved = record c { created_at = old.created_at; updated_at = some w.now } in
      (ok saved, record w { cohorts = replace cohort_key c.id saved w.cohorts })
]

unfoldable pub remove_cohort : ℕ → Action (Unit {0})
remove_cohort id w = elim (lookup cohort_key id w.cohorts) [
  | none ↦ (err (not_found a_cohort), w)
  | some old ↦ (ok tt, record w { cohorts = erase cohort_key id w.cohorts })
]

-- `CohortRepository.getById`
abbrev pub get_cohort : ℕ → Action Cohort
get_cohort id w = or_raise (lookup cohort_key id w.cohorts) (not_found a_cohort) w

-- `WorkshopRepository.getById`
abbrev pub get_workshop : ℕ → Action Workshop
get_workshop id w = or_raise (lookup workshop_key id w.workshops) (not_found a_workshop) w

-- `WorkshopRepository.create` and `update`
unfoldable pub insert_workshop : Workshop → Action Workshop
insert_workshop x w =
    let saved = record x { created_at = some w.now; updated_at = some w.now } in
    (ok saved, record w { workshops = w.workshops ++ saved ∷ [] })

unfoldable pub save_workshop : Workshop → Action Workshop
save_workshop x w = elim (lookup workshop_key x.id w.workshops) [
  | none ↦ (err (not_found a_workshop), w)
  | some old ↦
      let saved = record x { created_at = old.created_at; updated_at = some w.now } in
      (ok saved, record w { workshops = replace workshop_key x.id saved w.workshops })
]

-- `WorkshopRepository.findByExpertId`, latest first
abbrev pub is_workshop_of : ℕ → Option WorkshopStatus → Workshop → Bool
is_workshop_of expert none x = x.expert_id == expert
is_workshop_of expert (some s) x = x.expert_id == expert && status_is s x.status

abbrev pub latest_first : Workshop → Workshop → Bool
latest_first a b = ltb (given_or b.updated_at 0) (given_or a.updated_at 0)

unfoldable pub find_workshops : ℕ → Option WorkshopStatus → List Workshop → List Workshop
find_workshops expert status xs = sort latest_first (filter (is_workshop_of expert status) xs)

-- `OutboxEventRepository.create`
unfoldable pub insert_entry : OutboxEntry → Action (Unit {0})
insert_entry e w = (ok tt, record w { outbox = w.outbox ++ e ∷ [] })

-- `CohortRepository.existsByWorkshopId`
abbrev pub of_workshop : ℕ → Cohort → Bool
of_workshop workshop c = c.workshop_id == workshop

abbrev pub exists_by_workshop : ℕ → List Cohort → Bool
exists_by_workshop workshop cs = elim (find (of_workshop workshop) cs) [
  | none ↦ false
  | some _ ↦ true
]

-- `CohortMembershipRepository.getById`
abbrev pub get_membership : ℕ → Action Membership
get_membership id w = or_raise (lookup membership_key id w.memberships) (not_found a_membership) w

abbrev pub elem : List ℕ → ℕ → Bool
elem [] a = false
elem (x ∷ xs) a = let rest = elem xs a in if x == a then true else rest

-- `CohortRepository.getByIds`
abbrev pub cohorts_by_ids : List ℕ → List Cohort → List Cohort
cohorts_by_ids ids = filter (λ c. elem ids c.id)

-- `CohortMembershipRepository.create`
unfoldable pub create_membership : Membership → Action Membership
create_membership m w =
    let saved = record m { created_at = some w.now; updated_at = some w.now } in
    (ok saved, record w { memberships = w.memberships ++ saved ∷ [] })

-- `CohortMembershipRepository.update`: `findByIdAndUpdate` with the attributes of `m`
unfoldable pub save_membership : Membership → Action Membership
save_membership m w = elim (lookup membership_key m.id w.memberships) [
  | none ↦ (err (not_found a_membership), w)
  | some old ↦
      let saved = record m { created_at = old.created_at; updated_at = some w.now } in
      (ok saved, record w { memberships = replace membership_key m.id saved w.memberships })
]

-- The query `{ userId, status: { $in: statuses } }`.
abbrev pub of_user : ℕ → List MembershipStatus → Membership → Bool
of_user user statuses m = m.user_id == user && has_status statuses m.status

-- The query `{ cohortId, status: { $in: statuses } }`.
abbrev pub of_cohort : ℕ → List MembershipStatus → Membership → Bool
of_cohort cohort statuses m = m.cohort_id == cohort && has_status statuses m.status

-- `createdAt: -1`
abbrev pub newest_first : Membership → Membership → Bool
newest_first a b = ltb (given_or b.created_at 0) (given_or a.created_at 0)

-- `findByUserIdAndStatuses`
unfoldable pub find_by_user_and_statuses :
    ℕ → List MembershipStatus → List Membership → List Membership
find_by_user_and_statuses user statuses = filter (of_user user statuses)

-- `findByCohortIdAndStatuses`
unfoldable pub find_by_cohort_and_statuses :
    ℕ → List MembershipStatus → List Membership → List Membership
find_by_cohort_and_statuses cohort statuses ms =
    sort newest_first (filter (of_cohort cohort statuses) ms)

-- `countByCohortIdAndStatuses`
unfoldable pub count_by_cohort_and_statuses : ℕ → List MembershipStatus → List Membership → ℕ
count_by_cohort_and_statuses cohort statuses = count (of_cohort cohort statuses)

-- `countByCohortId`
abbrev pub in_cohort : ℕ → Membership → Bool
in_cohort cohort m = m.cohort_id == cohort

unfoldable pub count_by_cohort : ℕ → List Membership → ℕ
count_by_cohort cohort = count (in_cohort cohort)

-- `findByCohortIdAndStatus`: by the time of joining, then of creation; null sorts first.
abbrev pub joined_first : Membership → Membership → Bool
joined_first a b =
    let x = given_or a.joined_at 0 in
    let y = given_or b.joined_at 0 in
    if x == y then ltb (given_or a.created_at 0) (given_or b.created_at 0) else ltb x y

unfoldable pub find_by_cohort_and_status : ℕ → MembershipStatus → List Membership → List Membership
find_by_cohort_and_status cohort status ms =
    sort joined_first (filter (of_cohort cohort (status ∷ [])) ms)

-- `findByUserIdAndCohortIds`, with no statuses given
unfoldable pub find_by_user_and_cohorts : ℕ → List ℕ → List Membership → List Membership
find_by_user_and_cohorts user cohorts ms =
    sort newest_first (filter (λ m. m.user_id == user && elem cohorts m.cohort_id) ms)

abbrev pub starts_first : Cohort → Cohort → Bool
starts_first a b = ltb a.first_session_starts_at b.first_session_starts_at

-- `findByWorkshopId`
unfoldable pub find_by_workshop : ℕ → List Cohort → List Cohort
find_by_workshop workshop cs = sort starts_first (filter (λ c. c.workshop_id == workshop) cs)

-- `findByExpertId`
abbrev pub of_expert : ℕ → Option ℕ → Cohort → Bool
of_expert expert none c = c.expert_id == expert
of_expert expert (some workshop) c = c.expert_id == expert && c.workshop_id == workshop

unfoldable pub find_by_expert : ℕ → Option ℕ → List Cohort → List Cohort
find_by_expert expert workshop cs = sort starts_first (filter (of_expert expert workshop) cs)

-- `findOverlappingByWorkshopId`
abbrev pub is_other : Option ℕ → Cohort → Bool
is_other none c = true
is_other (some id) c = not (c.id == id)

abbrev pub overlaps : ℕ → ℕ → ℕ → Option ℕ → Cohort → Bool
overlaps workshop first last exclude c =
    c.workshop_id == workshop
    && leb c.first_session_starts_at last
    && leb first c.last_session_starts_at
    && is_other exclude c

unfoldable pub find_overlapping : ℕ → ℕ → ℕ → Option ℕ → List Cohort → Option Cohort
find_overlapping workshop first last exclude = find (overlaps workshop first last exclude)
