-- ===== src/Skill/Cohorts/Checks.antt =====
-- The checks that the operations on cohorts share: none of them writes, and what a check that
-- returns has found.
use skill_stew_api.Prelude.{
  ℕ, ◌≤◌, ◌≡◌, refl, sym, ap, ◌∙◌, subst, ◌⊎◌, if◌then◌else◌, String, Bool, true, false, Option,
  none, some, List, arith, inl, inr, find, All, All-map, All-count, count_none, count,
}
use skill_stew_api.Prelude.Table.{lookup}
use skill_stew_api.Effect.{Result, ok, err, pure, ◌>>=◌, ◌>>◌, raise_if}
use skill_stew_api.Effect.Rules.{Keeps, keeps_rules}
use skill_stew_api.Effect.Inversion.{query-eq-ok, raise_if-eq-ok, gets-eq-ok, >>=-eq-ok}
use skill_stew_api.Skill.Membership.{Membership, given_or}
use skill_stew_api.Skill.Cohort.{Cohort}
use skill_stew_api.Skill.Workshop.{Workshop}
use skill_stew_api.Skill.Schedule.{ScheduleError, CohortWindow}
use skill_stew_api.Skill.World.{World, Action, conflict, has_memberships}
use skill_stew_api.Skill.Repos.{cohort_key, overlaps, find_overlapping, in_cohort, count_by_cohort}
use skill_stew_api.Skill.Seats.Counting.{is_holding, held, seat_counts-held}
use skill_stew_api.Skill.Cohorts.{
  CohortUpdate, lifted, assert_workshop_ready, get_owned_cohort, ensure_no_overlap, own_window,
  check_max_students, check_members, derive_schedule, to_response, updated_window,
}

-- A window that no cohort of the workshop but the excluded one overlaps.
abbrev pub IsFree : ℕ → CohortWindow → Option ℕ → List Cohort → Type 0
IsFree workshop x exclude cs =
    find (overlaps workshop x.first_session_starts_at x.last_session_starts_at exclude) cs ≡ none

module _ {P : World → Type 0} where
  pub lifted-Keeps : {A : Type 0} (r : Result ScheduleError A) → Keeps P (lifted r)
  lifted-Keeps (ok a) = search keeps_rules
  lifted-Keeps (err e) = search keeps_rules

  pub assert_workshop_ready-Keeps : (x : Workshop) → Keeps P (assert_workshop_ready x)
  unfolding assert_workshop_ready
  assert_workshop_ready-Keeps x = search (keeps_rules, lifted-Keeps) depth 12

  pub get_owned_cohort-Keeps : (id expert : ℕ) → Keeps P (get_owned_cohort id expert)
  unfolding get_owned_cohort
  get_owned_cohort-Keeps id expert = search keeps_rules

  pub ensure_no_overlap-Keeps :
      (workshop : ℕ) (x : CohortWindow) (exclude : Option ℕ)
      → Keeps P (ensure_no_overlap workshop x exclude)
  unfolding ensure_no_overlap
  ensure_no_overlap-Keeps workshop x exclude = search keeps_rules

  check_max_students-Keeps : (c : Cohort) (most : Option ℕ) → Keeps P (check_max_students c most)
  unfolding check_max_students
  check_max_students-Keeps c none = search keeps_rules
  check_max_students-Keeps c (some most) = search keeps_rules

  pub check_members-Keeps : (c : Cohort) (d : CohortUpdate) → Keeps P (check_members c d)
  unfolding check_members
  check_members-Keeps c d = search (keeps_rules, check_max_students-Keeps) depth 12

  module _ (short_offset : String → ℕ → Option String) where
    pub to_response-Keeps :
        (cdn : String) (c : Cohort) (x : Workshop) (active held : ℕ)
        → Keeps P (to_response short_offset cdn c x active held)
    unfolding to_response
    to_response-Keeps cdn c x active held = search (keeps_rules, lifted-Keeps) depth 12

    pub updated_window-Keeps :
        (cdn : String) (c : Cohort) (x : Workshop) (start : Option String)
        → Keeps P (updated_window short_offset cdn c x start)
    unfolding updated_window
    updated_window-Keeps cdn c x none = search keeps_rules
    updated_window-Keeps cdn c x (some start) =
        search (keeps_rules, lifted-Keeps, ensure_no_overlap-Keeps) depth 12

pub get_owned_cohort-eq-ok :
    (id expert : ℕ) (w v : World) (c : Cohort)
    → get_owned_cohort id expert w ≡ (ok c, v)
    → (lookup cohort_key id w.cohorts ≡ some c) × (c.expert_id ≡ expert)
unfolding get_owned_cohort
get_owned_cohort-eq-ok id expert w v c h =
    let (a, found, rest) = query-eq-ok _ _ _ w v c h in
    let (owned, last) = raise_if-eq-ok _ _ _ w v c rest in ground arith

pub ensure_no_overlap-eq-ok :
    (workshop : ℕ) (x : CohortWindow) (exclude : Option ℕ) (w v : World)
    → ensure_no_overlap workshop x exclude w ≡ (ok tt, v)
    → IsFree workshop x exclude w.cohorts
unfolding ensure_no_overlap find_overlapping ◌>>=◌
ensure_no_overlap-eq-ok workshop x exclude w v h = ground arith

-- A run that returns from an action that leaves the state alone ends where it began.
pub unchanged :
    {A : Type 0} (m : Action A) (w v : World) (a : A)
    → Keeps (λ u. u ≡ w) m
    → m w ≡ (ok a, v)
    → v ≡ w
unchanged m w v a h e = ap (λ p. p.1) (sym e) ∙ h.kept w refl

-- Where a cohort has no members, it holds no seats.
pub held-none :
    (now id : ℕ) (ms : List Membership) → All (λ m. in_cohort id m ≡ false) ms → held now id ms ≡ 0
unfolding held
held-none now id ms h = count_none (is_holding now id) ms (All-map (λ m out. ground arith) ms h)

check_max_students-eq-ok :
    (c : Cohort) (most : Option ℕ) (w v : World)
    → held w.now c.id w.memberships ≤ c.max_students
    → check_max_students c most w ≡ (ok tt, v)
    → held w.now c.id w.memberships ≤ given_or most c.max_students
unfolding check_max_students ◌>>=◌
check_max_students-eq-ok c none w v room h = room
check_max_students-eq-ok c (some most) w v room h =
    ground (arith, seat_counts-held w.now c.id w.memberships)

-- The new limit is not below the seats that are held.
members_checked :
    (some_in given : Bool) (c : Cohort) (most : Option ℕ) (w v : World)
    → held w.now c.id w.memberships ≤ c.max_students
    → (some_in ≡ false → held w.now c.id w.memberships ≡ 0)
    → (if some_in
          then raise_if given (conflict has_memberships) >> check_max_students c most
          else pure tt)
        w
      ≡ (ok tt, v)
    → held w.now c.id w.memberships ≤ given_or most c.max_students
members_checked true given c most w v room none_held h =
    let (_, rest) = raise_if-eq-ok given _ _ w v tt h in
    check_max_students-eq-ok c most w v room rest
members_checked false given c most w v room none_held h = omega (arith, none_held refl)

pub check_members-eq-ok :
    (c : Cohort) (d : CohortUpdate) (w v : World)
    → held w.now c.id w.memberships ≤ c.max_students
    → check_members c d w ≡ (ok tt, v)
    → held w.now c.id w.memberships ≤ given_or d.max_students c.max_students
unfolding check_members count_by_cohort
check_members-eq-ok c d w v room h =
    let rest = gets-eq-ok (λ u. count (in_cohort c.id) u.memberships) _ w v tt h in
    members_checked _ _ c d.max_students w v room
      (λ none_in.
        held-none w.now c.id w.memberships
          (All-count (in_cohort c.id) w.memberships (ground arith)))
      rest

pub updated_window-eq-ok :
    (short_offset : String → ℕ → Option String) (cdn : String) (c : Cohort) (x : Workshop)
    (start : Option String) (w v : World) (window : CohortWindow)
    → updated_window short_offset cdn c x start w ≡ (ok window, v)
    → (window ≡ own_window c) ⊎ IsFree c.workshop_id window (some c.id) w.cohorts
unfolding updated_window
updated_window-eq-ok short_offset cdn c x none w v window h = inl (ground arith)
updated_window-eq-ok short_offset cdn c x (some start) w v window h =
    let (derived, u, same, rest) =
      >>=-eq-ok (lifted (derive_schedule short_offset cdn x start)) _ w v window h in
    let (checked, t, free, last) =
      >>=-eq-ok (ensure_no_overlap c.workshop_id derived (some c.id)) _ u v window rest in
    let unchanged =
      (lifted-Keeps {P = λ s. s ≡ w} (derive_schedule short_offset cdn x start)).kept w refl in
    let here : u ≡ w = rw same at unchanged in
    let result : derived ≡ window = ground arith in
    let clear = ensure_no_overlap-eq-ok c.workshop_id derived (some c.id) u t free in
    inr (
      subst (λ y. IsFree c.workshop_id y (some c.id) w.cohorts) result
        (subst (λ s. IsFree c.workshop_id derived (some c.id) s.cohorts) here clear))
