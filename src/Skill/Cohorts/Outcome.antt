-- ===== src/Skill/Cohorts/Outcome.antt =====
-- What `createCohort` does to the collections, as its caller sees it.
use skill_stew_api.Prelude.{
  ℕ, ◌-◌, ◌≡◌, ◌∙◌, refl, sym, ap, subst, true, Option, some, none, List, String, arith,
}
use skill_stew_api.Prelude.Table.{lookup}
use skill_stew_api.Effect.{Result, ok, err, ◌>>=◌}
use skill_stew_api.Effect.Rules.{Keeps-query, Keeps-raise_if}
use skill_stew_api.Effect.Failing.{Undone-returns, Undone-after}
use skill_stew_api.Effect.Inversion.{query-eq-ok, raise_if-eq-ok, >>=-eq-ok}
use skill_stew_api.Skill.Cohort.{Cohort, cohort_status}
use skill_stew_api.Skill.Workshop.{Workshop, Session}
use skill_stew_api.Skill.Schedule.{
  DerivedSession, CohortWindow, derive_cohort_sessions, derive_cohort_window,
  get_earliest_workshop_session, date_only_weekday,
}
use skill_stew_api.Skill.Membership.{given_or}
use skill_stew_api.Skill.Schedule.Window.{Bounded, derive_cohort_window-Bounded}
use skill_stew_api.Skill.World.{World, Error}
use skill_stew_api.Skill.Repos.{workshop_key, insert_cohort}
use skill_stew_api.Skill.Cohorts.{
  CohortInput, CohortResponse, zone_text, banner_url, save_new_cohort, derive_schedule,
  create_cohort, to_response, to_summary_response, lifted, assert_workshop_ready, ensure_no_overlap,
  is_published,
}
use skill_stew_api.Skill.Cohorts.Creating.{adding}
use skill_stew_api.Skill.Cohorts.Ready.{
  lifted-eq-ok, assert_workshop_ready-eq-ok, derive_schedule-eq-ok,
}
use skill_stew_api.Skill.Cohorts.Checks.{
  IsFree, lifted-Keeps, assert_workshop_ready-Keeps, ensure_no_overlap-Keeps,
  ensure_no_overlap-eq-ok, unchanged,
}

all_left : (n : ℕ) → n - 0 ≡ n
all_left n = omega arith

answered : (a b : CohortResponse) → Path (Result Error CohortResponse) (ok a) (ok b) → a ≡ b
answered a b h = cc

-- The cohort as it is stored, and what is answered about it.
abbrev pub stored : CohortInput → Workshop → CohortWindow → World → Cohort
stored input x window w = record {
  id = w.next_id;
  workshop_id = input.workshop_id;
  expert_id = input.expert_id;
  workshop_title = x.title;
  workshop_banner_image_key = x.banner_image_key;
  workshop_timezone = zone_text x.timezone;
  spot_price_amount = input.spot_price_amount;
  currency = input.currency;
  start_date = input.start_date;
  max_students = given_or input.max_students x.max_cohort_size;
  first_session_starts_at = window.first_session_starts_at;
  last_session_starts_at = window.last_session_starts_at;
  created_at = some w.now;
  updated_at = some w.now;
}

-- The window that a cohort is stored with.
abbrev pub stored_window : Cohort → CohortWindow
stored_window c = record {
  first_session_starts_at = c.first_session_starts_at;
  last_session_starts_at = c.last_session_starts_at;
}

module _ (short_offset : String → ℕ → Option String) (cdn : String) where
  abbrev pub answer :
      CohortInput → Workshop → CohortWindow → List DerivedSession → World → CohortResponse
  answer input x window sessions w = record {
    summary = record {
      cohort = stored input x window w;
      workshop_banner_image_url = banner_url cdn x.banner_image_key;
      status = cohort_status (stored input x window w) w.now;
      active_seats = 0;
      held_seats = 0;
      available_seats = given_or input.max_students x.max_cohort_size;
    };
    created_at = w.now;
    updated_at = w.now;
    sessions = sessions;
  }

  save_new_cohort_lem :
      (input : CohortInput) (x : Workshop) (window : CohortWindow) (sessions : List DerivedSession)
      (w : World)
      → derive_cohort_sessions short_offset x.sessions input.start_date (zone_text x.timezone)
        ≡ ok sessions
      → save_new_cohort short_offset cdn input x window w
        ≡ (ok (answer input x window sessions w), adding (stored input x window w) w)
  unfolding save_new_cohort insert_cohort to_response to_summary_response ◌>>=◌
  save_new_cohort_lem input x window sessions w h =
      rw (h, all_left (given_or input.max_students x.max_cohort_size)) refl

  -- A creation that throws has written nothing, although it runs outside of a transaction.
  pub create_cohort_failed :
      (input : CohortInput) (w v : World) (e : Error)
      → create_cohort short_offset cdn input w ≡ (err e, v)
      → v ≡ w
  unfolding create_cohort
  create_cohort_failed input w v e h =
      (Undone-after _ _ (Keeps-query _ _) λ x known.
          Undone-after _ _ (Keeps-raise_if _ _) λ _ owned.
            Undone-after _ _ (assert_workshop_ready-Keeps x) λ _ ready.
              Undone-after (lifted (derive_schedule short_offset cdn x input.start_date)) _
                (lifted-Keeps _)
                λ window lift.
                  let derived =
                    lifted-eq-ok (derive_schedule short_offset cdn x input.start_date) w w window
                      lift in
                  let (f, sessions, earliest, weekday, on, around) =
                    derive_schedule-eq-ok short_offset cdn x input.start_date window derived in
                  Undone-after _ _ (ensure_no_overlap-Keeps _ _ _) λ _ clear.
                    Undone-returns _ _ _ (save_new_cohort_lem input x window sessions w on)).undone
        e v h

  -- What a creation that returns has found and done.
  pub record Created (input : CohortInput) (w : World) (r : CohortResponse) (v : World)
      : Type 0 where
    pub workshop : Workshop
    pub window : CohortWindow
    pub sessions : List DerivedSession
    pub found : lookup workshop_key input.workshop_id w.workshops ≡ some workshop
    pub owner : workshop.expert_id ≡ input.expert_id
    pub published : is_published workshop.status ≡ true
    pub earliest : Session
    pub is_earliest : get_earliest_workshop_session workshop.sessions ≡ ok earliest
    pub first_week : earliest.week_number ≡ 1
    pub weekday : date_only_weekday input.start_date ≡ ok earliest.day_of_week
    pub derived :
        derive_cohort_sessions short_offset workshop.sessions input.start_date
          (zone_text workshop.timezone)
        ≡ ok sessions
    pub around : derive_cohort_window sessions ≡ ok window
    pub free : IsFree input.workshop_id window none w.cohorts
    pub fits : Bounded (stored_window (stored input workshop window w)) sessions
    pub state : v ≡ adding (stored input workshop window w) w
    pub response : r ≡ answer input workshop window sessions w

  -- A creation that returns was asked for by the expert of a published workshop whose sessions begin
  -- in the first week, for a start date on the weekday of the earliest session and a window that no
  -- cohort of the workshop overlaps; it adds that one cohort, whose window begins with its first
  -- session and ends with its last, without seats taken, and answers with it and its sessions.
  pub create_cohort-Created :
      (input : CohortInput) (w v : World) (r : CohortResponse)
      → create_cohort short_offset cdn input w ≡ (ok r, v)
      → Created input w r v
  unfolding create_cohort
  create_cohort-Created input w v r h =
      let (x, found, rest) = query-eq-ok _ _ _ w v r h in
      let (owned, rest') = raise_if-eq-ok _ _ _ w v r rest in
      let (_, u, ready, after) = >>=-eq-ok (assert_workshop_ready x) _ w v r rest' in
      let u_same =
        unchanged (assert_workshop_ready x) w u tt (assert_workshop_ready-Keeps x) ready in
      let is_ready = assert_workshop_ready-eq-ok x w u ready in
      let (window, t, lift, checked) =
        >>=-eq-ok (lifted (derive_schedule short_offset cdn x input.start_date)) _ u v r after in
      let t_same =
        unchanged (lifted (derive_schedule short_offset cdn x input.start_date)) u t window
          (lifted-Keeps _) lift in
      let (_, s, clear, saved) =
        >>=-eq-ok (ensure_no_overlap input.workshop_id window none) _ t v r checked in
      let s_same =
        unchanged (ensure_no_overlap input.workshop_id window none) t s tt
          (ensure_no_overlap-Keeps _ _ _) clear in
      let (e, sessions, earliest, weekday, on, around) =
        derive_schedule-eq-ok short_offset cdn x input.start_date window
          (lifted-eq-ok _ u t window lift) in
      let done = save_new_cohort_lem input x window sessions s on in
      let here : s ≡ w = s_same ∙ t_same ∙ u_same in
      record {
        workshop = x;
        window = window;
        sessions = sessions;
        found = found;
        owner = ground (arith, owned);
        published = is_ready.0;
        earliest = e;
        is_earliest = earliest;
        first_week = is_ready.1 e earliest;
        weekday = weekday;
        derived = on;
        around = around;
        free =
            subst (λ y. IsFree input.workshop_id window none y.cohorts) (t_same ∙ u_same)
              (ensure_no_overlap-eq-ok input.workshop_id window none t s clear);
        fits = derive_cohort_window-Bounded sessions window around;
        state =
            subst (λ y. v ≡ adding (stored input x window y) y) here
              (ap (λ p. p.1) (sym saved ∙ done));
        response =
            subst (λ y. r ≡ answer input x window sessions y) here
              (answered r _ (ap (λ p. p.0) (sym saved ∙ done)));
      }
