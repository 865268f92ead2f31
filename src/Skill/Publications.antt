-- ===== src/Skill/Publications.antt =====
-- Workshops that are published, through the steps of the skill service.
use skill_stew_api.Prelude.{ℕ, ◌≡◌, ◌∙◌, ap, arith, Option, String}
use skill_stew_api.Prelude.Table.{lookup}
use skill_stew_api.Effect.Rules.{Keeps, keeps_rules}
use skill_stew_api.Skill.Cohort.{Cohort}
use skill_stew_api.Skill.Workshop.{Workshop, published}
use skill_stew_api.Skill.World.{World, fresh_id}
use skill_stew_api.Skill.Repos.{workshop_key, insert_cohort, save_cohort, remove_cohort}
use skill_stew_api.Skill.Frame.{Frame}
use skill_stew_api.Skill.Soundness.Requests.{
  enroll_in_cohort-Frame, handle_payment_succeeded-Frame, apply_payment_outcome-Frame,
}
use skill_stew_api.Skill.PaymentEvents.{handle_payment_failed, handle_payment_refunded}
use skill_stew_api.Skill.Cohorts.{
  CohortInput, CohortUpdate, save_new_cohort, save_updated, create_cohort, update_cohort,
  delete_cohort,
}
use skill_stew_api.Skill.Cohorts.Checks.{
  lifted-Keeps, assert_workshop_ready-Keeps, get_owned_cohort-Keeps, ensure_no_overlap-Keeps,
  check_members-Keeps, updated_window-Keeps, to_response-Keeps,
}
use skill_stew_api.Skill.Workshops.Freezing.{
  Stands, create_workshop-Stands, update_workshop-Stands, replace_workshop_sessions-Stands,
  update_workshop_session-Stands, publish_workshop-Stands,
}
use skill_stew_api.Skill.History.{
  Step, History, enrolls, pays, fails, refunds, creates, updates, deletes, drafts, edits, schedules,
  edits_session, publishes, waits, start, later,
}

module _ (id : ℕ) (x : Workshop) where
  Frame-Stands : (w v : World) → Frame w v → Stands id x w → Stands id x v
  Frame-Stands w v f h = ap (lookup workshop_key id) f.workshops ∙ h

  -- The operations on cohorts write no workshop.
  insert_cohort-Stands : (c : Cohort) → Keeps (Stands id x) (insert_cohort c)
  unfolding insert_cohort
  insert_cohort-Stands c = record { kept = λ w h. h }

  save_cohort-Stands : (c : Cohort) → Keeps (Stands id x) (save_cohort c)
  unfolding save_cohort
  save_cohort-Stands c = record { kept = λ w h. ground (arith, h) }

  remove_cohort-Stands : (k : ℕ) → Keeps (Stands id x) (remove_cohort k)
  unfolding remove_cohort
  remove_cohort-Stands k = record { kept = λ w h. ground (arith, h) }

  fresh_id-Stands : Keeps (Stands id x) fresh_id
  fresh_id-Stands = record { kept = λ w h. h }

  module _ (short_offset : String → ℕ → Option String) (cdn : String) where
    create_cohort-Stands :
        (input : CohortInput) → Keeps (Stands id x) (create_cohort short_offset cdn input)
    unfolding create_cohort save_new_cohort
    create_cohort-Stands input =
        search
          (
            keeps_rules, lifted-Keeps, assert_workshop_ready-Keeps, ensure_no_overlap-Keeps,
            fresh_id-Stands, insert_cohort-Stands, to_response-Keeps,
          )
          depth 20

    update_cohort-Stands :
        (k expert : ℕ) (d : CohortUpdate)
        → Keeps (Stands id x) (update_cohort short_offset cdn k expert d)
    unfolding update_cohort save_updated
    update_cohort-Stands k expert d =
        search
          (
            keeps_rules, get_owned_cohort-Keeps, check_members-Keeps, updated_window-Keeps,
            save_cohort-Stands, to_response-Keeps,
          )
          depth 20

  delete_cohort-Stands : (k expert : ℕ) → Keeps (Stands id x) (delete_cohort k expert)
  unfolding delete_cohort
  delete_cohort-Stands k expert =
      search (keeps_rules, get_owned_cohort-Keeps, remove_cohort-Stands) depth 12

  module _ (shown : x.status ≡ published) where
    Step-Stands : {w v : World} → Step w v → Stands id x w → Stands id x v
    unfolding handle_payment_failed handle_payment_refunded
    Step-Stands {w} (enrolls pay k user) h =
        Frame-Stands w _ (enroll_in_cohort-Frame pay k user w) h
    Step-Stands {w} (pays e) h = Frame-Stands w _ (handle_payment_succeeded-Frame e w) h
    Step-Stands {w} (fails e) h = Frame-Stands w _ (apply_payment_outcome-Frame _ e w) h
    Step-Stands {w} (refunds e) h = Frame-Stands w _ (apply_payment_outcome-Frame _ e w) h
    Step-Stands {w} (creates short_offset cdn input) h =
        (create_cohort-Stands short_offset cdn input).kept w h
    Step-Stands {w} (updates short_offset cdn k expert d) h =
        (update_cohort-Stands short_offset cdn k expert d).kept w h
    Step-Stands {w} (deletes k expert) h = (delete_cohort-Stands k expert).kept w h
    Step-Stands {w} (drafts cdn input) h = (create_workshop-Stands id x cdn input).kept w h
    Step-Stands {w} (edits cdn k expert d) h = update_workshop-Stands id x cdn shown w h k expert d
    Step-Stands {w} (schedules k expert timezone inputs) h =
        replace_workshop_sessions-Stands id x "" shown w h k expert timezone inputs
    Step-Stands {w} (edits_session k session_id expert d) h =
        update_workshop_session-Stands id x "" shown w h k session_id expert d
    Step-Stands {w} (publishes cdn k expert) h = publish_workshop-Stands id x cdn shown w h k expert
    Step-Stands {w} (waits now le) h = h

    -- A workshop that is published stays as it is, through any history of the service: whatever
    -- requests of users and experts and payment events are handled, none of them changes its title,
    -- its sessions or its time zone.
    pub History-Stands : {w v : World} → Stands id x w → History w v → Stands id x v
    History-Stands h start = h
    History-Stands h (later r s) = Step-Stands s (History-Stands h r)
