-- ===== src/Skill/History.antt =====
-- The skill service as a system: requests of users and experts, payment events and time, in any
-- order. A step runs whole: enrolments and payment events are transactions, and what an expert does
-- to cohorts and workshops is taken to meet no other request half way.
use skill_stew_api.Prelude.{ℕ, ◌≤◌, ◌≡◌, true, Option, List, String, arith, count_mono}
use skill_stew_api.Skill.Membership.{Membership}
use skill_stew_api.Skill.World.{World, CheckoutRequest, CheckoutSession}
use skill_stew_api.Skill.Seats.Counting.{is_holding, held}
use skill_stew_api.Skill.Invariant.{HasRoom, IsValid}
use skill_stew_api.Skill.Placement.{IsPlaced}
use skill_stew_api.Skill.Soundness.{IsSound, AreApart}
use skill_stew_api.Skill.Soundness.Requests.{
  enroll_in_cohort-IsSound, handle_payment_succeeded-IsSound, apply_payment_outcome-IsSound,
}
use skill_stew_api.Skill.Enrollment.{enroll_in_cohort}
use skill_stew_api.Skill.PaymentEvents.{
  PaymentEvent, handle_payment_succeeded, handle_payment_failed, handle_payment_refunded,
}
use skill_stew_api.Skill.Cohorts.{
  CohortInput, CohortUpdate, create_cohort, update_cohort, delete_cohort,
}
use skill_stew_api.Skill.Workshop.{SessionInput, WorkshopChanges, SessionChanges}
use skill_stew_api.Skill.Workshops.{
  WorkshopInput, create_workshop, update_workshop, replace_workshop_sessions,
  update_workshop_session, publish_workshop,
}
use skill_stew_api.Skill.Workshops.Beside.{
  Beside-refl, Beside-IsSound, create_workshop-Beside, update_workshop-Beside,
  replace_workshop_sessions-Beside, update_workshop_session-Beside, publish_workshop-Beside,
}
use skill_stew_api.Skill.Cohorts.Creating.{create_cohort-IsSound}
use skill_stew_api.Skill.Cohorts.Updating.{update_cohort-IsSound}
use skill_stew_api.Skill.Cohorts.Deleting.{delete_cohort-IsSound}

-- One thing that happens: a request to enrol, under whatever the payments service then answers, an
-- event of the payments service, a request on a cohort, under whatever time zone data, a request on
-- a workshop, or the passing of time.
pub data Step (w : World) : World → Type 0 where
  enrolls :
      (pay : CheckoutRequest → Option CheckoutSession) (id user : ℕ)
      → Step w (enroll_in_cohort pay id user w).1
  pays : (e : PaymentEvent) → Step w (handle_payment_succeeded e w).1
  fails : (e : PaymentEvent) → Step w (handle_payment_failed e w).1
  refunds : (e : PaymentEvent) → Step w (handle_payment_refunded e w).1
  creates :
      (short_offset : String → ℕ → Option String) (cdn : String) (input : CohortInput)
      → Step w (create_cohort short_offset cdn input w).1
  updates :
      (short_offset : String → ℕ → Option String) (cdn : String) (id expert : ℕ) (d : CohortUpdate)
      → Step w (update_cohort short_offset cdn id expert d w).1
  deletes : (id expert : ℕ) → Step w (delete_cohort id expert w).1
  drafts : (cdn : String) (input : WorkshopInput) → Step w (create_workshop cdn input w).1
  edits :
      (cdn : String) (id expert : ℕ) (d : WorkshopChanges)
      → Step w (update_workshop cdn id expert d w).1
  schedules :
      (id expert : ℕ) (timezone : String) (inputs : List SessionInput)
      → Step w (replace_workshop_sessions id expert timezone inputs w).1
  edits_session :
      (id session_id expert : ℕ) (d : SessionChanges)
      → Step w (update_workshop_session id session_id expert d w).1
  publishes : (cdn : String) (id expert : ℕ) → Step w (publish_workshop cdn id expert w).1
  waits : (now : ℕ) → w.now ≤ now → Step w (record w { now = now })

pub data History (w : World) : World → Type 0 where
  start : History w w
  later : {u v : World} → History w u → Step u v → History w v

holding_lapses :
    (now next id : ℕ) (m : Membership)
    → now ≤ next
    → is_holding next id m ≡ true
    → is_holding now id m ≡ true
holding_lapses now next id m le h = ground arith

-- Time frees seats and takes none.
held_mono : (now next id : ℕ) (ms : List Membership) → now ≤ next → held next id ms ≤ held now id ms
unfolding held
held_mono now next id ms le =
    count_mono (is_holding next id) (is_holding now id) ms (λ m. holding_lapses now next id m le)

waits-IsValid : (w : World) (now : ℕ) → w.now ≤ now → IsValid w → IsValid (record w { now = now })
waits-IsValid w now le h = record {
  fresh = h.fresh;
  dated = h.dated;
  room = λ id c found. omega (arith, held_mono w.now now id w.memberships le, h.room id c found);
}

Step-IsSound : {w v : World} → Step w v → IsSound w → IsSound v
unfolding handle_payment_failed handle_payment_refunded
Step-IsSound {w} (enrolls pay id user) h = enroll_in_cohort-IsSound pay id user w h
Step-IsSound {w} (pays e) h = handle_payment_succeeded-IsSound e w h
Step-IsSound {w} (fails e) h = apply_payment_outcome-IsSound _ e w h
Step-IsSound {w} (refunds e) h = apply_payment_outcome-IsSound _ e w h
Step-IsSound {w} (creates short_offset cdn input) h =
    create_cohort-IsSound short_offset cdn w h input
Step-IsSound {w} (updates short_offset cdn id expert d) h =
    update_cohort-IsSound short_offset cdn id expert d w h
Step-IsSound {w} (deletes id expert) h = delete_cohort-IsSound id expert w h
Step-IsSound {w} (drafts cdn input) h =
    Beside-IsSound w _ ((create_workshop-Beside cdn input).kept w (Beside-refl w)) h
Step-IsSound {w} (edits cdn id expert d) h =
    Beside-IsSound w _ ((update_workshop-Beside cdn id expert d).kept w (Beside-refl w)) h
Step-IsSound {w} (schedules id expert timezone inputs) h =
    Beside-IsSound w _
      ((replace_workshop_sessions-Beside id expert timezone inputs).kept w (Beside-refl w)) h
Step-IsSound {w} (edits_session id session_id expert d) h =
    Beside-IsSound w _
      ((update_workshop_session-Beside id session_id expert d).kept w (Beside-refl w)) h
Step-IsSound {w} (publishes cdn id expert) h =
    Beside-IsSound w _ ((publish_workshop-Beside cdn id expert).kept w (Beside-refl w)) h
Step-IsSound {w} (waits now le) h = record {
  valid = waits-IsValid w now le h.valid;
  placed = h.placed;
  unused = h.unused;
  unique = h.unique;
  apart = h.apart;
}

pub History-IsSound : {w v : World} → IsSound w → History w v → IsSound v
History-IsSound h start = h
History-IsSound h (later r s) = Step-IsSound s (History-IsSound h r)

-- From a sound state, whatever requests of users and experts and payment events are handled, in
-- whatever order, and however time passes, no cohort holds more seats, active or reserved and not
-- lapsed, than its limit, which its expert may lower in between.
pub History-HasRoom : {w v : World} → IsSound w → History w v → HasRoom v
History-HasRoom h r = (History-IsSound h r).valid.room

-- From a sound state, through any such history, no two cohorts of one workshop run at the same time:
-- the last session of one starts before the first of the other.
pub History-AreApart : {w v : World} → IsSound w → History w v → AreApart v.cohorts
History-AreApart h r = (History-IsSound h r).apart

-- From a sound state, through any such history, each membership is of a cohort that is there: no
-- cohort with members is deleted, and nobody joins one that is not there.
pub History-IsPlaced : {w v : World} → IsSound w → History w v → IsPlaced v.cohorts v
History-IsPlaced h r = (History-IsSound h r).placed
