-- ===== src/Skill/Cohorts/Updating.antt =====
-- `updateCohort` on the three collections.
use skill_stew_api.Prelude.{
  ℕ, ◌≤◌, ◌≡◌, ◌≢◌, ◌⊎◌, refl, sym, subst, Option, some, All-map, String, arith, ◌==◌, inl, inr,
  Bool-cases, if◌then◌else◌,
}
use skill_stew_api.Prelude.Table.{
  lookup, replace, lookup-key, lookup-replace, find-none-lookup, HasUniqueKeys-replace,
}
use skill_stew_api.Effect.{ok, gets, ◌>>=◌}
use skill_stew_api.Effect.Rules.{
  Keeps, keeps_rules, Reaches, Reaches-after, Reaches-query, Reaches-ran, Keeps-Reaches,
}
use skill_stew_api.Skill.Membership.{Membership, given_or}
use skill_stew_api.Skill.Cohort.{Cohort, update_mutable_fields}
use skill_stew_api.Skill.Workshop.{Workshop}
use skill_stew_api.Skill.Schedule.{CohortWindow}
use skill_stew_api.Skill.World.{World}
use skill_stew_api.Skill.Repos.{cohort_key, overlaps, save_cohort}
use skill_stew_api.Skill.Seats.{seat_counts}
use skill_stew_api.Skill.Seats.Counting.{held}
use skill_stew_api.Skill.Placement.{HasCohort}
use skill_stew_api.Skill.Soundness.{IsSound, Apart, AreApart}
use skill_stew_api.Skill.Cohorts.{
  CohortUpdate, cohort_changes, own_window, save_updated, update_cohort, to_response,
}
use skill_stew_api.Skill.Cohorts.Checks.{
  IsFree, get_owned_cohort-Keeps, get_owned_cohort-eq-ok, check_members-Keeps, check_members-eq-ok,
  updated_window-Keeps, updated_window-eq-ok, to_response-Keeps,
}

-- The cohort `c` of a sound state, and what is to stand in its place.
module _ (w : World) (h : IsSound w) (c : Cohort)
    (found : lookup cohort_key c.id w.cohorts ≡ some c) (b : Cohort) (key : b.id ≡ c.id)
    (same_workshop : b.workshop_id ≡ c.workshop_id) where
  replaced :
      (j : ℕ)
      → lookup cohort_key j (replace cohort_key c.id b w.cohorts)
        ≡ (if j == c.id then some b else lookup cohort_key j w.cohorts)
  replaced j = lookup-replace cohort_key j c.id b w.cohorts c key found

  kept_HasCohort :
      (m : Membership) → HasCohort w.cohorts m → HasCohort (replace cohort_key c.id b w.cohorts) m
  kept_HasCohort m known = ground (arith, replaced m.cohort_id)

  module _ (room : held w.now c.id w.memberships ≤ b.max_students)
      (clear : (k : ℕ) (d : Cohort)
        → k ≢ c.id
        → lookup cohort_key k w.cohorts ≡ some d
        → c.workshop_id ≡ d.workshop_id
        → Apart b d) where
    new_apart : AreApart (replace cohort_key c.id b w.cohorts)
    new_apart j k d e other one two same = elim (Bool-cases (j == c.id)) [
      | inl here ↦ ground (arith, replaced j, replaced k, clear k e)
      | inr away ↦ elim (Bool-cases (k == c.id)) [
        | inl here ↦ ground (arith, replaced j, replaced k, clear j d)
        | inr gone ↦
            h.apart j k d e other (ground (arith, replaced j)) (ground (arith, replaced k)) same
      ]
    ]

    replaced-IsSound : IsSound (record w { cohorts = replace cohort_key c.id b w.cohorts })
    replaced-IsSound = record {
      valid = record {
        fresh = h.valid.fresh;
        dated = h.valid.dated;
        room = λ id d known. ground (arith, replaced id, h.valid.room id d);
      };
      placed = All-map kept_HasCohort w.memberships h.placed;
      unused = λ k le. ground (arith, replaced k, h.unused k le);
      unique = HasUniqueKeys-replace cohort_key c.id b w.cohorts key h.unique;
      apart = new_apart;
    }

module _ (short_offset : String → ℕ → Option String) (cdn : String) where
  answered :
      (saved : Cohort) (x : Workshop)
      → Keeps IsSound (
          gets (λ w. seat_counts w.now saved.id w.memberships) >>= λ counts.
          to_response short_offset cdn saved x counts.active_seats counts.held_seats)
  answered saved x = search (keeps_rules, to_response-Keeps)

  module _ (w : World) (h : IsSound w) (c : Cohort)
      (found : lookup cohort_key c.id w.cohorts ≡ some c) (d : CohortUpdate)
      (window : CohortWindow) where
    updated : Cohort
    updated = record (update_mutable_fields c (cohort_changes d window)) {
      created_at = c.created_at;
      updated_at = some w.now;
    }

    -- The new window does not touch that of another cohort of the workshop.
    window_clear :
        (window ≡ own_window c) ⊎ IsFree c.workshop_id window (some c.id) w.cohorts
        → (k : ℕ) (e : Cohort) → k ≢ c.id
        → lookup cohort_key k w.cohorts ≡ some e
        → c.workshop_id ≡ e.workshop_id
        → Apart updated e
    unfolding updated update_mutable_fields
    window_clear (inl own) k e other known same = ground (arith, h.apart c.id k c e)
    window_clear (inr free) k e other known same =
        let key = lookup-key cohort_key k w.cohorts e known in
        ground (
          arith,
          find-none-lookup cohort_key
              (overlaps c.workshop_id window.first_session_starts_at window.last_session_starts_at
                (some c.id))
              k w.cohorts e free known,
        )

    saved_lem :
        save_cohort (update_mutable_fields c (cohort_changes d window)) w
        ≡ (ok updated, record w { cohorts = replace cohort_key c.id updated w.cohorts })
    unfolding save_cohort updated update_mutable_fields
    saved_lem = rw (found, save_cohort) refl

    save_updated-IsSound :
        (x : Workshop)
        → held w.now c.id w.memberships ≤ given_or d.max_students c.max_students
        → (window ≡ own_window c) ⊎ IsFree c.workshop_id window (some c.id) w.cohorts
        → Reaches IsSound w (save_updated short_offset cdn c x d window)
    unfolding save_updated updated update_mutable_fields
    save_updated-IsSound x room clear =
        let sound = replaced-IsSound w h c found updated refl refl room (window_clear clear) in
        Reaches-ran _ _ saved_lem (Keeps-Reaches sound (answered updated x))

  -- The update of a cohort, whether it returns or throws, keeps everything sound: its limit stays at
  -- or above the seats that are held, and its window apart from those of the workshop's others.
  pub update_cohort-IsSound :
      (id expert : ℕ) (d : CohortUpdate) (w : World)
      → IsSound w
      → IsSound (update_cohort short_offset cdn id expert d w).1
  unfolding update_cohort
  update_cohort-IsSound id expert d w h =
      (Reaches-after _ _ (get_owned_cohort-Keeps id expert) h λ c owned.
        let (known, mine) = get_owned_cohort-eq-ok id expert w w c owned in
        let key = lookup-key cohort_key id w.cohorts c known in
        let found = subst (λ k. lookup cohort_key k w.cohorts ≡ some c) (sym key) known in
        Reaches-query _ _ _ (λ _. h)
          λ x shop. Reaches-after _ _ (check_members-Keeps c d) h λ _ checked.
            Reaches-after _ _ (updated_window-Keeps short_offset cdn c x d.start_date) h
              λ window derived.
                save_updated-IsSound w h c found d window x
                  (check_members-eq-ok c d w w (h.valid.room c.id c found) checked)
                  (updated_window-eq-ok short_offset cdn c x d.start_date w w window
                    derived)).reached
