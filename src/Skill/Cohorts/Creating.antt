-- ===== src/Skill/Cohorts/Creating.antt =====
-- `createCohort` on the three collections.
use skill_stew_api.Prelude.{
  ℕ, suc, ◌≤◌, ◌≡◌, ◌≢◌, refl, sym, false, Option, some, none, [], ◌∷◌, ◌++◌, All-map, String,
  arith, ◌==◌, inl, inr, Bool-cases,
}
use skill_stew_api.Prelude.Table.{
  lookup, lookup_last, lookup_other_last, find-none-lookup, HasUniqueKeys-append,
}
use skill_stew_api.Effect.{◌>>=◌}
use skill_stew_api.Effect.Rules.{Reaches, Reaches-after, Reaches-raise_if, Reaches-query}
use skill_stew_api.Skill.Membership.{Membership}
use skill_stew_api.Skill.Cohort.{Cohort}
use skill_stew_api.Skill.Workshop.{Workshop}
use skill_stew_api.Skill.Schedule.{CohortWindow}
use skill_stew_api.Skill.World.{World}
use skill_stew_api.Skill.Repos.{cohort_key, in_cohort, overlaps, insert_cohort}
use skill_stew_api.Skill.Seats.Counting.{held}
use skill_stew_api.Skill.Placement.{HasCohort}
use skill_stew_api.Skill.Soundness.{IsSound, Apart, AreApart}
use skill_stew_api.Skill.Cohorts.{CohortInput, new_cohort, save_new_cohort, create_cohort}
use skill_stew_api.Skill.Cohorts.Checks.{
  IsFree, held-none, lifted-Keeps, assert_workshop_ready-Keeps, ensure_no_overlap-Keeps,
  ensure_no_overlap-eq-ok, to_response-Keeps,
}

-- The state with one more cohort, under the next id.
abbrev pub adding : Cohort → World → World
adding c w = record w { next_id = suc w.next_id; cohorts = w.cohorts ++ c ∷ [] }

module _ (w : World) (h : IsSound w) (c : Cohort) (key : c.id ≡ w.next_id) where
  fresh : lookup cohort_key c.id w.cohorts ≡ none
  fresh = h.unused c.id (omega (arith, key))

  at_key : (j : ℕ) → j ≡ c.id → lookup cohort_key j (w.cohorts ++ c ∷ []) ≡ some c
  at_key j e = lookup_last cohort_key j c w.cohorts (sym e) (ground (arith, fresh))

  at_other :
      (j : ℕ) → c.id ≢ j → lookup cohort_key j (w.cohorts ++ c ∷ []) ≡ lookup cohort_key j w.cohorts
  at_other j e = lookup_other_last cohort_key j c w.cohorts e

  kept_HasCohort : (m : Membership) → HasCohort w.cohorts m → HasCohort (w.cohorts ++ c ∷ []) m
  kept_HasCohort m known = ground (arith, at_key m.cohort_id, at_other m.cohort_id)

  -- No membership is of the new cohort yet.
  memberless : (m : Membership) → HasCohort w.cohorts m → in_cohort c.id m ≡ false
  memberless m known = ground (arith, fresh)

  new_room :
      (id : ℕ) (d : Cohort)
      → lookup cohort_key id (w.cohorts ++ c ∷ []) ≡ some d
      → held w.now id w.memberships ≤ d.max_students
  new_room id d found = elim (Bool-cases (c.id == id)) [
    | inl here ↦
        ground
          (arith, held-none w.now c.id w.memberships (All-map memberless w.memberships h.placed))
    | inr other ↦ h.valid.room id d (ground (arith, at_other id))
  ]

  module _
      (clear : (k : ℕ) (d : Cohort)
        → lookup cohort_key k w.cohorts ≡ some d
        → c.workshop_id ≡ d.workshop_id
        → Apart c d) where
    new_apart : AreApart (w.cohorts ++ c ∷ [])
    new_apart j k d e other one two same = elim (Bool-cases (c.id == j)) [
      | inl here ↦ ground (arith, at_key j, at_other k, clear k e)
      | inr away ↦ elim (Bool-cases (c.id == k)) [
        | inl here ↦ ground (arith, at_key k, at_other j, clear j d)
        | inr gone ↦
            h.apart j k d e other (ground (arith, at_other j)) (ground (arith, at_other k)) same
      ]
    ]

    adding-IsSound : IsSound (adding c w)
    adding-IsSound = record {
      valid = record {
        fresh = λ k le. h.valid.fresh k (omega arith);
        dated = h.valid.dated;
        room = new_room;
      };
      placed = All-map kept_HasCohort w.memberships h.placed;
      unused = λ k le. ground (arith, at_other k, h.unused k);
      unique = HasUniqueKeys-append cohort_key c w.cohorts h.unique fresh;
      apart = new_apart;
    }

module _ (short_offset : String → ℕ → Option String) (cdn : String) (w : World)
    (h : IsSound w) where
  save_new_cohort-IsSound :
      (input : CohortInput) (x : Workshop) (window : CohortWindow)
      → IsFree input.workshop_id window none w.cohorts
      → Reaches IsSound w (save_new_cohort short_offset cdn input x window)
  unfolding save_new_cohort insert_cohort ◌>>=◌
  save_new_cohort-IsSound input x window free =
      let saved = record (new_cohort w.next_id input x window) {
        created_at = some w.now;
        updated_at = some w.now;
      } in
      record {
        reached =
            (to_response-Keeps {P = IsSound} short_offset cdn saved x 0 0).kept (adding saved w) (
              adding-IsSound w h saved refl λ k d found same. ground (
                arith,
                find-none-lookup cohort_key
                    (overlaps input.workshop_id window.first_session_starts_at
                      window.last_session_starts_at none)
                    k w.cohorts d free found,
              ));
      }

  -- The creation of a cohort, whether it returns or throws, keeps everything sound.
  pub create_cohort-IsSound :
      (input : CohortInput) → IsSound (create_cohort short_offset cdn input w).1
  unfolding create_cohort
  create_cohort-IsSound input =
      (Reaches-query _ _ _ (λ _. h)
        λ x known. Reaches-raise_if _ _ _ h λ owned.
          Reaches-after _ _ (assert_workshop_ready-Keeps x) h λ _ ready.
            Reaches-after _ _ (lifted-Keeps _) h λ window derived.
              Reaches-after _ _ (ensure_no_overlap-Keeps _ _ _) h λ _ clear.
                save_new_cohort-IsSound input x window
                  (ensure_no_overlap-eq-ok input.workshop_id window none w w clear)).reached
