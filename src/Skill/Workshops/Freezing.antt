-- ===== src/Skill/Workshops/Freezing.antt =====
-- What the service of workshops leaves alone: workshops that are published, and the cohorts and
-- memberships.
use skill_stew_api.Prelude.{
  ℕ, ◌≡◌, ◌≢◌, ◌∙◌, refl, ap, false, not, some, List, String, arith, inl, inr, Option-cases, ◌==◌,
  find,
}
use skill_stew_api.Prelude.Table.{lookup, lookup-key, lookup-append, lookup-replace}
use skill_stew_api.Effect.{ok}
use skill_stew_api.Effect.Rules.{
  Keeps, keeps_rules, Keeps-bind, Keeps-query, Keeps-transact, Keeps-Reaches, Reaches,
  Reaches-after, Reaches-query, Reaches-raise_if,
}
use skill_stew_api.Effect.Inversion.{query-eq-ok, raise_if-eq-ok}
use skill_stew_api.Skill.Workshop.{
  Workshop, WorkshopStatus, Session, SessionInput, WorkshopChanges, SessionChanges, draft,
  published, status_is, replace_schedule, update_basics, update_session, publish,
}
use skill_stew_api.Skill.World.{World, OutboxEntry, rollback, fresh_id, in_transaction}
use skill_stew_api.Skill.Repos.{workshop_key, insert_workshop, save_workshop, insert_entry}
use skill_stew_api.Skill.Workshops.{
  WorkshopInput, has_id, ensure_not_frozen, get_owned_draft, fresh_ids, create_workshop,
  update_workshop, replace_workshop_sessions, update_workshop_session, publish_work,
  publish_workshop,
}

module _ {P : World → Type 0} where
  pub ensure_not_frozen-Keeps : (id : ℕ) → Keeps P (ensure_not_frozen id)
  unfolding ensure_not_frozen
  ensure_not_frozen-Keeps id = search keeps_rules

  pub get_owned_draft-Keeps : (id expert : ℕ) → Keeps P (get_owned_draft id expert)
  unfolding get_owned_draft
  get_owned_draft-Keeps id expert = search (keeps_rules) depth 12

draft_of : (s : WorkshopStatus) → not (status_is s draft) ≡ false → s ≡ draft
draft_of s h = ground arith

get_owned_draft-eq-ok :
    (id expert : ℕ) (w v : World) (x : Workshop)
    → get_owned_draft id expert w ≡ (ok x, v)
    → (lookup workshop_key id w.workshops ≡ some x) × (x.status ≡ draft)
unfolding get_owned_draft
get_owned_draft-eq-ok id expert w v x h =
    let (y, found, rest) = query-eq-ok _ _ _ w v x h in
    let (owned, rest') = raise_if-eq-ok _ _ _ w v x rest in
    let (drafted, last) = raise_if-eq-ok _ _ _ w v x rest' in
    let same : y ≡ x = ground arith in
    (found ∙ ap some same, draft_of x.status (rw same at drafted))

-- The workshop `x` stands under `id`.
module _ (id : ℕ) (x : Workshop) where
  abbrev pub Stands : World → Type 0
  Stands w = lookup workshop_key id w.workshops ≡ some x

  save_other-Keeps : (y : Workshop) → y.id ≢ id → Keeps Stands (save_workshop y)
  unfolding save_workshop
  save_other-Keeps y other = record {
    kept = λ w h. elim (Option-cases (lookup workshop_key y.id w.workshops)) [
      | inl gone ↦ rw (gone, save_workshop) h
      | inr (old, found) ↦
          rw (found, save_workshop)
            (ground (
              arith,
              lookup-replace workshop_key id y.id
                  (record y { created_at = old.created_at; updated_at = some w.now }) w.workshops
                  old,
            ))
    ];
  }

  insert_workshop-Keeps : (y : Workshop) → Keeps Stands (insert_workshop y)
  unfolding insert_workshop
  insert_workshop-Keeps y = record {
    kept = λ w h. lookup-append workshop_key id w.workshops _ ∙ rw h refl;
  }

  insert_entry-Keeps : (e : OutboxEntry) → Keeps Stands (insert_entry e)
  unfolding insert_entry
  insert_entry-Keeps e = record { kept = λ w h. h }

  fresh_ids-Keeps : (n : ℕ) → Keeps Stands (fresh_ids n)
  fresh_ids-Keeps n = record { kept = λ w h. h }

  fresh_id-Keeps : Keeps Stands fresh_id
  fresh_id-Keeps = record { kept = λ w h. h }

  publish_work-Keeps : (y : Workshop) (t : ℕ) → y.id ≢ id → Keeps Stands (publish_work y t)
  unfolding publish_work publish
  publish_work-Keeps y t other =
      Keeps-bind (save_workshop (publish y)) _ (save_other-Keeps (publish y) other)
        λ saved. Keeps-bind fresh_id _ fresh_id-Keeps λ n. search (keeps_rules, insert_entry-Keeps)

  replaced :
      (y : Workshop)
      → y.id ≢ id
      → (timezone : String) (ss : List Session)
      → Keeps Stands (save_workshop (replace_schedule y timezone ss))
  unfolding replace_schedule
  replaced y other timezone ss = save_other-Keeps (replace_schedule y timezone ss) other

  published_other :
      (y : Workshop) → y.id ≢ id → (t : ℕ) → Keeps Stands (in_transaction (publish_work y t))
  published_other y other t =
      Keeps-transact rollback (publish_work y t) (publish_work-Keeps y t other) (λ u v h k. h)

  module _ (cdn : String) where
    pub create_workshop-Stands : (input : WorkshopInput) → Keeps Stands (create_workshop cdn input)
    unfolding create_workshop
    create_workshop-Stands input =
        search (keeps_rules, fresh_id-Keeps, insert_workshop-Keeps) depth 12

    module _ (shown : x.status ≡ published) (w : World) (h : Stands w) where
      -- A draft stands under another id.
      draft-other :
          (k : ℕ) (y : Workshop)
          → lookup workshop_key k w.workshops ≡ some y
          → y.status ≡ draft
          → y.id ≢ id
      draft-other k y found drafted =
          let key = lookup-key workshop_key k w.workshops y found in λ same. absurd (ground arith)

      owned-other :
          (k expert : ℕ) (y : Workshop) → get_owned_draft k expert w ≡ (ok y, w) → y.id ≢ id
      owned-other k expert y owned =
          let (found, drafted) = get_owned_draft-eq-ok k expert w w y owned in
          draft-other k y found drafted

      pub update_workshop-Stands :
          (k expert : ℕ) (d : WorkshopChanges) → Stands (update_workshop cdn k expert d w).1
      unfolding update_workshop update_basics
      update_workshop-Stands k expert d =
          let run : Reaches Stands w (update_workshop cdn k expert d) =
            Reaches-after (ensure_not_frozen k) _ (ensure_not_frozen-Keeps k) h λ _ _.
              Reaches-after (get_owned_draft k expert) _ (get_owned_draft-Keeps k expert) h
                λ y owned. Keeps-Reaches h (
                  search (
                    keeps_rules,
                    save_other-Keeps (update_basics y d) (owned-other k expert y owned),
                  )) in
          run.reached

      pub replace_workshop_sessions-Stands :
          (k expert : ℕ) (timezone : String) (inputs : List SessionInput)
          → Stands (replace_workshop_sessions k expert timezone inputs w).1
      unfolding replace_workshop_sessions replace_schedule
      replace_workshop_sessions-Stands k expert timezone inputs =
          let run : Reaches Stands w (replace_workshop_sessions k expert timezone inputs) =
            Reaches-after (ensure_not_frozen k) _ (ensure_not_frozen-Keeps k) h λ _ _.
              Reaches-after (get_owned_draft k expert) _ (get_owned_draft-Keeps k expert) h
                λ y owned. Keeps-Reaches h (
                  search (
                    keeps_rules,
                    fresh_ids-Keeps,
                    replaced y (owned-other k expert y owned) timezone,
                  )) in
          run.reached

      pub update_workshop_session-Stands :
          (k session_id expert : ℕ) (d : SessionChanges)
          → Stands (update_workshop_session k session_id expert d w).1
      unfolding update_workshop_session update_session
      update_workshop_session-Stands k session_id expert d =
          let run : Reaches Stands w (update_workshop_session k session_id expert d) =
            Reaches-after (ensure_not_frozen k) _ (ensure_not_frozen-Keeps k) h λ _ _.
              Reaches-after (get_owned_draft k expert) _ (get_owned_draft-Keeps k expert) h
                λ y owned. Keeps-Reaches h (
                  Keeps-bind _ _ (Keeps-query (λ _. find (has_id session_id) y.sessions) _) λ _.
                    Keeps-bind (save_workshop (update_session y session_id d)) _
                      (save_other-Keeps (update_session y session_id d)
                        (owned-other k expert y owned))
                      λ saved. Keeps-query (λ _. find (has_id session_id) saved.sessions) _) in
          run.reached

      pub publish_workshop-Stands : (k expert : ℕ) → Stands (publish_workshop cdn k expert w).1
      unfolding publish_workshop
      publish_workshop-Stands k expert =
          let run : Reaches Stands w (publish_workshop cdn k expert) =
            Reaches-query (λ u. lookup workshop_key k u.workshops) _ _ (λ _. h)
              λ y found. Reaches-raise_if (not (y.expert_id == expert)) _ _ h λ _.
                Reaches-raise_if (status_is y.status published) _ _ h λ _.
                  Reaches-raise_if (not (status_is y.status draft)) _ _ h λ drafted.
                    Keeps-Reaches h (
                      search
                        (
                          keeps_rules,
                          published_other y (draft-other k y found (draft_of y.status drafted)),
                        )
                        depth 12) in
          run.reached
