-- ===== src/Skill/Workshops/Beside.antt =====
-- The service of workshops beside the cohorts and memberships.
use skill_stew_api.Prelude.{ℕ, ◌≤◌, ◌≡◌, refl, find, List, String, arith}
use skill_stew_api.Effect.Rules.{Keeps, keeps_rules, Keeps-bind, Keeps-query, Keeps-transact}
use skill_stew_api.Skill.Workshop.{
  Workshop, SessionInput, WorkshopChanges, SessionChanges, update_session,
}
use skill_stew_api.Skill.World.{World, OutboxEntry, rollback, fresh_id, in_transaction}
use skill_stew_api.Skill.Repos.{insert_workshop, save_workshop, insert_entry}
use skill_stew_api.Skill.Soundness.{IsSound}
use skill_stew_api.Skill.Workshops.{
  WorkshopInput, has_id, fresh_ids, create_workshop, update_workshop, replace_workshop_sessions,
  update_workshop_session, publish_work, publish_workshop,
}
use skill_stew_api.Skill.Workshops.Freezing.{ensure_not_frozen-Keeps, get_owned_draft-Keeps}

-- Between `w` and `v` the clock, the cohorts and the memberships have not changed, and no id was
-- given back.
pub record Beside (w v : World) : Type 0 where
  pub now : v.now ≡ w.now
  pub cohorts : v.cohorts ≡ w.cohorts
  pub memberships : v.memberships ≡ w.memberships
  pub ids : w.next_id ≤ v.next_id

pub Beside-refl : (w : World) → Beside w w
Beside-refl w = record { now = refl; cohorts = refl; memberships = refl; ids = omega arith }

pub Beside-IsSound : (w v : World) → Beside w v → IsSound w → IsSound v
Beside-IsSound w v b h = record {
  valid = record {
    fresh = λ k le. rw b.memberships (h.valid.fresh k (omega (arith, b.ids)));
    dated = rw b.memberships h.valid.dated;
    room = rw (b.now, b.cohorts, b.memberships) h.valid.room;
  };
  placed = rw (b.cohorts, b.memberships) h.placed;
  unused = λ k le. rw b.cohorts (h.unused k (omega (arith, b.ids)));
  unique = rw b.cohorts h.unique;
  apart = rw b.cohorts h.apart;
}

module _ {w : World} where
  save_workshop-Beside : (x : Workshop) → Keeps (Beside w) (save_workshop x)
  unfolding save_workshop
  save_workshop-Beside x = record { kept = λ v h. ground arith }

  insert_workshop-Beside : (x : Workshop) → Keeps (Beside w) (insert_workshop x)
  unfolding insert_workshop
  insert_workshop-Beside x = record { kept = λ v h. ground arith }

  insert_entry-Beside : (e : OutboxEntry) → Keeps (Beside w) (insert_entry e)
  unfolding insert_entry
  insert_entry-Beside e = record { kept = λ v h. ground arith }

  fresh_id-Beside : Keeps (Beside w) fresh_id
  fresh_id-Beside = record { kept = λ v h. ground arith }

  fresh_ids-Beside : (n : ℕ) → Keeps (Beside w) (fresh_ids n)
  fresh_ids-Beside n = record { kept = λ v h. ground arith }

  publish_work-Beside : (x : Workshop) (t : ℕ) → Keeps (Beside w) (publish_work x t)
  unfolding publish_work
  publish_work-Beside x t =
      search (keeps_rules, save_workshop-Beside, fresh_id-Beside, insert_entry-Beside) depth 12

  published-Beside : (x : Workshop) (t : ℕ) → Keeps (Beside w) (in_transaction (publish_work x t))
  published-Beside x t =
      Keeps-transact rollback (publish_work x t) (publish_work-Beside x t) (λ u v h k. record {
        now = k.now;
        cohorts = h.cohorts;
        memberships = h.memberships;
        ids = k.ids;
      })

  pub replace_workshop_sessions-Beside :
      (id expert : ℕ) (timezone : String) (inputs : List SessionInput)
      → Keeps (Beside w) (replace_workshop_sessions id expert timezone inputs)
  unfolding replace_workshop_sessions
  replace_workshop_sessions-Beside id expert timezone inputs =
      search
        (
          keeps_rules, ensure_not_frozen-Keeps, get_owned_draft-Keeps, fresh_ids-Beside,
          save_workshop-Beside,
        )
        depth 12

  pub update_workshop_session-Beside :
      (id session_id expert : ℕ) (d : SessionChanges)
      → Keeps (Beside w) (update_workshop_session id session_id expert d)
  unfolding update_workshop_session
  update_workshop_session-Beside id session_id expert d =
      Keeps-bind _ _ (ensure_not_frozen-Keeps id) λ _.
        Keeps-bind _ _ (get_owned_draft-Keeps id expert) λ x.
          Keeps-bind _ _ (Keeps-query (λ _. find (has_id session_id) x.sessions) _) λ _.
            Keeps-bind _ _ (save_workshop-Beside (update_session x session_id d))
              λ saved. Keeps-query (λ _. find (has_id session_id) saved.sessions) _

  module _ (cdn : String) where
    pub create_workshop-Beside :
        (input : WorkshopInput) → Keeps (Beside w) (create_workshop cdn input)
    unfolding create_workshop
    create_workshop-Beside input =
        search (keeps_rules, fresh_id-Beside, insert_workshop-Beside) depth 12

    pub update_workshop-Beside :
        (id expert : ℕ) (d : WorkshopChanges) → Keeps (Beside w) (update_workshop cdn id expert d)
    unfolding update_workshop
    update_workshop-Beside id expert d =
        search (keeps_rules, ensure_not_frozen-Keeps, get_owned_draft-Keeps, save_workshop-Beside)
          depth 12

    pub publish_workshop-Beside :
        (id expert : ℕ) → Keeps (Beside w) (publish_workshop cdn id expert)
    unfolding publish_workshop
    publish_workshop-Beside id expert = search (keeps_rules, published-Beside) depth 16
