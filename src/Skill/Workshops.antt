-- ===== src/Skill/Workshops.antt =====
-- skill/src/application/services/WorkshopService.ts: the workshops of an expert, from the draft to
-- the publication with its event in the outbox. `cdn` is as for cohorts.
pub mod Freezing
pub mod Beside
pub mod Completeness
pub mod Publication
mod Tests
use skill_stew_api.Prelude.{
  ℕ, ◌+◌, Bool, true, false, not, Option, none, some, List, [], ◌∷◌, ◌++◌, map, String, ◌==◌, ltb,
  length, filter, find, if◌then◌else◌,
}
use skill_stew_api.Effect.{ok, err, pure, raise, gets, or_raise, ◌>>=◌, ◌>>◌, raise_if}
use skill_stew_api.Skill.Membership.{given_or}
use skill_stew_api.Skill.Text.{trim, is_blank, lacks_words}
use skill_stew_api.Skill.Workshop.{
  Workshop, WorkshopStatus, Session, SessionInput, WorkshopChanges, SessionChanges, draft,
  published, status_is, trimmed, new_sessions, replace_schedule, update_basics, update_session,
  publish,
}
use skill_stew_api.Skill.World.{
  World, Action, Error, WorkshopPublished, OutboxEntry, Missing, pending, conflict, forbidden,
  not_found, a_session, frozen_workshop, already_published, draft_required, not_ready,
  title_missing, size_missing, timezone_missing, sessions_missing, session_titles_missing, fresh_id,
  in_transaction,
}
use skill_stew_api.Skill.Repos.{
  get_workshop, insert_workshop, save_workshop, insert_entry, exists_by_workshop, find_workshops,
}
use skill_stew_api.Skill.Cohorts.{lacks_text, is_empty, banner_url}

-- `CreateWorkshopDTO`
pub record WorkshopInput : Type 0 where
  pub expert_id : ℕ
  pub title : String
  pub description : Option String
  pub target_audience : Option String
  pub max_cohort_size : ℕ
  pub banner_image_key : Option String

-- `WorkshopResponseDTO` and `WorkshopSummaryResponseDTO`; the fields that are the workshop's stand
-- in `workshop`.
pub record WorkshopResponse : Type 0 where
  pub workshop : Workshop
  pub banner_image_url : Option String
  pub created_at : ℕ
  pub updated_at : ℕ

pub record WorkshopSummary : Type 0 where
  pub workshop : Workshop
  pub banner_image_url : Option String
  pub updated_at : ℕ
  pub session_count : ℕ

-- `ensureWorkshopIsNotFrozen`
unfoldable pub ensure_not_frozen : ℕ → Action (Unit {0})
ensure_not_frozen id = do
  frozen ← gets (λ w. exists_by_workshop id w.cohorts)
  raise_if frozen (conflict frozen_workshop)

-- `getOwnedDraftWorkshop`
unfoldable pub get_owned_draft : ℕ → ℕ → Action Workshop
get_owned_draft id expert = do
  x ← get_workshop id
  raise_if (not (x.expert_id == expert)) forbidden
  raise_if (not (status_is x.status draft)) draft_required
  pure x

-- `new Workshop({ … })` of `createWorkshop`
abbrev pub new_workshop : ℕ → WorkshopInput → Workshop
new_workshop id input = record {
  id = id;
  expert_id = input.expert_id;
  title = trim input.title;
  description = input.description;
  target_audience = input.target_audience;
  banner_image_key = input.banner_image_key;
  max_cohort_size = input.max_cohort_size;
  status = draft;
  sessions = [];
  timezone = none;
  created_at = none;
  updated_at = none;
}

-- Ids for a list of sessions.
abbrev pub fresh_ids : ℕ → Action ℕ
fresh_ids n w = (ok w.next_id, record w { next_id = w.next_id + n })

-- `replaceWorkshopSessions`
unfoldable pub replace_workshop_sessions :
    ℕ → ℕ → String → List SessionInput → Action (List Session)
replace_workshop_sessions id expert timezone inputs = do
  ensure_not_frozen id
  x ← get_owned_draft id expert
  first ← fresh_ids (length inputs)
  saved ← save_workshop (replace_schedule x timezone (new_sessions first inputs))
  pure saved.sessions

abbrev pub has_id : ℕ → Session → Bool
has_id id s = s.id == id

-- `updateWorkshopSession`
unfoldable pub update_workshop_session : ℕ → ℕ → ℕ → SessionChanges → Action Session
update_workshop_session id session_id expert d = do
  ensure_not_frozen id
  x ← get_owned_draft id expert
  existing ← (λ w. or_raise (find (has_id session_id) x.sessions) (not_found a_session) w)
  saved ← save_workshop (update_session x session_id d)
  (λ w. or_raise (find (has_id session_id) saved.sessions) (not_found a_session) w)

abbrev pub missing_if : Bool → Missing → List Missing
missing_if true e = e ∷ []
missing_if false e = []

abbrev pub untitled : Session → Bool
untitled s = lacks_words s.title

-- The checks of `publishWorkshop` that are collected in `validationErrors`.
unfoldable pub validation_errors : Workshop → List Missing
validation_errors x =
    let untitled_count = length (filter untitled x.sessions) in
    missing_if (is_blank x.title) title_missing
    ++ (missing_if (x.max_cohort_size == 0) size_missing
        ++ (missing_if (lacks_text x.timezone) timezone_missing
            ++ (missing_if (is_empty x.sessions) sessions_missing
                ++ missing_if (ltb 0 untitled_count) (session_titles_missing untitled_count))))

-- `.filter((text) => Boolean(text?.trim()))`
abbrev pub with_words : List (Option String) → List String
with_words [] = []
with_words (none ∷ rest) = with_words rest
with_words (some s ∷ rest) =
    let others = with_words rest in if is_blank s then others else s ∷ others

-- The payload of the event.
abbrev pub payload_of : Workshop → ℕ → WorkshopPublished
payload_of x published_at = record {
  id = x.id;
  expert_id = x.expert_id;
  title = x.title;
  description = x.description;
  target_audience = x.target_audience;
  banner_image_key = x.banner_image_key;
  published_at = published_at;
  session_titles = with_words (map (λ s. s.title) x.sessions);
  session_descriptions = with_words (map (λ s. s.description) x.sessions);
}

-- The work of the transaction of `publishWorkshop`.
unfoldable pub publish_work : Workshop → ℕ → Action Workshop
publish_work x published_at = do
  saved ← save_workshop (publish x)
  id ← fresh_id
  insert_entry (record {
    id = id;
    payload = payload_of saved published_at;
    status = pending;
    created_at = published_at;
  })
  pure saved

abbrev pub is_nil : List Missing → Bool
is_nil [] = true
is_nil (_ ∷ _) = false

module _ (cdn : String) where
  -- `toResponse` and `toSummaryResponse`
  unfoldable pub to_workshop_response : ℕ → Workshop → WorkshopResponse
  to_workshop_response now x = record {
    workshop = x;
    banner_image_url = banner_url cdn x.banner_image_key;
    created_at = given_or x.created_at now;
    updated_at = given_or x.updated_at now;
  }

  unfoldable pub to_workshop_summary : ℕ → Workshop → WorkshopSummary
  to_workshop_summary now x = record {
    workshop = x;
    banner_image_url = banner_url cdn x.banner_image_key;
    updated_at = given_or x.updated_at now;
    session_count = length x.sessions;
  }

  -- `createWorkshop`
  unfoldable pub create_workshop : WorkshopInput → Action WorkshopResponse
  create_workshop input = do
    id ← fresh_id
    saved ← insert_workshop (new_workshop id input)
    gets (λ w. to_workshop_response w.now saved)

  -- `getWorkshops`
  unfoldable pub get_workshops : ℕ → Option WorkshopStatus → Action (List WorkshopSummary)
  get_workshops expert status =
      gets (λ w. map (to_workshop_summary w.now) (find_workshops expert status w.workshops))

  -- `getWorkshopById`
  unfoldable pub get_workshop_by_id : ℕ → ℕ → Action WorkshopResponse
  get_workshop_by_id id expert = do
    x ← get_workshop id
    raise_if (not (x.expert_id == expert)) forbidden
    gets (λ w. to_workshop_response w.now x)

  -- `updateWorkshop`
  unfoldable pub update_workshop : ℕ → ℕ → WorkshopChanges → Action WorkshopResponse
  update_workshop id expert d = do
    ensure_not_frozen id
    x ← get_owned_draft id expert
    saved ← save_workshop (update_basics x d)
    gets (λ w. to_workshop_response w.now saved)

  -- `publishWorkshop`
  unfoldable pub publish_workshop : ℕ → ℕ → Action WorkshopResponse
  publish_workshop id expert = do
    x ← get_workshop id
    raise_if (not (x.expert_id == expert)) forbidden
    raise_if (status_is x.status published) already_published
    raise_if (not (status_is x.status draft)) draft_required
    raise_if (not (is_nil (validation_errors x))) (not_ready (validation_errors x))
    published_at ← gets (λ w. w.now)
    saved ← in_transaction (publish_work x published_at)
    gets (λ w. to_workshop_response w.now saved)
