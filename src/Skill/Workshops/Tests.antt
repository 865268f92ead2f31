-- ===== src/Skill/Workshops/Tests.antt =====
-- A draft without sessions, which is refused, and one that is published.
use skill_stew_api.Prelude.{◌≡◌, refl, Option, none, some, List, [], ◌∷◌, String}
use skill_stew_api.Effect.{ok, err, transact, ◌>>=◌}
use skill_stew_api.Skill.Text.{trim}
use skill_stew_api.Skill.Workshop.{Session, Workshop, draft, publish}
use skill_stew_api.Skill.World.{World, not_ready, sessions_missing, timezone_missing}
use skill_stew_api.Skill.Repos.{save_workshop, insert_entry}
use skill_stew_api.Skill.Workshops.{
  WorkshopResponse, validation_errors, publish_work, to_workshop_response, publish_workshop,
}
use skill_stew_api.Skill.Workshops.Publication.{
  reply, publishing, Published, publish_workshop-Published,
}

abbrev evening : Session
evening = record {
  id = 1;
  week_number = 1;
  day_of_week = 0;
  session_order = 1;
  title = some "Clay";
  description = none;
  start_time = "18:30";
}

abbrev pottery : List Session → Option String → Workshop
pottery sessions timezone = record {
  id = 1;
  expert_id = 100;
  title = "Pottery";
  description = none;
  target_audience = none;
  banner_image_key = none;
  max_cohort_size = 10;
  status = draft;
  sessions = sessions;
  timezone = timezone;
  created_at = none;
  updated_at = none;
}

abbrev studio : Workshop → World
studio x = record {
  now = 1000;
  next_id = 7;
  workshops = x ∷ [];
  cohorts = [];
  memberships = [];
  checkouts = [];
  outbox = [];
}

abbrev bare : World
bare = studio (pottery [] none)

abbrev planned : Workshop
planned = pottery (evening ∷ []) (some "Asia/Kolkata")

abbrev open_reply : WorkshopResponse
open_reply = reply "cdn" planned (studio planned)

publications :
    (publish_workshop "cdn" 1 100 (studio planned)
      ≡ (ok open_reply, publishing planned (studio planned)))
    × (publish_workshop "cdn" 1 100 bare
        ≡ (err (not_ready (timezone_missing ∷ sessions_missing ∷ [])), bare))
unfolding publish_workshop publish_work validation_errors save_workshop insert_entry publish trim
    to_workshop_response transact ◌>>=◌
publications = (refl, refl)

publish_workshop-Published_example :
    Published "cdn" 1 100 (studio planned) open_reply (publishing planned (studio planned))
publish_workshop-Published_example =
    publish_workshop-Published "cdn" 1 100 (studio planned) (publishing planned (studio planned))
      open_reply publications.0
