-- ===== src/Skill/Workshops/Completeness.antt =====
-- What the check before `publishWorkshop` asks of a draft.
use skill_stew_api.Prelude.{
  ◌≡◌, ◌≢◌, refl, Bool, true, false, List, ◌++◌, arith, ◌==◌, ltb, length, filter,
}
use skill_stew_api.Skill.Text.{is_blank}
use skill_stew_api.Skill.Workshop.{Workshop}
use skill_stew_api.Skill.World.{
  Missing, title_missing, size_missing, timezone_missing, sessions_missing, session_titles_missing,
}
use skill_stew_api.Skill.Cohorts.{lacks_text, is_empty}
use skill_stew_api.Skill.Workshops.{missing_if, untitled, validation_errors, is_nil}

-- What a workshop needs for its publication.
pub record IsComplete (x : Workshop) : Type 0 where
  pub title : is_blank x.title ≡ false
  pub size : x.max_cohort_size ≢ 0
  pub timezone : lacks_text x.timezone ≡ false
  pub sessions : is_empty x.sessions ≡ false
  pub titles : length (filter untitled x.sessions) ≡ 0

-- No entry was put on the list, by this check or by those after it.
nothing_missing :
    (b : Bool) (e : Missing) (rest : List Missing)
    → is_nil (missing_if b e ++ rest) ≡ true
    → (b ≡ false) × (is_nil rest ≡ true)
nothing_missing true e rest h = absurd (ground arith)
nothing_missing false e rest h = (refl, h)

last_missing : (b : Bool) (e : Missing) → is_nil (missing_if b e) ≡ true → b ≡ false
last_missing true e h = absurd (ground arith)
last_missing false e h = refl

pub validation_errors-IsComplete :
    (x : Workshop) → is_nil (validation_errors x) ≡ true → IsComplete x
unfolding validation_errors
validation_errors-IsComplete x h =
    let untitled_count = length (filter untitled x.sessions) in
    let (title, h1) = nothing_missing (is_blank x.title) title_missing _ h in
    let (size, h2) = nothing_missing (x.max_cohort_size == 0) size_missing _ h1 in
    let (zone, h3) = nothing_missing (lacks_text x.timezone) timezone_missing _ h2 in
    let (sessions, h4) = nothing_missing (is_empty x.sessions) sessions_missing _ h3 in
    let titles = last_missing (ltb 0 untitled_count) (session_titles_missing untitled_count) h4 in
    record {
      title = title;
      size = ground (arith, size);
      timezone = zone;
      sessions = sessions;
      titles = ground (arith, titles);
    }
