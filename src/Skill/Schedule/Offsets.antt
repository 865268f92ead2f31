-- ===== src/Skill/Schedule/Offsets.antt =====
-- The offsets of time zones: `localDateTimeToUtc` and what rests on it.
use skill_stew_api.Prelude.{
  ℕ, zero, suc, ◌≡◌, ◌≢◌, refl, ap, inl, inr, Option, some, List, [], String, arith, Bool,
  if◌then◌else◌, ◌==◌, Bool-cases,
}
use skill_stew_api.Effect.{ok, err}
use skill_stew_api.Effect.Results.{>>=-eq-ok, traverse-none, found_or}
use skill_stew_api.Prelude.Sorting.{sort}
use skill_stew_api.Skill.Workshop.{Session}
use skill_stew_api.Skill.Schedule.{
  Offset, bad_offset, bad_time, adjust, get_offset_minutes, settle_offset, parse_offset_minutes,
  get_earliest_workshop_session, sort_sessions, derive_cohort_sessions, derive_session,
  local_date_time_to_utc, to_utc_midnight, parse_time, DerivedSession,
}

if_same : {A : Type 0} (b : Bool) (x y : A) → y ≡ x → (if b then x else y) ≡ x
if_same b x y h = ground arith

no_earliest : (ss : List Session) (f : Session) → ss ≡ [] → get_earliest_workshop_session ss ≢ ok f
unfolding get_earliest_workshop_session sort_sessions sort
no_earliest ss f none_there =
    rw (none_there, get_earliest_workshop_session) (λ h. absurd (ground arith))

module _ (short_offset : String → ℕ → Option String) (zone : String) where
  module _ (local : ℕ) (o : Offset) where
    -- At an instant that its own offset leads back to, every round stays.
    settled :
        (n : ℕ)
        → get_offset_minutes short_offset zone (adjust local o) ≡ ok o
        → settle_offset short_offset n zone local (adjust local o) ≡ ok (adjust local o)
    unfolding settle_offset
    settled zero h = refl
    settled (suc n) h = rw (h, settle_offset) (if_same _ _ _ (settled n h))

    -- If the zone has the offset at the local time and at the instant that it leads to, that instant
    -- is what the three rounds settle on.
    pub settle_offset_lem :
        get_offset_minutes short_offset zone local ≡ ok o
        → get_offset_minutes short_offset zone (adjust local o) ≡ ok o
        → settle_offset short_offset 3 zone local local ≡ ok (adjust local o)
    unfolding settle_offset
    settle_offset_lem first second =
        rw (first, settle_offset)
          (elim (Bool-cases (adjust local o == local)) [
            | inl same ↦ rw same (ap ok (ground arith))
            | inr moved ↦ rw moved (settled 2 second)
          ])

  module _ (bad : (t : ℕ) → get_offset_minutes short_offset zone t ≡ err bad_offset) where
    not_settled : (n local utc u : ℕ) → settle_offset short_offset (suc n) zone local utc ≢ ok u
    unfolding settle_offset
    not_settled n local utc u = rw (bad utc, settle_offset) (λ h. absurd (ground arith))

    no_local_time :
        (date time : String) (u : ℕ) → local_date_time_to_utc short_offset date time zone ≢ ok u
    unfolding local_date_time_to_utc settle_offset
    no_local_time date time u h =
        let (d, at, rest) = >>=-eq-ok (to_utc_midnight date) _ u h in
        let (t, clock, last) = >>=-eq-ok (found_or bad_time (parse_time time)) _ u rest in
        not_settled 2 _ _ u last

    no_session :
        (f : Session) (d : ℕ) (s : Session) (r : DerivedSession)
        → derive_session short_offset f d zone s ≢ ok r
    unfolding derive_session
    no_session f d s r h =
        let (u, at, rest) =
          >>=-eq-ok (local_date_time_to_utc short_offset _ s.start_time zone) _ r h in
        no_local_time _ s.start_time u at

    -- Where every offset of the zone is refused, no schedule is derived.
    pub derive_cohort_sessions-refused :
        (sessions : List Session) (start_date : String) (rs : List DerivedSession)
        → derive_cohort_sessions short_offset sessions start_date zone ≢ ok rs
    unfolding derive_cohort_sessions
    derive_cohort_sessions-refused sessions start_date rs h =
        let (f, first, rest) =
          >>=-eq-ok (get_earliest_workshop_session (sort_sessions sessions)) _ rs h in
        let (d, at, last) = >>=-eq-ok (to_utc_midnight start_date) _ rs rest in
        no_earliest (sort_sessions sessions) f
          (traverse-none _ (sort_sessions sessions) rs (no_session f d) last) first

  gmt_refused :
      (t : ℕ)
      → short_offset zone t ≡ some "GMT"
      → get_offset_minutes short_offset zone t ≡ err bad_offset
  unfolding get_offset_minutes parse_offset_minutes
  gmt_refused t h = rw (h, get_offset_minutes) refl

  -- Where a time zone's offset is written "GMT", as that of UTC is, no cohort has a schedule: the
  -- derivation of its sessions throws, whatever the sessions and the start date are.
  pub derive_cohort_sessions_gmt :
      ((t : ℕ) → short_offset zone t ≡ some "GMT")
      → (sessions : List Session) (start_date : String) (rs : List DerivedSession)
      → derive_cohort_sessions short_offset sessions start_date zone ≢ ok rs
  derive_cohort_sessions_gmt gmt sessions start_date rs =
      derive_cohort_sessions-refused (λ t. gmt_refused t (gmt t)) sessions start_date rs
