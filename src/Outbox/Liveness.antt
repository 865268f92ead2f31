-- ===== src/Outbox/Liveness.antt =====
-- What is in an outbox gets published, once the database and the channel work for long enough.
use skill_stew_api.Prelude.{
  ℕ, ◌≤◌, ◌≡◌, refl, subst, Option, none, some, List, [], ◌∷◌, map, String, All, All-count, All-zip,
  All-image, length, count, arith,
}
use skill_stew_api.Effect.Rules.{Keeps, Keeps-for_each, keeps_rules}
use skill_stew_api.Outbox.{
  Row, AppEvent, World, Action, Worker, payments_worker, users_worker, skills_worker, Faults, poll,
  poll_payments, poll_users, poll_skills, is_unsent, mark, mark_row, publish_event, dispatch,
  handle_row, poll_by, attempt, create_event,
}
use skill_stew_api.Outbox.Delivery.{HasPublished, IsSent, poll-HasPublished}
use skill_stew_api.Outbox.Draining.{Works, polls_at, polls_at-none}

module _ {Payload : Type 0} where
  abbrev pub row_id : Row Payload → ℕ
  row_id r = r.id

  ids-mark :
      (id now : ℕ) (rows : List (Row Payload))
      → map row_id (map (mark id now) rows) ≡ map row_id rows
  ids-mark id now [] = refl
  ids-mark id now (r ∷ rows) = ground (arith, ids-mark id now rows)

  All-ids :
      (P : ℕ → Type 0) (rows : List (Row Payload))
      → All P (map row_id rows)
      → All (λ r. P r.id) rows
  All-ids P [] h = tt
  All-ids P (r ∷ rows) (p, h) = (p, All-ids P rows h)

-- Nothing is left pending in `v`, and each row of `w` that a worker accepts has been published.
pub record AllSent {Payload Data : Type 0} (safe_parse : String → Payload → Option Data)
    (names : ℕ → String) (payloads : ℕ → Payload) (w v : World Payload Data) : Type 0 where
  pub emptied : count is_unsent v.rows ≡ 0
  pub sent : All (λ r. IsSent safe_parse names payloads v.published r.id) w.rows

module _ {Payload Data : Type 0} (safe_parse : String → Payload → Option Data)
    (faults : Faults) where
  module _ (ids : List ℕ) where
    abbrev HasIds : World Payload Data → Type 0
    HasIds w = map row_id w.rows ≡ ids

    Keeps-attempt : (m : Action Payload Data (Unit {0})) → Keeps HasIds m → Keeps HasIds (attempt m)
    Keeps-attempt m h = record { kept = h.kept }

    mark_row-Keeps : (id : ℕ) → Keeps HasIds (mark_row faults id)
    unfolding mark_row
    mark_row-Keeps id = record { kept = λ w h. ground (arith, ids-mark id w.now w.rows) }

    publish_event-Keeps : (id : ℕ) (e : AppEvent Data) → Keeps HasIds (publish_event faults id e)
    unfolding publish_event
    publish_event-Keeps id e = record { kept = λ w h. ground arith }

    create_event-Keeps :
        (producer name : String) (body : Data)
        → Keeps HasIds (create_event {Payload = Payload} producer name body)
    create_event-Keeps producer name body = record { kept = λ w h. h }

    ruleset ids_rules =
        (keeps_rules, Keeps-attempt, mark_row-Keeps, publish_event-Keeps, create_event-Keeps)

    module _ (producer : String) where
      dispatch-Keeps :
          (r : Row Payload) (o : Option Data)
          → Keeps HasIds (dispatch safe_parse faults producer r o)
      unfolding dispatch
      dispatch-Keeps r none = mark_row-Keeps r.id
      dispatch-Keeps r (some body) = search ids_rules

      handle_row-Keeps : (r : Row Payload) → Keeps HasIds (handle_row safe_parse faults producer r)
      unfolding handle_row
      handle_row-Keeps r = search (ids_rules, dispatch-Keeps)

      poll_by-Keeps :
          (fetch : List (Row Payload) → List (Row Payload))
          → Keeps HasIds (poll_by safe_parse faults producer fetch)
      unfolding poll_by
      poll_by-Keeps fetch = search (ids_rules, Keeps-for_each, handle_row-Keeps) depth 9

    poll-Keeps : (k : Worker) → Keeps HasIds (poll k safe_parse faults)
    unfolding poll poll_payments poll_users poll_skills
    poll-Keeps payments_worker = poll_by-Keeps "payments-service" _
    poll-Keeps users_worker = poll_by-Keeps "user-service" _
    poll-Keeps skills_worker = poll_by-Keeps "skill-service" _

    polls_at-ids :
        (k : Worker) (ts : List ℕ) (w : World Payload Data)
        → HasIds w
        → HasIds (polls_at safe_parse faults k ts w)
    polls_at-ids k [] w h = h
    polls_at-ids k (t ∷ ts) w h = polls_at-ids k ts _ ((poll-Keeps k).kept (record w { now = t }) h)

  module _ (names : ℕ → String) (payloads : ℕ → Payload) where
    polls_at-HasPublished :
        (k : Worker) (ts : List ℕ) (w : World Payload Data)
        → HasPublished safe_parse names payloads w
        → HasPublished safe_parse names payloads (polls_at safe_parse faults k ts w)
    polls_at-HasPublished k [] w s = s
    polls_at-HasPublished k (t ∷ ts) w s = polls_at-HasPublished k ts _ (
        poll-HasPublished safe_parse names payloads faults k (record w { now = t })
          (record { contents = s.contents; deliveries = s.deliveries }))

    -- Where the ids of rows determine their names and payloads and each marked row that a
    -- worker accepts has had its event published, as many polls without a failure as rows are pending leave none pending, and an
    -- event has been published with the content of each row that a worker accepts.
    pub polls_at-AllSent :
        (k : Worker) (ts : List ℕ) (w : World Payload Data)
        → HasPublished safe_parse names payloads w
        → All (Works faults) ts
        → count is_unsent w.rows ≤ length ts
        → AllSent safe_parse names payloads w (polls_at safe_parse faults k ts w)
    polls_at-AllSent k ts w s works few =
        let v = polls_at safe_parse faults k ts w in
        let done = polls_at-none safe_parse faults k ts w works few in
        let sound = polls_at-HasPublished k ts w s in
        let Sent = IsSent safe_parse names payloads v.published in
        let sent =
          All-zip {R = λ r. Sent r.id} (λ r settled delivered. delivered settled) v.rows
            (All-count is_unsent v.rows done) sound.deliveries in
        record {
          emptied = done;
          sent = All-ids Sent w.rows (
              subst (All Sent) (polls_at-ids (map row_id w.rows) k ts w refl)
                (All-image Sent row_id (λ r h. h) v.rows sent));
        }
