-- ===== src/Outbox.antt =====
-- The outbox workers: outbox-workers/payment-outbox-worker/src/index.ts, skill-outbox-worker and
-- user-outbox-worker, and `CreateEvent` of common/src/events. A worker polls the outbox of its
-- service, hands the events to the channel of the message broker and marks their rows.
-- What the schemas of an event accept is a parameter, and so are the failures of the database and
-- the channel, each by the time of the poll. An event is published once the channel has taken it.

pub mod Delivery
pub mod Draining
pub mod Liveness
mod Tests
use text.Mathlib.Text.{◌==◌ as str_eq}
use skill_stew_api.Prelude.{
  ℕ, suc, Bool, true, false, ◌||◌, Option, none, some, List, [], ◌∷◌, map, String, ◌==◌, ltb,
  filter, take, if◌then◌else◌,
}
use skill_stew_api.Prelude.Sorting.{sort}
use skill_stew_api.Effect.{Run, ok, err, raise_if, modify, gets, for_each, ◌>>=◌, ◌>>◌}

pub data RowStatus : Type 0 where
  pending processed : RowStatus

-- A row of the table `outbox_events`.
pub record Row (Payload : Type 0) : Type 0 where
  pub id : ℕ
  pub event_name : String
  pub payload : Payload
  pub status : RowStatus
  pub created_at : ℕ
  pub processed_at : Option ℕ

-- `AppEvent`
pub record AppEvent (Data : Type 0) : Type 0 where
  pub event_id : ℕ
  pub event_name : String
  pub timestamp : ℕ
  pub producer : String
  pub body : Data

-- `published` has the newest event first.
pub record World (Payload Data : Type 0) : Type 0 where
  pub now : ℕ
  pub next_id : ℕ
  pub rows : List (Row Payload)
  pub published : List (AppEvent Data)

pub data Failure : Type 0 where
  database_failed channel_failed : Failure

-- What fails at a time, for the row with an id.
pub record Faults : Type 0 where
  pub fetch_fails : ℕ → Bool
  pub publish_fails : ℕ → ℕ → Bool
  pub update_fails : ℕ → ℕ → Bool

-- The keys of `EventSchemas`.
abbrev pub event_names : List String
event_names =
    "user.registered" ∷ "user.verified" ∷ "user.profileUpdated" ∷ "skill.created"
    ∷ "skill.profileUpdated" ∷ "skill.updated" ∷ "skill.deleted" ∷ "workshop.published"
    ∷ "connection.requested" ∷ "connection.accepted" ∷ "connection.rejected" ∷ "expert.registered"
    ∷ "expert.onboarded" ∷ "expert.verified" ∷ "expert.application.submitted"
    ∷ "expert.application.approved" ∷ "expert.application.rejected"
    ∷ "resendVerificationLink.requested" ∷ "auth.providerLinked" ∷ "payment.succeeded"
    ∷ "payment.failed" ∷ "payment.refunded" ∷ []

-- `EventName.includes(value)`
unfoldable pub is_valid_event_name : List String → String → Bool
is_valid_event_name [] name = false
is_valid_event_name (n ∷ ns) name = str_eq n name || is_valid_event_name ns name

abbrev pub pending_fetch_limit : ℕ
pending_fetch_limit = 20

module _ {Payload : Type 0} where
  abbrev pub is_unsent : Row Payload → Bool
  is_unsent r = elim r.status [ pending ↦ true | processed ↦ false ]

  -- `.where(eq(outboxEventsTable.status, "PENDING"))`
  abbrev pub pending_rows : List (Row Payload) → List (Row Payload)
  pending_rows = filter is_unsent

  abbrev pub older : Row Payload → Row Payload → Bool
  older a b = ltb a.created_at b.created_at

  -- `.find({ status: "PENDING" }).sort({ created_at: 1 })`
  abbrev pub oldest_pending : List (Row Payload) → List (Row Payload)
  oldest_pending rows = sort older (filter is_unsent rows)

  -- `.set({ status: "PROCESSED", processed_at: new Date() }).where(eq(outboxEventsTable.id, id))`
  abbrev pub mark : ℕ → ℕ → Row Payload → Row Payload
  mark id now r = if r.id == id then record r { status = processed; processed_at = some now } else r

abbrev pub Action : Type 0 → Type 0 → Type 0 → Type 0
Action Payload Data = Run (World Payload Data) Failure

module _ {Payload Data : Type 0} where
  -- `try { … } catch (error) { logger.error(…) }`
  abbrev pub attempt : Action Payload Data (Unit {0}) → Action Payload Data (Unit {0})
  attempt m w = (ok tt, (m w).1)

  -- `CreateEvent`
  abbrev pub create_event : String → String → Data → Action Payload Data (AppEvent Data)
  create_event producer name body w = (
    ok (record {
      event_id = w.next_id;
      event_name = name;
      timestamp = w.now;
      producer = producer;
      body = body;
    }),
    record w { next_id = suc w.next_id },
  )

  module _ (faults : Faults) where
    -- The update of the row, in the state of the table.
    unfoldable pub mark_row : ℕ → Action Payload Data (Unit {0})
    mark_row id w =
        if faults.update_fails id w.now
        then (err database_failed, w)
        else (ok tt, record w { rows = map (mark id w.now) w.rows })

    -- `channel.publish`
    unfoldable pub publish_event : ℕ → AppEvent Data → Action Payload Data (Unit {0})
    publish_event id e w =
        if faults.publish_fails id w.now
        then (err channel_failed, w)
        else (ok tt, record w { published = e ∷ w.published })

  module _ (safe_parse : String → Payload → Option Data) (faults : Faults) (producer : String) where
    -- The body of the loop, after the name is found valid.
    unfoldable pub dispatch : Row Payload → Option Data → Action Payload Data (Unit {0})
    dispatch row none = mark_row faults row.id
    dispatch row (some body) = do
      e ← create_event producer row.event_name body
      attempt (publish_event faults row.id e >> mark_row faults row.id)

    unfoldable pub handle_row : Row Payload → Action Payload Data (Unit {0})
    handle_row row =
        if is_valid_event_name event_names row.event_name
        then dispatch row (safe_parse row.event_name row.payload)
        else mark_row faults row.id

    -- The callback of `setInterval`, by the query of the worker.
    unfoldable pub poll_by :
        (List (Row Payload) → List (Row Payload)) → Action Payload Data (Unit {0})
    poll_by fetch = attempt do
      fails ← gets (λ w. faults.fetch_fails w.now)
      raise_if fails database_failed
      rows ← gets (λ w. take pending_fetch_limit (fetch w.rows))
      for_each handle_row rows

  module _ (safe_parse : String → Payload → Option Data) (faults : Faults) where
    -- The payment, the user and the skill worker.
    unfoldable pub poll_payments : Action Payload Data (Unit {0})
    poll_payments = poll_by safe_parse faults "payments-service" pending_rows

    unfoldable pub poll_users : Action Payload Data (Unit {0})
    poll_users = poll_by safe_parse faults "user-service" pending_rows

    unfoldable pub poll_skills : Action Payload Data (Unit {0})
    poll_skills = poll_by safe_parse faults "skill-service" oldest_pending

pub data Worker : Type 0 where
  payments_worker users_worker skills_worker : Worker

-- The callback of a worker.
unfoldable pub poll :
    {Payload Data : Type 0}
    → Worker
    → (String → Payload → Option Data)
    → Faults
    → Action Payload Data (Unit {0})
poll payments_worker = poll_payments
poll users_worker = poll_users
poll skills_worker = poll_skills
