-- ===== src/Skill/World.antt =====
-- The state that the skill service's use cases share, and the effect in which they run.
-- `now` is the clock, read once for each request; `next_id` supplies what `uuidv7()` returns;
-- `checkouts` lists the requests sent to the payments service, which no rollback takes back.
use skill_stew_api.Prelude.{ℕ, suc, Option, List, String}
use skill_stew_api.Effect.{Run, ok, transact}
use skill_stew_api.Skill.Membership.{Membership}
use skill_stew_api.Skill.Cohort.{Cohort}
use skill_stew_api.Skill.Schedule.{ScheduleError}
use skill_stew_api.Skill.Workshop.{Workshop}

-- The argument of `IPaymentsClient.createCheckoutSession`.
pub record CheckoutRequest : Type 0 where
  pub membership_id : ℕ
  pub cohort_id : ℕ
  pub workshop_id : ℕ
  pub workshop_title : String
  pub expert_id : ℕ
  pub user_id : ℕ
  pub amount : ℕ
  pub currency : String

pub record CheckoutSession : Type 0 where
  pub payment_id : ℕ
  pub checkout_session_id : String
  pub checkout_url : String

-- The payload of `workshop.published`.
pub record WorkshopPublished : Type 0 where
  pub id : ℕ
  pub expert_id : ℕ
  pub title : String
  pub description : Option String
  pub target_audience : Option String
  pub banner_image_key : Option String
  pub published_at : ℕ
  pub session_titles : List String
  pub session_descriptions : List String

pub data EntryStatus : Type 0 where
  pending processed : EntryStatus

-- `OutboxEvent`; the service makes none but `workshop.published`.
pub record OutboxEntry : Type 0 where
  pub id : ℕ
  pub payload : WorkshopPublished
  pub status : EntryStatus
  pub created_at : ℕ

pub record World : Type 0 where
  pub now : ℕ
  pub next_id : ℕ
  pub workshops : List Workshop
  pub cohorts : List Cohort
  pub memberships : List Membership
  pub checkouts : List CheckoutRequest
  pub outbox : List OutboxEntry

pub data Resource : Type 0 where
  a_cohort a_workshop a_membership a_session : Resource

-- What a `ConflictError` of the cohort service says.
pub data Conflict : Type 0 where
  own_cohort not_upcoming already_active needs_reconciliation other_cohort sold_out : Conflict
  unpublished_workshop no_timezone no_workshop_sessions overlapping_cohort : Conflict
  has_memberships below_held_seats frozen_workshop : Conflict
  cohort_not_public workshop_not_public : Conflict

-- What keeps a workshop from being published.
pub data Missing : Type 0 where
  title_missing size_missing timezone_missing sessions_missing : Missing
  session_titles_missing : ℕ → Missing

pub data Error : Type 0 where
  not_found : Resource → Error
  conflict : Conflict → Error
  external_service : Error
  forbidden : Error
  schedule : ScheduleError → Error
  already_published draft_required : Error
  not_ready : List Missing → Error

abbrev pub Action : Type 0 → Type 0
Action = Run World Error

-- `uuidv7()`
abbrev pub fresh_id : Action ℕ
fresh_id w = (ok w.next_id, record w { next_id = suc w.next_id })

-- An aborted transaction puts the collections back as they were.
abbrev pub rollback : World → World → World
rollback w w' = record w' {
  workshops = w.workshops;
  cohorts = w.cohorts;
  memberships = w.memberships;
  outbox = w.outbox;
}

-- `UnitOfWork.transact` over the collections.
abbrev pub in_transaction : {A : Type 0} → Action A → Action A
in_transaction = transact rollback
