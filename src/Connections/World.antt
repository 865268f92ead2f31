-- ===== src/Connections/World.antt =====
-- user/src/domain/entities/UserConnection.ts and UserConnectionStatus.ts, and the state that the use
-- cases of connections share.
use skill_stew_api.Prelude.{ℕ, suc, Option, List, String, ltb, if◌then◌else◌}
use skill_stew_api.Effect.{Run, ok, transact}

pub data UserConnectionStatus : Type 0 where
  pending accepted : UserConnectionStatus

pub record UserConnection : Type 0 where
  pub id : ℕ
  pub user_id_1 : ℕ
  pub user_id_2 : ℕ
  pub requester_id : ℕ
  pub status : UserConnectionStatus
  pub created_at : ℕ
  pub updated_at : ℕ

-- `new UserConnection(…)`, which puts the two users in order.
unfoldable pub new_connection : ℕ → ℕ → ℕ → ℕ → UserConnectionStatus → ℕ → UserConnection
new_connection id a b requester status now = record {
  id = id;
  user_id_1 = if ltb a b then a else b;
  user_id_2 = if ltb a b then b else a;
  requester_id = requester;
  status = status;
  created_at = now;
  updated_at = now;
}

-- What the use cases read of a user.
pub record User : Type 0 where
  pub id : ℕ
  pub username : Option String

-- The payloads of the events; the two users with their names.
pub record Parties : Type 0 where
  pub connection_id : ℕ
  pub requester_id : ℕ
  pub requester_username : Option String
  pub other_id : ℕ
  pub other_username : Option String
  pub timestamp : ℕ

pub data ConnectionEvent : Type 0 where
  connection_requested connection_accepted connection_rejected : Parties → ConnectionEvent

-- A row of the outbox, as it is made: pending.
pub record OutboxRow : Type 0 where
  pub id : ℕ
  pub event : ConnectionEvent
  pub created_at : ℕ

pub record World : Type 0 where
  pub now : ℕ
  pub next_id : ℕ
  pub users : List User
  pub connections : List UserConnection
  pub outbox : List OutboxRow

-- `query_failed` is `DbQueryError`.
pub data Error : Type 0 where
  self_connection not_found foreign_key query_failed : Error
  unauthorized rejecting_accepted : Error

abbrev pub Action : Type 0 → Type 0
Action = Run World Error

-- `uuidv7()`
abbrev pub fresh_id : Action ℕ
fresh_id w = (ok w.next_id, record w { next_id = suc w.next_id })

-- `UnitOfWork.transact` over the tables.
abbrev pub rollback : World → World → World
rollback w w' = record w' { users = w.users; connections = w.connections; outbox = w.outbox }

abbrev pub in_transaction : {A : Type 0} → Action A → Action A
in_transaction = transact rollback
