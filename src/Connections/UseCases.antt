-- ===== src/Connections/UseCases.antt =====
-- user/src/application/use-cases/user: SendConnectionRequest, AcceptConnection, RejectConnection,
-- GetConnectionStatusToUser, GetAllConnectedUserIds and GetConnectedUsersCount. The promise of the
-- transaction of SendConnectionRequest is returned without `await`, so its errors pass the `catch` by.
use skill_stew_api.Prelude.{ℕ, not, Option, none, some, List, map, find, ◌==◌, ltb, if◌then◌else◌}
use skill_stew_api.Effect.{pure, gets, ◌>>=◌, ◌>>◌, raise_if}
use skill_stew_api.Connections.World.{
  UserConnection, UserConnectionStatus, pending, new_connection, User, Parties, ConnectionEvent,
  connection_requested, connection_accepted, connection_rejected, Action, self_connection,
  unauthorized, rejecting_accepted, fresh_id, in_transaction,
}
use skill_stew_api.Connections.Repo.{
  get_connection, get_user, is_pair, is_accepted, upsert, accept_connection_row, delete_connection,
  insert_outbox, find_all_for_user,
}

-- The one of the two users who did not make the request.
abbrev pub recipient_of : UserConnection → ℕ
recipient_of c = if c.user_id_1 == c.requester_id then c.user_id_2 else c.user_id_1

abbrev pub parties : UserConnection → User → User → ℕ → Parties
parties c requester other now = record {
  connection_id = c.id;
  requester_id = requester.id;
  requester_username = requester.username;
  other_id = other.id;
  other_username = other.username;
  timestamp = now;
}

-- `this._outboxRepo.create({ id: uuidv7(), …, status: "PENDING" })`
unfoldable pub announce : ConnectionEvent → Action (Unit {0})
announce e = do
  id ← fresh_id
  now ← gets (λ w. w.now)
  insert_outbox (record { id = id; event = e; created_at = now })

-- The branches on the status of the saved connection.
unfoldable pub announce_saved : ℕ → ℕ → UserConnection → Action (Unit {0})
announce_saved requester_id recipient_id saved = do
  now ← gets (λ w. w.now)
  if is_accepted saved.status
      then (get_user saved.requester_id >>= λ requester.
          get_user (recipient_of saved) >>= λ recipient.
          announce (connection_accepted (parties saved requester recipient now)))
      else (get_user requester_id >>= λ requester. get_user recipient_id >>= λ recipient.
          announce (connection_requested (parties saved requester recipient saved.created_at)))

unfoldable pub send_work : UserConnection → ℕ → ℕ → Action UserConnectionStatus
send_work n requester_id recipient_id = do
  saved ← upsert n
  announce_saved requester_id recipient_id saved
  pure saved.status

-- `SendConnectionRequest.exec`
unfoldable pub send_connection_request : ℕ → ℕ → Action UserConnectionStatus
send_connection_request requester_id recipient_id = do
  raise_if (requester_id == recipient_id) self_connection
  id ← fresh_id
  now ← gets (λ w. w.now)
  in_transaction (
      send_work (new_connection id requester_id recipient_id requester_id pending now) requester_id
        recipient_id)

unfoldable pub accept_work : ℕ → ℕ → Action (Unit {0})
accept_work id recipient_id = do
  saved ← accept_connection_row id
  recipient ← get_user recipient_id
  requester ← get_user saved.requester_id
  now ← gets (λ w. w.now)
  announce (connection_accepted (parties saved requester recipient now))

-- `AcceptConnection.exec`
unfoldable pub accept_connection : ℕ → ℕ → Action (Unit {0})
accept_connection id user = do
  c ← get_connection id
  raise_if (not (recipient_of c == user)) unauthorized
  if is_accepted c.status then pure tt else in_transaction (accept_work id (recipient_of c))

unfoldable pub reject_work : UserConnection → Action (Unit {0})
reject_work c = do
  delete_connection c.id
  recipient ← get_user (recipient_of c)
  requester ← get_user c.requester_id
  now ← gets (λ w. w.now)
  announce (connection_rejected (parties c requester recipient now))

-- `RejectConnection.exec`
unfoldable pub reject_connection : ℕ → ℕ → Action (Unit {0})
reject_connection id user = do
  c ← get_connection id
  raise_if (not (recipient_of c == user)) unauthorized
  raise_if (is_accepted c.status) rejecting_accepted
  in_transaction (reject_work c)

pub data ConnectionView : Type 0 where
  connected pending_sent pending_received no_connection : ConnectionView

abbrev pub view_of : ℕ → UserConnection → ConnectionView
view_of user c =
    if is_accepted c.status
    then connected
    else if c.requester_id == user
    then pending_sent
    else pending_received

abbrev pub viewed : ℕ → Option UserConnection → ConnectionView
viewed user none = no_connection
viewed user (some c) = view_of user c

-- `GetConnectionStatusToUser.exec`, the status of its result
unfoldable pub get_connection_status : ℕ → ℕ → List UserConnection → ConnectionView
get_connection_status user target cs =
    let a = if ltb user target then user else target in
    let b = if ltb user target then target else user in viewed user (find (is_pair a b) cs)

-- `GetAllConnectedUserIds.exec`
pub record ConnectedUser : Type 0 where
  pub user_id : ℕ
  pub status : ConnectionView

abbrev pub connected_user : ℕ → UserConnection → ConnectedUser
connected_user user c = record {
  user_id = if c.requester_id == user then recipient_of c else c.requester_id;
  status = view_of user c;
}

unfoldable pub get_all_connected_user_ids : ℕ → List UserConnection → List ConnectedUser
get_all_connected_user_ids user cs = map (connected_user user) (find_all_for_user user cs)
