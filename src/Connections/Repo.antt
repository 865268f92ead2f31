-- ===== src/Connections/Repo.antt =====
-- user/src/infrastructure/repositories: UserConnectionRepository.ts, and what the use cases call of
-- BaseRepository.ts and OutboxEventRepository.ts.
use skill_stew_api.Prelude.{
  ℕ, Bool, true, false, not, ◌&&◌, ◌||◌, Option, none, some, List, [], ◌∷◌, ◌++◌, map, filter, find,
  count, ◌==◌, if◌then◌else◌,
}
use skill_stew_api.Prelude.Table.{lookup}
use skill_stew_api.Effect.{Result, ok, err, or_raise}
use skill_stew_api.Connections.World.{
  UserConnection, UserConnectionStatus, pending, accepted, User, OutboxRow, Error, Action,
  not_found, foreign_key, query_failed,
}

abbrev pub connection_key : UserConnection → ℕ
connection_key c = c.id

abbrev pub user_key : User → ℕ
user_key u = u.id

abbrev pub is_accepted : UserConnectionStatus → Bool
is_accepted accepted = true
is_accepted pending = false

-- `findById` of the connections and of the users
abbrev pub get_connection : ℕ → Action UserConnection
get_connection id w = or_raise (lookup connection_key id w.connections) not_found w

abbrev pub get_user : ℕ → Action User
get_user id w = or_raise (lookup user_key id w.users) not_found w

-- The row of a pair of users, who stand in order.
abbrev pub is_pair : ℕ → ℕ → UserConnection → Bool
is_pair a b c = c.user_id_1 == a && c.user_id_2 == b

-- `findByUserIds`
unfoldable pub find_by_user_ids : ℕ → ℕ → Action UserConnection
find_by_user_ids a b w = or_raise (find (is_pair a b) w.connections) not_found w

-- `set: { status: "ACCEPTED" }`, with the time of the update
abbrev pub accept_row : ℕ → UserConnection → UserConnection
accept_row now c = record c { status = accepted; updated_at = now }

-- The conflict: the row of the pair, unless its requester is the one of the new request.
abbrev pub accept_mutual : UserConnection → ℕ → UserConnection → UserConnection
accept_mutual n now c =
    if is_pair n.user_id_1 n.user_id_2 c && not (c.requester_id == n.requester_id)
    then accept_row now c
    else c

abbrev pub is_user : ℕ → List User → Bool
is_user id us = elim (lookup user_key id us) [ none ↦ false | some _ ↦ true ]

abbrev pub returned_row : Option UserConnection → Result Error UserConnection
returned_row none = err query_failed
returned_row (some c) = ok c

-- `upsert`: the rows that it returns are those that it wrote, so where the requester repeats the
-- request there is none, and the mapper throws.
unfoldable pub upsert : UserConnection → Action UserConnection
upsert n w = elim (find (is_pair n.user_id_1 n.user_id_2) w.connections) [
  | none ↦ (
    (if is_user n.user_id_1 w.users && is_user n.user_id_2 w.users then ok n else err foreign_key),
    (if is_user n.user_id_1 w.users && is_user n.user_id_2 w.users
        then record w { connections = w.connections ++ n ∷ [] }
        else w),
  )
  | some old ↦ if old.requester_id == n.requester_id then (err query_failed, w) else (
    ok (accept_row w.now old),
    record w { connections = map (accept_mutual n w.now) w.connections },
  )
]

abbrev pub accept_by_id : ℕ → ℕ → UserConnection → UserConnection
accept_by_id id now c = if c.id == id then accept_row now c else c

-- `update(id, { status: "ACCEPTED" })`
unfoldable pub accept_connection_row : ℕ → Action UserConnection
accept_connection_row id w = elim (lookup connection_key id w.connections) [
  | none ↦ (err not_found, w)
  | some old ↦ (
    ok (accept_row w.now old),
    record w { connections = map (accept_by_id id w.now) w.connections },
  )
]

abbrev pub has_other_id : ℕ → UserConnection → Bool
has_other_id id c = not (c.id == id)

-- `delete(id)`
unfoldable pub delete_connection : ℕ → Action (Unit {0})
delete_connection id w = (ok tt, record w { connections = filter (has_other_id id) w.connections })

-- `OutboxEventRepository.create`
unfoldable pub insert_outbox : OutboxRow → Action (Unit {0})
insert_outbox e w = (ok tt, record w { outbox = w.outbox ++ e ∷ [] })

abbrev pub is_party : ℕ → UserConnection → Bool
is_party user c = c.user_id_1 == user || c.user_id_2 == user

-- `findAllForUserId`
unfoldable pub find_all_for_user : ℕ → List UserConnection → List UserConnection
find_all_for_user user = filter (is_party user)

-- `countAcceptedConnectionsForUser`
unfoldable pub count_accepted_for_user : ℕ → List UserConnection → ℕ
count_accepted_for_user user = count (λ c. is_accepted c.status && is_party user c)
