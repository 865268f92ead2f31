-- ===== src/Connections/Tests.antt =====
-- Two users: one asks for a connection, twice, and the other one answers by asking too.
use skill_stew_api.Prelude.{suc, ◌≡◌, refl, ap, inr, find, some, List, [], ◌∷◌, arith}
use skill_stew_api.Prelude.Table.{lookup}
use skill_stew_api.Effect.{ok, err, transact, ◌>>=◌}
use skill_stew_api.Connections.World.{
  UserConnection, pending, accepted, new_connection, User, World, query_failed,
}
use skill_stew_api.Connections.Repo.{
  connection_key, is_pair, upsert, accept_connection_row, delete_connection, insert_outbox,
}
use skill_stew_api.Connections.UseCases.{
  announce, announce_saved, send_work, send_connection_request, accept_work, accept_connection,
  reject_work, reject_connection, pending_received, get_connection_status,
}
use skill_stew_api.Connections.History.{
  rejects, start, later, Connects, History-Connects, own_request_stands,
}
use skill_stew_api.Connections.Repeating.{send_connection_request_repeated}
use skill_stew_api.Connections.Symmetry.{mirrored, get_connection_status-mirrored}

abbrev users : List User
users = record { id = 1; username = some "ann" } ∷ record { id = 2; username = some "bob" } ∷ []

abbrev before : World
before = record { now = 1000; next_id = 7; users = users; connections = []; outbox = [] }

abbrev asked : UserConnection
asked = record {
  id = 7;
  user_id_1 = 1;
  user_id_2 = 2;
  requester_id = 2;
  status = pending;
  created_at = 1000;
  updated_at = 1000;
}

abbrev after : World
after = (send_connection_request 2 1 before).1

abbrev friends : World
friends = (send_connection_request 1 2 after).1

requests :
    ((send_connection_request 2 1 before).0 ≡ ok pending)
    × (after.connections ≡ asked ∷ [])
    × ((send_connection_request 2 1 after).0 ≡ err query_failed)
    × ((send_connection_request 1 2 after).0 ≡ ok accepted)
    × (friends.connections ≡ record asked { status = accepted } ∷ [])
    × ((accept_connection 7 1 after).0 ≡ ok tt)
    × ((reject_connection 7 1 after).1.connections ≡ [])
    × (get_connection_status 1 2 after.connections ≡ pending_received)
unfolding send_connection_request send_work announce_saved announce upsert insert_outbox
    new_connection accept_connection accept_work accept_connection_row reject_connection reject_work
    delete_connection get_connection_status transact ◌>>=◌
requests = (refl, refl, refl, refl, refl, refl, refl, refl)

connects : Connects 7 1 2 2 friends
connects = (
  record asked { status = accepted },
  ap (lookup connection_key 7) requests.4,
  (refl, refl, refl, refl),
)

History-Connects_example : Connects 7 1 2 2 (reject_connection 7 1 friends).1
History-Connects_example = History-Connects 7 1 2 2 connects (later start (rejects 7 1))

own_request_stands_example :
    (lookup connection_key 7 (send_connection_request 2 1 after).1.connections ≡ some asked)
    × (lookup connection_key 7 (accept_connection 7 2 after).1.connections ≡ some asked)
    × (lookup connection_key 7 (reject_connection 7 2 after).1.connections ≡ some asked)
own_request_stands_example =
    own_request_stands 7 2 asked (λ e. absurd (ground arith)) (inr refl) after
      (ap (lookup connection_key 7) requests.1) 7 1

send_connection_request_repeated_example :
    send_connection_request 2 1 after
    ≡ (err query_failed, record after { next_id = suc after.next_id })
send_connection_request_repeated_example =
    send_connection_request_repeated 2 1 asked after (λ e. absurd (ground arith))
      (ap (find (is_pair 1 2)) requests.1) refl

get_connection_status-mirrored_example :
    get_connection_status 1 2 (asked ∷ []) ≡ mirrored (get_connection_status 2 1 (asked ∷ []))
get_connection_status-mirrored_example =
    get_connection_status-mirrored 1 2 (asked ∷ []) (λ e. absurd (ground arith)) (inr refl, tt)
