-- ===== src/Connections/Repeating.antt =====
-- A request to connect that is sent a second time.
use skill_stew_api.Prelude.{ℕ, suc, ◌≡◌, ◌≢◌, some, find, arith, ltb, if◌then◌else◌}
use skill_stew_api.Effect.{err, transact, ◌>>=◌}
use skill_stew_api.Connections.World.{UserConnection, pending, new_connection, World, query_failed}
use skill_stew_api.Connections.Repo.{is_pair, upsert}
use skill_stew_api.Connections.UseCases.{send_work, send_connection_request}

upsert_repeated :
    (n c : UserConnection) (w : World)
    → find (is_pair n.user_id_1 n.user_id_2) w.connections ≡ some c
    → c.requester_id ≡ n.requester_id
    → upsert n w ≡ (err query_failed, w)
unfolding upsert
upsert_repeated n c w found same = ground arith

-- A user who repeats a request to connect with another one gets an error of the database, not the
-- status of the request, and no table changes: an id is used up, and that is all.
pub send_connection_request_repeated :
    (a b : ℕ) (c : UserConnection) (w : World)
    → a ≢ b
    → find (is_pair (if ltb a b then a else b) (if ltb a b then b else a)) w.connections ≡ some c
    → c.requester_id ≡ a
    → send_connection_request a b w ≡ (err query_failed, record w { next_id = suc w.next_id })
unfolding send_connection_request send_work transact new_connection ◌>>=◌
send_connection_request_repeated a b c w apart found same =
    let fresh = record w { next_id = suc w.next_id } in
    let refused =
      upsert_repeated (new_connection w.next_id a b a pending w.now) c fresh found same in
    ground (arith, refused)
