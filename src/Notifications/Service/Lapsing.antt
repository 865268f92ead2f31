-- ===== src/Notifications/Service/Lapsing.antt =====
-- What happens to the cached unread counts once a key of the cache has lapsed.
use skill_stew_api.Prelude.{
  ℕ, ◌+◌, ◌≡◌, refl, true, false, some, none, [], ◌∷◌, arith, count-append,
}
use skill_stew_api.Prelude.Table.{lookup, lookup-key, lookup-replace}
use skill_stew_api.Effect.{ok, err, ◌>>=◌}
use skill_stew_api.Notifications.Content.{NotificationType, NotificationData}
use skill_stew_api.Notifications.World.{pos, Notification, World, not_found, a_cached_count}
use skill_stew_api.Notifications.Repo.{notification_key, count_of, cache_increment, cache_decrement}
use skill_stew_api.Notifications.Service.{
  new_notification, create_notification, mark_read, get_unread_count_for_user,
}
use skill_stew_api.Notifications.Service.Counting.{
  is_unread, unread, IsCounted, count_of-with_count,
}
use skill_stew_api.Notifications.Service.Counting.{saved_in, create_transaction}
use skill_stew_api.Notifications.Service.Marking.{mark_read_own}

-- Where a user's count has lapsed from the cache, the count that is returned after a notification has
-- been created is one, whatever the number of unread notifications, which has grown by one.
pub create_notification_lapsed :
    (user : ℕ) (type : NotificationType) (content : NotificationData) (w : World)
    → count_of user w.cache ≡ none
    → ((get_unread_count_for_user user (create_notification user type content w).1).0 ≡ ok (pos 1))
      × (unread user (create_notification user type content w).1 ≡ unread user w + 1)
unfolding create_notification get_unread_count_for_user cache_increment ◌>>=◌
create_notification_lapsed user type content w miss =
    let n = new_notification user type content in
    let state = create_transaction n w in
    let set = count_of-with_count user user (pos 1) w.cache in
    let more = count-append (is_unread user) w.notifications (saved_in w n ∷ []) in
    (ground (arith, state, set), ground (arith, state, more))

-- Where the stored counts are right and a user's count has lapsed from the cache, the user who marks
-- an unread notification gets an error, although the notification has been marked.
pub mark_read_lapsed :
    (id : ℕ) (w : World) (n : Notification)
    → IsCounted w
    → lookup notification_key id w.notifications ≡ some n
    → n.is_read ≡ false
    → count_of n.recipient_id w.cache ≡ none
    → ((mark_read id n.recipient_id w).0 ≡ err (not_found a_cached_count))
      × (lookup notification_key id (mark_read id n.recipient_id w).1.notifications
          ≡ some (record n { is_read = true }))
unfolding cache_decrement ◌>>=◌
mark_read_lapsed id w n h found new miss =
    let run = mark_read_own w id n h found new n.recipient_id refl in
    let key = lookup-key notification_key id w.notifications n found in
    let after =
      lookup-replace notification_key id id (record n { is_read = true }) w.notifications n key
        found in
    (rw run (ground arith), rw run (ground (arith, after)))
