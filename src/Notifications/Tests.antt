-- ===== src/Notifications/Tests.antt =====
-- The notification service on two users, and the properties there.
use skill_stew_api.Prelude.{◌<◌, ◌≡◌, refl, true, false, none, some, [], All, take}
use skill_stew_api.Prelude.Table.{lookup}
use skill_stew_api.Prelude.Sorting.{sort}
use skill_stew_api.Effect.{ok, err, ◌>>=◌, transact}
use skill_stew_api.Notifications.Content.{
  NotificationData, connection_request, connection_request_data, notification_content,
}
use skill_stew_api.Notifications.World.{pos, Notification, World, not_found, a_cached_count}
use skill_stew_api.Notifications.Repo.{
  notification_key, create, mark_read_by_id, increment_by_user_id, decrement_by_user_id,
  cache_increment, cache_decrement, cache_set, listing, get_notifications_for_user,
}
use skill_stew_api.Notifications.Repo.Paging.{
  get_elem?, id_of, get_notifications_for_user-take, get_notifications_for_user_skips,
}
use skill_stew_api.Notifications.Service.{
  create_work, create_notification, mark_read_work, mark_read, stored_count, count_on_miss,
  get_unread_count_for_user,
}
use skill_stew_api.Notifications.Service.Counting.{IsCounted, create_notification-IsCounted}
use skill_stew_api.Notifications.Service.Lapsing.{mark_read_lapsed}
use skill_stew_api.Notifications.Service.Marking.{mark_read-IsCounted}

abbrev empty : World
empty = record { now = 1000; next_id = 1; notifications = []; counts = []; cache = [] }

empty-IsCounted : IsCounted empty
empty-IsCounted = record { counted = λ user. refl; fresh = λ k le. refl }

abbrev request : NotificationData
request = connection_request_data "9" none "4"

-- The user 5 is notified once, twice and three times; then the cache has lapsed.
abbrev notified : World → World
notified w = (create_notification 5 connection_request request w).1

abbrev three : World
three = notified (notified (notified empty))

abbrev lapsed : World
lapsed = record three { cache = [] }

abbrev first : Notification
first = record {
  id = 1;
  recipient_id = 5;
  type = connection_request;
  title = "New Connection Request";
  message = "User9 wants to connect with you";
  content = request;
  is_read = false;
  created_at = 1000;
}

-- Three notifications are unread; one is marked, after the cache has lapsed with an error that does
-- not undo it; and a page of one has the second last as its next cursor.
runs :
    ((get_unread_count_for_user 5 three).0 ≡ ok (pos 3))
    × ((get_unread_count_for_user 5 (mark_read 1 5 three).1).0 ≡ ok (pos 2))
    × ((mark_read 1 5 lapsed).0 ≡ err (not_found a_cached_count))
    × ((get_unread_count_for_user 5 (mark_read 1 5 lapsed).1).0 ≡ ok (pos 2))
    × ((get_unread_count_for_user 5 (notified lapsed)).0 ≡ ok (pos 1))
    × (lookup notification_key 1 three.notifications ≡ some first)
    × ((get_notifications_for_user 5 none 1 three).next_cursor ≡ some 2)
    × ((get_notifications_for_user 5 (some 2) 1 three).next_cursor ≡ none)
unfolding create_notification create_work create mark_read mark_read_work mark_read_by_id
    increment_by_user_id decrement_by_user_id cache_increment cache_decrement cache_set
    get_unread_count_for_user count_on_miss stored_count notification_content transact ◌>>=◌ listing
    sort get_notifications_for_user
runs = (refl, refl, refl, refl, refl, refl, refl, refl)

create_notification-IsCounted_example : IsCounted (notified empty)
create_notification-IsCounted_example =
    create_notification-IsCounted 5 connection_request request empty empty-IsCounted

-- The states of the run, which the invariant holds of.
three-IsCounted : IsCounted three
three-IsCounted =
    create_notification-IsCounted 5 connection_request request (notified (notified empty)) (
      create_notification-IsCounted 5 connection_request request (notified empty)
        (create_notification-IsCounted 5 connection_request request empty empty-IsCounted))

lapsed-IsCounted : IsCounted lapsed
lapsed-IsCounted = record { counted = three-IsCounted.counted; fresh = three-IsCounted.fresh }

mark_read-IsCounted_example : IsCounted (mark_read 1 5 three).1
mark_read-IsCounted_example = mark_read-IsCounted 1 5 three three-IsCounted

get_notifications_for_user-take_example :
    ((get_notifications_for_user 5 none 1 three).notifications ≡ take 1 (listing 5 none three))
    × ((get_notifications_for_user 5 none 1 three).next_cursor
        ≡ id_of (get_elem? (listing 5 none three) 1))
get_notifications_for_user-take_example = get_notifications_for_user-take 5 none 1 three

get_notifications_for_user_skips_example :
    ((get_notifications_for_user 5 none 1 three).notifications ≡ take 1 (listing 5 none three))
    × (id_of (get_elem? (listing 5 none three) 1) ≡ some 2)
    × All
        (λ (n : Notification). n.id < 2)
        (get_notifications_for_user 5 (some 2) 1 three).notifications
get_notifications_for_user_skips_example =
    get_notifications_for_user_skips 5 none 1 1 three 2 runs.6

mark_read_lapsed_example :
    ((mark_read 1 5 lapsed).0 ≡ err (not_found a_cached_count))
    × (lookup notification_key 1 (mark_read 1 5 lapsed).1.notifications
        ≡ some (record first { is_read = true }))
mark_read_lapsed_example = mark_read_lapsed 1 lapsed first lapsed-IsCounted runs.5 refl refl
