-- ===== src/Notifications/Service.antt =====
-- notification-service/src/application/services: `NotificationService` and
-- `UnreadNotificationCountService`.
pub mod Counting
pub mod Marking
pub mod Lapsing
use skill_stew_api.Prelude.{ℕ, Bool, false, Option, none, some, String, if◌then◌else◌}
use skill_stew_api.Effect.{Run, ok, err, pure, gets, ◌>>=◌, ◌>>◌, transact}
use skill_stew_api.Notifications.Content.{NotificationType, NotificationData, notification_content}
use skill_stew_api.Notifications.World.{ℤ, pos, Notification, World, Action, rollback}
use skill_stew_api.Notifications.Repo.{
  create, find_by_id, mark_read_by_id, increment_by_user_id, decrement_by_user_id, cache_increment,
  cache_decrement, cache_set, count_of, with_count,
}

-- The document to be saved: the id and the time are given by `create`.
abbrev pub new_notification : ℕ → NotificationType → NotificationData → Notification
new_notification recipient type content = record {
  id = 0;
  recipient_id = recipient;
  type = type;
  title = (notification_content content).title;
  message = (notification_content content).message;
  content = content;
  is_read = false;
  created_at = 0;
}

unfoldable pub create_work : Notification → Action Notification
create_work n = do saved ← create n; increment_by_user_id saved.recipient_id 1; pure saved

-- `createNotification`
unfoldable pub create_notification : ℕ → NotificationType → NotificationData → Action Notification
create_notification recipient type content = do
  result ← transact rollback (create_work (new_notification recipient type content))
  cache_increment result.recipient_id 1
  pure result

unfoldable pub mark_read_work : ℕ → ℕ → Action Notification
mark_read_work id recipient = do
  n ← mark_read_by_id id recipient
  decrement_by_user_id n.recipient_id 1
  pure n

-- `markRead`
unfoldable pub mark_read : ℕ → ℕ → Action Notification
mark_read id recipient = do
  n ← find_by_id id
  if n.is_read
      then pure n
      else (transact rollback (mark_read_work id recipient) >>= λ result.
          cache_decrement result.recipient_id 1 >> pure result)

-- The count in the collection, created at zero where there is none.
unfoldable pub stored_count : ℕ → Action ℤ
stored_count user w = elim (count_of user w.counts) [
  | none ↦ (ok (pos 0), record w { counts = with_count user (pos 0) w.counts })
  | some z ↦ (ok z, w)
]

unfoldable pub count_on_miss : ℕ → Action ℤ
count_on_miss user = do z ← stored_count user; cache_set user z; pure z

-- `getUnreadCountForUser`
unfoldable pub get_unread_count_for_user : ℕ → Action ℤ
get_unread_count_for_user user w = elim (count_of user w.cache) [
  | none ↦ count_on_miss user w
  | some z ↦ (ok z, w)
]
