-- ===== src/Notifications/World.antt =====
-- The state of the notification service: its two MongoDB collections, and the counts in Redis, which
-- lapse after half an hour. `next_id` supplies the ids of documents, which grow.
use skill_stew_api.Prelude.{ℕ, suc, ◌+◌, ◌-◌, Bool, true, List, String, ltb, leb, if◌then◌else◌}
use skill_stew_api.Effect.{Run, ok}
use skill_stew_api.Notifications.Content.{NotificationType, NotificationData}

-- The numbers that the counts are, which nothing keeps from being negative.
pub data ℤ : Type 0 where
  pos negsuc : ℕ → ℤ

-- `z + k` and `z - k`
abbrev pub increase : ℤ → ℕ → ℤ
increase (pos n) k = pos (n + k)
increase (negsuc n) k = if leb k n then negsuc (n - k) else pos (k - suc n)

abbrev pub decrease : ℤ → ℕ → ℤ
decrease (pos n) k = if leb k n then pos (n - k) else negsuc (k - suc n)
decrease (negsuc n) k = negsuc (n + k)

-- `z < k`
abbrev pub is_below : ℤ → ℕ → Bool
is_below (pos n) k = ltb n k
is_below (negsuc n) k = true

pub record Notification : Type 0 where
  pub id : ℕ
  pub recipient_id : ℕ
  pub type : NotificationType
  pub title : String
  pub message : String
  pub content : NotificationData
  pub is_read : Bool
  pub created_at : ℕ

-- A document of the unread counts, and a key of the cache.
pub record UnreadCount : Type 0 where
  pub user_id : ℕ
  pub unread_count : ℤ

pub record World : Type 0 where
  pub now : ℕ
  pub next_id : ℕ
  pub notifications : List Notification
  pub counts : List UnreadCount
  pub cache : List UnreadCount

pub data Resource : Type 0 where
  a_notification an_unread_count a_cached_count : Resource

pub data Error : Type 0 where
  not_found : Resource → Error
  cache_constraint : Error

abbrev pub Action : Type 0 → Type 0
Action = Run World Error

abbrev pub fresh_id : Action ℕ
fresh_id w = (ok w.next_id, record w { next_id = suc w.next_id })

-- An aborted transaction puts both collections back, and leaves the cache.
abbrev pub rollback : World → World → World
rollback w v = record v { notifications = w.notifications; counts = w.counts }
