-- ===== src/Notifications/Repo.antt =====
-- notification-service/src/infrastructure: the repositories of notifications and of unread counts,
-- and the cache of the counts. Connection failures are left out.
pub mod Paging
use skill_stew_api.Prelude.{
  ℕ, zero, suc, ◌+◌, Bool, true, false, not, ◌&&◌, Option, none, some, List, [], ◌∷◌, ◌++◌, ◌==◌,
  ltb, if◌then◌else◌, filter, find, length, take,
}
use skill_stew_api.Prelude.Table.{lookup, replace}
use skill_stew_api.Prelude.Sorting.{sort}
use skill_stew_api.Effect.{ok, err, pure, raise, or_raise, gets, ◌>>=◌, ◌>>◌, modify}
use skill_stew_api.Notifications.World.{
  ℤ, pos, increase, decrease, is_below, Notification, UnreadCount, World, Action, not_found,
  cache_constraint, a_notification, an_unread_count, a_cached_count, fresh_id,
}

abbrev pub notification_key : Notification → ℕ
notification_key n = n.id

abbrev pub count_key : UnreadCount → ℕ
count_key c = c.user_id

-- The document, or the cached number, under a user.
abbrev pub count_of : ℕ → List UnreadCount → Option ℤ
count_of user cs = elim (lookup count_key user cs) [ none ↦ none | some c ↦ some c.unread_count ]

-- The collection with the number under a user set, whether or not it has been there.
abbrev pub with_count : ℕ → ℤ → List UnreadCount → List UnreadCount
with_count user z cs = elim (lookup count_key user cs) [
  | none ↦ cs ++ record { user_id = user; unread_count = z } ∷ []
  | some c ↦ replace count_key user (record { user_id = user; unread_count = z }) cs
]

-- `NotificationRepository.create`: the id and the time are those of the document as saved.
unfoldable pub create : Notification → Action Notification
create n = do
  id ← fresh_id
  now ← gets (λ w. w.now)
  let saved : Notification = record n { id = id; created_at = now }
  modify (λ w. record w { notifications = w.notifications ++ saved ∷ [] })
  pure saved

-- `findById`
abbrev pub find_by_id : ℕ → Action Notification
find_by_id id w = or_raise (lookup notification_key id w.notifications) (not_found a_notification) w

-- `markRead`: the query is by both ids, and ids are unique.
unfoldable pub mark_read_by_id : ℕ → ℕ → Action Notification
mark_read_by_id id recipient w = elim (lookup notification_key id w.notifications) [
  | none ↦ (err (not_found a_notification), w)
  | some n ↦
      let read : Notification = record n { is_read = true } in
      if n.recipient_id == recipient
      then (ok read, record w { notifications = replace notification_key id read w.notifications })
      else (err (not_found a_notification), w)
]

-- `incrementByUserId`, which creates the document where there is none
unfoldable pub increment_by_user_id : ℕ → ℕ → Action (Unit {0})
increment_by_user_id user inc w = elim (count_of user w.counts) [
  | none ↦ (ok tt, record w { counts = with_count user (increase (pos 0) inc) w.counts })
  | some z ↦ (ok tt, record w { counts = with_count user (increase z inc) w.counts })
]

-- `decrementByUserId`
unfoldable pub decrement_by_user_id : ℕ → ℕ → Action (Unit {0})
decrement_by_user_id user dec w = elim (count_of user w.counts) [
  | none ↦ (err (not_found an_unread_count), w)
  | some z ↦ (ok tt, record w { counts = with_count user (decrease z dec) w.counts })
]

-- The cache's `incrementByUserId`: a key that is missing counts as zero.
unfoldable pub cache_increment : ℕ → ℕ → Action (Unit {0})
cache_increment user inc w = elim (count_of user w.cache) [
  | none ↦ (ok tt, record w { cache = with_count user (increase (pos 0) inc) w.cache })
  | some z ↦ (ok tt, record w { cache = with_count user (increase z inc) w.cache })
]

-- The cache's `decrementByUserId`
unfoldable pub cache_decrement : ℕ → ℕ → Action (Unit {0})
cache_decrement user dec w = elim (count_of user w.cache) [
  | none ↦ (err (not_found a_cached_count), w)
  | some z ↦
      if is_below z dec
      then (err cache_constraint, w)
      else (ok tt, record w { cache = with_count user (decrease z dec) w.cache })
]

-- The cache's `setByUserId`
unfoldable pub cache_set : ℕ → ℤ → Action (Unit {0})
cache_set user z = modify (λ w. record w { cache = with_count user z w.cache })

abbrev pub newest_first : Notification → Notification → Bool
newest_first a b = ltb b.id a.id

-- `{ recipientId: userId }`, and `_id: { $lt: lastReadId }` where it is given
abbrev pub is_listed : ℕ → Option ℕ → Notification → Bool
is_listed user none n = n.recipient_id == user
is_listed user (some cursor) n = n.recipient_id == user && ltb n.id cursor

-- The query without its limit.
unfoldable pub listing : ℕ → Option ℕ → World → List Notification
listing user cursor w = sort newest_first (filter (is_listed user cursor) w.notifications)

-- `rows.slice(0, -1)` and `rows[rows.length - 1]`
abbrev pub drop_last {ℓ} : {A : Type ℓ} → List A → List A
drop_last [] = []
drop_last (x ∷ []) = []
drop_last (x ∷ y ∷ ys) = x ∷ drop_last (y ∷ ys)

abbrev pub last {ℓ} : {A : Type ℓ} → List A → Option A
last [] = none
last (x ∷ []) = some x
last (x ∷ y ∷ ys) = last (y ∷ ys)

pub record Page : Type 0 where
  pub notifications : List Notification
  pub has_next_page : Bool
  pub next_cursor : Option ℕ

-- `getNotificationsForUser`, from the rows on
abbrev pub page_of : ℕ → List Notification → Page
page_of limit rows =
    let more = ltb limit (length rows) in
    record {
      notifications = if more then drop_last rows else rows;
      has_next_page = more;
      next_cursor = if more then elim (last rows) [ none ↦ none | some n ↦ some n.id ] else none;
    }

unfoldable pub get_notifications_for_user : ℕ → Option ℕ → ℕ → World → Page
get_notifications_for_user user cursor limit w =
    page_of limit (take (suc limit) (listing user cursor w))
