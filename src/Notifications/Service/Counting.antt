-- ===== src/Notifications/Service/Counting.antt =====
-- The unread counts that are stored and the unread notifications, in `createNotification` and
-- `getUnreadCountForUser`.
use skill_stew_api.Prelude.{
  ℕ, suc, ◌≤◌, ◌≡◌, refl, false, not, ◌&&◌, Bool, some, none, List, [], ◌∷◌, ◌++◌, arith, ◌==◌,
  if◌then◌else◌, count, count-append, Option, inl, inr, Bool-cases, Option-cases,
}
use skill_stew_api.Prelude.Table.{lookup, lookup-replace, lookup_last, lookup_other_last}
use skill_stew_api.Effect.{ok, ◌>>=◌, transact}
use skill_stew_api.Effect.Rules.{Keeps, keeps_rules, Keeps-bind}
use skill_stew_api.Notifications.Content.{NotificationType, NotificationData}
use skill_stew_api.Notifications.World.{
  ℤ, pos, is_below, increase, Notification, UnreadCount, World, rollback,
}
use skill_stew_api.Notifications.Repo.{
  notification_key, count_key, count_of, with_count, create, increment_by_user_id, cache_increment,
  cache_decrement, cache_set,
}
use skill_stew_api.Notifications.Service.{
  new_notification, create_work, create_notification, stored_count, count_on_miss,
  get_unread_count_for_user,
}

abbrev pub is_unread : ℕ → Notification → Bool
is_unread user n = n.recipient_id == user && not n.is_read

abbrev pub unread : ℕ → World → ℕ
unread user w = count (is_unread user) w.notifications

-- A user without a document has no unread notifications.
abbrev pub or_zero : Option ℤ → ℤ
or_zero none = pos 0
or_zero (some z) = z

-- The stored counts are right, and ids still to be given out are unused.
pub record IsCounted (w : World) : Type 0 where
  pub counted : (user : ℕ) → or_zero (count_of user w.counts) ≡ pos (unread user w)
  pub fresh : (k : ℕ) → w.next_id ≤ k → lookup notification_key k w.notifications ≡ none

pub count_of-with_count :
    (j k : ℕ) (z : ℤ) (cs : List UnreadCount)
    → count_of j (with_count k z cs) ≡ (if j == k then some z else count_of j cs)
count_of-with_count j k z cs = elim (Option-cases (lookup count_key k cs)) [
  | inl gone ↦ ground (
    arith,
    lookup_last count_key k (record { user_id = k; unread_count = z }) cs,
    lookup_other_last count_key j (record { user_id = k; unread_count = z }) cs,
  )
  | inr (c, found) ↦
      ground (arith, lookup-replace count_key j k (record { user_id = k; unread_count = z }) cs c)
]

-- The counts with one more, or one less, under a user.
abbrev pub with_one_more : ℕ → List UnreadCount → List UnreadCount
with_one_more user cs = with_count user (increase (or_zero (count_of user cs)) 1) cs

increment_state :
    (user : ℕ) (w : World)
    → increment_by_user_id user 1 w ≡ (ok tt, record w { counts = with_one_more user w.counts })
unfolding increment_by_user_id
increment_state user w = elim (Option-cases (count_of user w.counts)) [
  | inl gone ↦ ground arith
  | inr (z, found) ↦ ground arith
]

-- What `create` makes of the document.
abbrev pub saved_in : World → Notification → Notification
saved_in w n = record n { id = w.next_id; created_at = w.now }

abbrev pub created : World → Notification → World
created w n = record w {
  next_id = suc w.next_id;
  notifications = w.notifications ++ saved_in w n ∷ [];
  counts = with_one_more n.recipient_id w.counts;
}

create_work_state :
    (n : Notification) (w : World) → create_work n w ≡ (ok (saved_in w n), created w n)
unfolding create_work create ◌>>=◌
create_work_state n w =
    let step = increment_state n.recipient_id (record w {
      next_id = suc w.next_id;
      notifications = w.notifications ++ saved_in w n ∷ [];
    }) in
    ground (arith, step)

created-IsCounted :
    (n : Notification) (w : World) → n.is_read ≡ false → IsCounted w → IsCounted (created w n)
created-IsCounted n w new h = record {
  counted = λ user.
      rw
        (
          count_of-with_count user n.recipient_id
              (increase (or_zero (count_of n.recipient_id w.counts)) 1) w.counts,
          h.counted n.recipient_id,
          count-append (is_unread user) w.notifications (saved_in w n ∷ []),
        )
        (elim (Bool-cases (user == n.recipient_id)) [
          | inl here ↦ ground arith
          | inr other ↦ ground (arith, h.counted user)
        ]);
  fresh = λ k le.
      ground
        (arith, h.fresh k, lookup_other_last notification_key k (saved_in w n) w.notifications);
}

-- The cache takes no part in the invariant.
recached : (w : World) (cs : List UnreadCount) → IsCounted w → IsCounted (record w { cache = cs })
recached w cs h = record { counted = h.counted; fresh = h.fresh }

cache_increment-IsCounted : (user k : ℕ) → Keeps IsCounted (cache_increment user k)
unfolding cache_increment
cache_increment-IsCounted user k = record {
  kept = λ w h. elim (Option-cases (count_of user w.cache)) [
    | inl gone ↦ rw (gone, cache_increment) (recached w _ h)
    | inr (z, found) ↦ rw (found, cache_increment) (recached w _ h)
  ];
}

pub cache_decrement-IsCounted : (user k : ℕ) → Keeps IsCounted (cache_decrement user k)
unfolding cache_decrement
cache_decrement-IsCounted user k = record {
  kept = λ w h. elim (Option-cases (count_of user w.cache)) [
    | inl gone ↦ rw (gone, cache_decrement) h
    | inr (z, found) ↦ elim (Bool-cases (is_below z k)) [
      | inl low ↦ rw (found, cache_decrement, low) h
      | inr enough ↦ rw (found, cache_decrement, enough) (recached w _ h)
    ]
  ];
}

pub create_transaction :
    (n : Notification) (w : World)
    → transact rollback (create_work n) w ≡ (ok (saved_in w n), created w n)
unfolding transact
create_transaction n w = ground (arith, create_work_state n w)

create_transaction-IsCounted :
    (n : Notification) → n.is_read ≡ false → Keeps IsCounted (transact rollback (create_work n))
create_transaction-IsCounted n new = record {
  kept = λ w h. rw (create_transaction n w) (created-IsCounted n w new h);
}

-- Where the stored counts are right, creating a notification keeps each stored unread count equal to the number of the user's unread
-- notifications.
pub create_notification-IsCounted :
    (recipient : ℕ) (type : NotificationType) (content : NotificationData) (w : World)
    → IsCounted w
    → IsCounted (create_notification recipient type content w).1
unfolding create_notification
create_notification-IsCounted recipient type content w h =
    (Keeps-bind (transact rollback (create_work (new_notification recipient type content))) _
        (create_transaction-IsCounted (new_notification recipient type content) refl)
        (λ a. search (keeps_rules, cache_increment-IsCounted))).kept
      w h

stored_count-IsCounted : (user : ℕ) → Keeps IsCounted (stored_count user)
unfolding stored_count
stored_count-IsCounted user = record {
  kept = λ w h. elim (Option-cases (count_of user w.counts)) [
    | inl gone ↦
        rw (gone, stored_count)
          (record {
            counted = λ j.
                rw (count_of-with_count j user (pos 0) w.counts) (elim (Bool-cases (j == user)) [
                  | inl here ↦ ground (arith, h.counted j)
                  | inr other ↦ ground (arith, h.counted j)
                ]);
            fresh = h.fresh;
          })
    | inr (z, known) ↦ rw (known, stored_count) h
  ];
}

cache_set-IsCounted : (user : ℕ) (z : ℤ) → Keeps IsCounted (cache_set user z)
unfolding cache_set
cache_set-IsCounted user z = record { kept = λ w h. recached w (with_count user z w.cache) h }

count_on_miss-IsCounted : (user : ℕ) → Keeps IsCounted (count_on_miss user)
unfolding count_on_miss
count_on_miss-IsCounted user = search (keeps_rules, stored_count-IsCounted, cache_set-IsCounted)

count_on_miss_lem :
    (user : ℕ) (w : World) → IsCounted w → (count_on_miss user w).0 ≡ ok (pos (unread user w))
unfolding count_on_miss stored_count cache_set ◌>>=◌
count_on_miss_lem user w h = elim (Option-cases (count_of user w.counts)) [
  | inl gone ↦ ground (arith, h.counted user)
  | inr (z, known) ↦ ground (arith, h.counted user)
]

-- On a miss of the cache, where the stored counts are right, the count that is returned is the
-- number of the user's unread notifications, and the stored counts stay right.
pub get_unread_count_for_user_miss :
    (user : ℕ) (w : World)
    → IsCounted w
    → count_of user w.cache ≡ none
    → ((get_unread_count_for_user user w).0 ≡ ok (pos (unread user w)))
      × IsCounted (get_unread_count_for_user user w).1
unfolding get_unread_count_for_user
get_unread_count_for_user_miss user w h miss = (
  rw (miss, get_unread_count_for_user) (count_on_miss_lem user w h),
  rw (miss, get_unread_count_for_user) ((count_on_miss-IsCounted user).kept w h),
)
