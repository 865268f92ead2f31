-- ===== src/Notifications/Service/Marking.antt =====
-- What `markRead` does to the notifications and to the stored unread counts.
use skill_stew_api.Prelude.{
  ℕ, ◌+◌, ◌≡◌, ◌≢◌, ◌⊎◌, true, false, some, none, List, arith, ◌==◌, to_bit, if◌then◌else◌, inl,
  inr, Bool-cases, Option-cases,
}
use skill_stew_api.Prelude.Table.{lookup, replace, lookup-key, count-replace, lookup-replace}
use skill_stew_api.Effect.{ok, pure, ◌>>◌, err, ◌>>=◌, transact}
use skill_stew_api.Effect.Rules.{keeps_rules, Keeps-bind}
use skill_stew_api.Notifications.World.{
  pos, decrease, Notification, UnreadCount, World, not_found, a_notification,
}
use skill_stew_api.Notifications.Repo.{
  notification_key, count_of, with_count, mark_read_by_id, decrement_by_user_id, cache_decrement,
}
use skill_stew_api.Notifications.Service.{mark_read_work, mark_read}
use skill_stew_api.Notifications.Service.Counting.{
  is_unread, unread, IsCounted, count_of-with_count, cache_decrement-IsCounted,
}

module _ (w : World) (id : ℕ) (n : Notification) (h : IsCounted w)
    (found : lookup notification_key id w.notifications ≡ some n) (new : n.is_read ≡ false) where
  abbrev pub read : Notification
  read = record n { is_read = true }

  abbrev pub marked : World
  marked = record w { notifications = replace notification_key id read w.notifications }

  unread-marked : (user : ℕ) → unread user marked + to_bit (n.recipient_id == user) ≡ unread user w
  unread-marked user =
      ground
        (arith, count-replace notification_key (is_unread user) id read w.notifications n found)

  abbrev pub counts_after : List UnreadCount
  counts_after = with_count n.recipient_id (decrease (pos (unread n.recipient_id w)) 1) w.counts

  abbrev pub settled : World
  settled = record marked { counts = counts_after }

  settled-IsCounted : IsCounted settled
  settled-IsCounted = record {
    counted = λ user.
        rw
          (count_of-with_count user n.recipient_id (decrease (pos (unread n.recipient_id w)) 1)
            w.counts)
          (elim (Bool-cases (user == n.recipient_id)) [
            | inl here ↦ ground (arith, unread-marked user)
            | inr other ↦ ground (arith, h.counted user, unread-marked user)
          ]);
    fresh = λ k le. ground (
      arith,
      h.fresh k,
      lookup-key notification_key id w.notifications n,
      lookup-replace notification_key k id read w.notifications n,
    );
  }

  stored : count_of n.recipient_id w.counts ≡ some (pos (unread n.recipient_id w))
  stored = elim (Option-cases (count_of n.recipient_id w.counts)) [
    | inl gone ↦ absurd (ground (arith, h.counted n.recipient_id, unread-marked n.recipient_id))
    | inr (z, known) ↦ ground (arith, h.counted n.recipient_id)
  ]

  mark_work_settled :
      (recipient : ℕ)
      → n.recipient_id ≡ recipient
      → mark_read_work id recipient w ≡ (ok read, settled)
  unfolding mark_read_work mark_read_by_id decrement_by_user_id ◌>>=◌
  mark_work_settled recipient same = ground (arith, stored)

  mark_work_refused :
      (recipient : ℕ)
      → n.recipient_id ≢ recipient
      → mark_read_work id recipient w ≡ (err (not_found a_notification), w)
  unfolding mark_read_work mark_read_by_id ◌>>=◌
  mark_work_refused recipient other = ground arith

  -- An unread notification: the reader's own is marked, and another user's is refused.
  pub mark_read_own :
      (recipient : ℕ)
      → n.recipient_id ≡ recipient
      → mark_read id recipient w ≡ ((cache_decrement recipient 1 >> pure read) settled)
  unfolding mark_read transact ◌>>=◌
  mark_read_own recipient same = ground (arith, mark_work_settled recipient same)

  mark_read_refused :
      (recipient : ℕ)
      → n.recipient_id ≢ recipient
      → mark_read id recipient w ≡ (err (not_found a_notification), w)
  unfolding mark_read transact ◌>>=◌
  mark_read_refused recipient other = ground (arith, mark_work_refused recipient)

mark_read_idle :
    (id recipient : ℕ) (w : World)
    → (lookup notification_key id w.notifications ≡ none)
      ⊎ ((n : Notification) × (lookup notification_key id w.notifications ≡ some n)
          × (n.is_read ≡ true))
    → (mark_read id recipient w).1 ≡ w
unfolding mark_read ◌>>=◌
mark_read_idle id recipient w (inl gone) = ground arith
mark_read_idle id recipient w (inr (n, found, old)) = ground arith

-- Where the stored counts are right, marking a notification as read, however it ends, keeps each stored unread count equal to the
-- number of the user's unread notifications.
pub mark_read-IsCounted :
    (id recipient : ℕ) (w : World) → IsCounted w → IsCounted (mark_read id recipient w).1
mark_read-IsCounted id recipient w h =
    elim (Option-cases (lookup notification_key id w.notifications)) [
      | inl gone ↦ rw (mark_read_idle id recipient w (inl gone)) h
      | inr (n, found) ↦ elim (Bool-cases n.is_read) [
        | inl old ↦ rw (mark_read_idle id recipient w (inr (n, found, old))) h
        | inr new ↦ elim (Bool-cases (n.recipient_id == recipient)) [
          | inl same ↦ rw (mark_read_own w id n h found new recipient (ground arith)) (
              (Keeps-bind (cache_decrement recipient 1) _ (cache_decrement-IsCounted recipient 1)
                  (λ _. search keeps_rules)).kept
                _ (settled-IsCounted w id n h found new))
          | inr other ↦ rw (mark_read_refused w id n h found new recipient (ground arith)) h
        ]
      ]
    ]

-- A request to mark a notification of another user changes nothing. It is refused while that user
-- has not read the notification, and returns it once the user has.
pub mark_read_other :
    (id recipient : ℕ) (w : World) (n : Notification)
    → lookup notification_key id w.notifications ≡ some n
    → n.recipient_id ≢ recipient
    → mark_read id recipient w ≡ (if n.is_read then ok n else err (not_found a_notification), w)
unfolding mark_read mark_read_work mark_read_by_id transact ◌>>=◌
mark_read_other id recipient w n found other = elim (Bool-cases n.is_read) [
  | inl old ↦ ground arith
  | inr new ↦ ground arith
]
