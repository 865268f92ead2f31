-- ===== src/Notifications/Repo/Paging.antt =====
-- The pages of `getNotificationsForUser` as parts of the listing that they are cut from.
use skill_stew_api.Prelude.{
  ℕ, zero, suc, ◌<◌, ◌≤◌, ◌≡◌, ◌∙◌, refl, some, none, List, [], ◌∷◌, arith, ltb, length, All,
  All-filter_of, All-take, take, Option, inl, inr, Bool-cases, sym, ap,
}
use skill_stew_api.Prelude.Sorting.{All-sort}
use skill_stew_api.Notifications.World.{Notification, World}
use skill_stew_api.Notifications.Repo.{
  newest_first, is_listed, listing, drop_last, last, page_of, get_notifications_for_user,
}

-- The entry at a position, counted from zero.
abbrev pub get_elem? {ℓ} : {A : Type ℓ} → List A → ℕ → Option A
get_elem? [] i = none
get_elem? (x ∷ xs) zero = some x
get_elem? (x ∷ xs) (suc i) = get_elem? xs i

module _ {ℓ} {A : Type ℓ} where
  length-take : (k : ℕ) (xs : List A) → length (take k xs) ≤ k
  length-take zero xs = omega arith
  length-take (suc k) [] = omega arith
  length-take (suc k) (x ∷ xs) = omega (arith, length-take k xs)

  drop_last-take :
      (k : ℕ) (xs : List A) → k < length (take (suc k) xs) → drop_last (take (suc k) xs) ≡ take k xs
  drop_last-take zero [] h = absurd (omega (arith, h))
  drop_last-take zero (x ∷ xs) h = refl
  drop_last-take (suc k) [] h = absurd (omega (arith, h))
  drop_last-take (suc k) (x ∷ []) h = absurd (omega (arith, h))
  drop_last-take (suc k) (x ∷ y ∷ ys) h =
      ap (λ zs. x ∷ zs) (drop_last-take k (y ∷ ys) (omega (arith, h)))

  last-take :
      (k : ℕ) (xs : List A) → k < length (take (suc k) xs) → last (take (suc k) xs) ≡ get_elem? xs k
  last-take zero [] h = absurd (omega (arith, h))
  last-take zero (x ∷ xs) h = refl
  last-take (suc k) [] h = absurd (omega (arith, h))
  last-take (suc k) (x ∷ []) h = absurd (omega (arith, h))
  last-take (suc k) (x ∷ y ∷ ys) h = last-take k (y ∷ ys) (omega (arith, h))

  take_all : (k : ℕ) (xs : List A) → length (take (suc k) xs) ≤ k → take (suc k) xs ≡ take k xs
  take_all zero [] h = refl
  take_all zero (x ∷ xs) h = absurd (omega (arith, h))
  take_all (suc k) [] h = refl
  take_all (suc k) (x ∷ xs) h = ap (λ zs. x ∷ zs) (take_all k xs (omega (arith, h)))

  get_elem?-past : (k : ℕ) (xs : List A) → length (take (suc k) xs) ≤ k → get_elem? xs k ≡ none
  get_elem?-past zero [] h = refl
  get_elem?-past zero (x ∷ xs) h = absurd (omega (arith, h))
  get_elem?-past (suc k) [] h = refl
  get_elem?-past (suc k) (x ∷ xs) h = get_elem?-past k xs (omega (arith, h))

abbrev pub id_of : Option Notification → Option ℕ
id_of none = none
id_of (some n) = some n.id

id_of_elim : (o : Option Notification) → (elim o [ none ↦ none | some n ↦ some n.id ]) ≡ id_of o
id_of_elim none = refl
id_of_elim (some n) = refl

page_of-take :
    (limit : ℕ) (ns : List Notification)
    → ((page_of limit (take (suc limit) ns)).notifications ≡ take limit ns)
      × ((page_of limit (take (suc limit) ns)).next_cursor ≡ id_of (get_elem? ns limit))
page_of-take limit ns = elim (Bool-cases (ltb limit (length (take (suc limit) ns)))) [
  | inl more ↦ (
    rw more (drop_last-take limit ns (ground arith)),
    rw (more, last-take limit ns (ground arith)) (id_of_elim (get_elem? ns limit)),
  )
  | inr done ↦ (
    rw done (take_all limit ns (ground arith)),
    rw done (sym (ap id_of (get_elem?-past limit ns (ground arith)))),
  )
]

listed_below :
    (user c : ℕ) (w : World) → All (λ (n : Notification). n.id < c) (listing user (some c) w)
unfolding listing
listed_below user c w =
    All-sort _ newest_first _
      (All-filter_of _ (is_listed user (some c)) w.notifications (λ n h. ground arith))

module _ (user : ℕ) (cursor : Option ℕ) (limit : ℕ) (w : World) where
  -- A page holds the first `limit` entries of the listing that its cursor asks for, and the next
  -- cursor is the id of the entry after them.
  pub get_notifications_for_user-take :
      ((get_notifications_for_user user cursor limit w).notifications
        ≡ take limit (listing user cursor w))
      × ((get_notifications_for_user user cursor limit w).next_cursor
          ≡ id_of (get_elem? (listing user cursor w) limit))
  unfolding get_notifications_for_user
  get_notifications_for_user-take = page_of-take limit (listing user cursor w)

module _ (user : ℕ) (cursor : Option ℕ) (limit next : ℕ) (w : World) where
  -- Where a page names a next cursor, the page stops before the entry of that id, and the page that
  -- the cursor asks for, whatever its limit, starts after it: no page shows that entry.
  pub get_notifications_for_user_skips :
      (c : ℕ)
      → (get_notifications_for_user user cursor limit w).next_cursor ≡ some c
      → ((get_notifications_for_user user cursor limit w).notifications
          ≡ take limit (listing user cursor w))
        × (id_of (get_elem? (listing user cursor w) limit) ≡ some c)
        × All
            (λ (n : Notification). n.id < c)
            (get_notifications_for_user user (some c) next w).notifications
  get_notifications_for_user_skips c h =
      let (page, cursor_is) = get_notifications_for_user-take user cursor limit w in
      let (after, _) = get_notifications_for_user-take user (some c) next w in
      (page, sym cursor_is ∙ h, rw after (All-take _ next _ (listed_below user c w)))
