-- ===== src/Skill/Enrollment/Ids.antt =====
-- The ids of memberships as unique keys, which the sweeps of an enrolment keep.
use skill_stew_api.Prelude.{
  ℕ, ◌≡◌, refl, sym, subst, Bool, ◌&&◌, none, some, List, [], ◌∷◌, arith, All, All-map, count, ◌==◌,
  to_bit, Option-cases, inl, inr, Bool-cases,
}
use skill_stew_api.Prelude.Table.{lookup, HasUniqueKeys, HasUniqueKeys-replace}
use skill_stew_api.Effect.Rules.{Keeps, Keeps-for_each, keeps_rules}
use skill_stew_api.Skill.Membership.{Membership}
use skill_stew_api.Skill.World.{World}
use skill_stew_api.Skill.Repos.{membership_key, save_membership}
use skill_stew_api.Skill.Enrollment.{expire, expire_stale_of_user, expire_stale_of_cohort}
use skill_stew_api.Skill.Enrollment.Expiring.{has_id}

module _ (t : Membership → Bool) where
  unmarked :
      (k : ℕ) (ms : List Membership)
      → lookup membership_key k ms ≡ none
      → count (λ m. t m && has_id k m) ms ≡ 0
  unmarked k [] gone = refl
  unmarked k (m ∷ ms) gone = ground (arith, unmarked k ms)

  -- Under unique keys, the tested documents of a key are the one that a lookup finds or none.
  pub counted :
      (k : ℕ) (ms : List Membership) (m : Membership)
      → HasUniqueKeys membership_key ms
      → lookup membership_key k ms ≡ some m
      → count (λ x. t x && has_id k x) ms ≡ to_bit (t m)
  counted k [] m u found = absurd (ground arith)
  counted k (x ∷ ms) m (gone, u) found = elim (Bool-cases (x.id == k)) [
    | inl here ↦ ground (arith, unmarked k ms)
    | inr other ↦ ground (arith, counted k ms m u)
  ]

found_below :
    (m x : Membership) (ms : List Membership)
    → lookup membership_key m.id ms ≡ none
    → lookup membership_key x.id ms ≡ some x
    → lookup membership_key x.id (m ∷ ms) ≡ some x
found_below m x ms gone found = elim (Bool-cases (m.id == x.id)) [
  | inl same ↦
      let same_id : m.id ≡ x.id = ground arith in
      let here : lookup membership_key m.id ms ≡ some x =
        subst (λ k. lookup membership_key k ms ≡ some x) (sym same_id) found in
      absurd (cc)
  | inr other ↦ ground arith
]

pub own_lookups :
    (ms : List Membership)
    → HasUniqueKeys membership_key ms
    → All (λ m. lookup membership_key m.id ms ≡ some m) ms
own_lookups [] u = tt
own_lookups (m ∷ ms) (gone, u) =
    (ground arith, All-map (λ x found. found_below m x ms gone found) ms (own_lookups ms u))

-- The ids are unique keys of the memberships.
abbrev pub HasUniqueIds : World → Type 0
HasUniqueIds w = HasUniqueKeys membership_key w.memberships

save-HasUniqueIds : (m : Membership) → Keeps HasUniqueIds (save_membership m)
unfolding save_membership
save-HasUniqueIds m = record {
  kept = λ v h. elim (Option-cases (lookup membership_key m.id v.memberships)) [
    | inl gone ↦ rw (gone, save_membership) h
    | inr (old, found) ↦
        rw (found, save_membership)
          (HasUniqueKeys-replace membership_key m.id
            (record m { created_at = old.created_at; updated_at = some v.now }) v.memberships refl
            h)
  ];
}

expire-HasUniqueIds : (m : Membership) → Keeps HasUniqueIds (expire m)
unfolding expire
expire-HasUniqueIds m = search (keeps_rules, save-HasUniqueIds)

pub user_sweep-HasUniqueIds : (user : ℕ) → Keeps HasUniqueIds (expire_stale_of_user user)
unfolding expire_stale_of_user
user_sweep-HasUniqueIds user = record {
  kept = λ v h. (Keeps-for_each expire _ expire-HasUniqueIds).kept v h;
}

pub cohort_sweep-HasUniqueIds : (id : ℕ) → Keeps HasUniqueIds (expire_stale_of_cohort id)
unfolding expire_stale_of_cohort
cohort_sweep-HasUniqueIds id = record {
  kept = λ v h. (Keeps-for_each expire _ expire-HasUniqueIds).kept v h;
}
