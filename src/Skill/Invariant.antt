-- ===== src/Skill/Invariant.antt =====
-- The invariant of the cohort service's collections, and what one save or creation does to it.
use skill_stew_api.Prelude.{
  ℕ, false, ◌+◌, ◌≤◌, ◌≡◌, ◌≢◌, ◌∙◌, some, none, List, ◌++◌, ◌∷◌, [], arith, ◌==◌, to_bit,
  count-append, inl, inr, Option-cases,
}
use skill_stew_api.Prelude.Table.{lookup, count-replace, lookup-replace}
use skill_stew_api.Skill.Membership.{Membership, pending_payment}
use skill_stew_api.Skill.World.{World, rollback}
use skill_stew_api.Skill.Repos.{membership_key, cohort_key, save_membership}
use skill_stew_api.Skill.Cohort.{Cohort}
use skill_stew_api.Skill.Frame.{Frame, Frame-refl, save_membership-Frame}
use skill_stew_api.Skill.Seats.Counting.{is_holding, held}

-- No membership carries an id that is still to be given out.
abbrev pub HasFreshIds : World → Type 0
HasFreshIds w = (k : ℕ) → w.next_id ≤ k → lookup membership_key k w.memberships ≡ none

-- No cohort holds more seats than it has.
abbrev pub HasRoom : World → Type 0
HasRoom w =
    (id : ℕ) (c : Cohort)
    → lookup cohort_key id w.cohorts ≡ some c
    → held w.now id w.memberships ≤ c.max_students

-- A reservation says when it lapses.
abbrev pub IsDated : Membership → Type 0
IsDated m = m.status ≡ pending_payment → m.expires_at ≢ none

abbrev pub HasDatedReservations : World → Type 0
HasDatedReservations w =
    (k : ℕ) (m : Membership) → lookup membership_key k w.memberships ≡ some m → IsDated m

pub record IsValid (w : World) : Type 0 where
  pub fresh : HasFreshIds w
  pub dated : HasDatedReservations w
  pub room : HasRoom w

pub save_fresh : (m : Membership) (w : World) → HasFreshIds w → HasFreshIds (save_membership m w).1
unfolding save_membership
save_fresh m w h k le = elim (Option-cases (lookup membership_key m.id w.memberships)) [
  | inl gone ↦ ground (arith, h k)
  | inr (old, found) ↦ ground (
    arith,
    h k,
    lookup-replace membership_key k m.id
        (record m { created_at = old.created_at; updated_at = some w.now }) w.memberships old,
    h m.id,
  )
]

-- A save exchanges what the old version held for what the new one holds.
pub held-save :
    (now id : ℕ) (m old : Membership) (w : World)
    → lookup membership_key m.id w.memberships ≡ some old
    → held now id (save_membership m w).1.memberships + to_bit (is_holding now id old)
      ≡ held now id w.memberships + to_bit (is_holding now id m)
unfolding save_membership held
held-save now id m old w found =
    rw (found, save_membership)
      (count-replace membership_key (is_holding now id) m.id
        (record m { created_at = old.created_at; updated_at = some w.now }) w.memberships old found)

pub save_dated :
    (m : Membership) (w : World)
    → IsDated m
    → HasDatedReservations w
    → HasDatedReservations (save_membership m w).1
unfolding save_membership
save_dated m w new h k n = elim (Option-cases (lookup membership_key m.id w.memberships)) [
  | inl gone ↦ rw (gone, save_membership) (h k n)
  | inr (old, found) ↦
      rw (found, save_membership)
        (λ e pending. ground (
          arith,
          h k n,
          lookup-replace membership_key k m.id
              (record m { created_at = old.created_at; updated_at = some w.now }) w.memberships old,
        ))
]

-- Saving a membership that holds no seat leaves no more seats held.
pub held-save_le :
    (now id : ℕ) (m : Membership) (w : World)
    → is_holding now id m ≡ false
    → held now id (save_membership m w).1.memberships ≤ held now id w.memberships
unfolding save_membership
held-save_le now id m w h = elim (Option-cases (lookup membership_key m.id w.memberships)) [
  | inl gone ↦ rw (gone, save_membership) (omega arith)
  | inr (old, found) ↦ ground (arith, held-save now id m old w found)
]

pub held-append :
    (now id : ℕ) (ms : List Membership) (m : Membership)
    → held now id (ms ++ m ∷ []) ≡ held now id ms + to_bit (is_holding now id m)
unfolding held
held-append now id ms m = count-append (is_holding now id) ms (m ∷ []) ∙ omega arith

pub holding_le :
    (now id : ℕ) (m : Membership) → to_bit (is_holding now id m) ≤ to_bit (m.cohort_id == id)
holding_le now id m = ground arith

-- An aborted transaction leaves the invariant as it was.
pub rollback-IsValid : (w v : World) → Frame w v → IsValid w → IsValid (rollback w v)
rollback-IsValid w v f h = record {
  fresh = λ k le. h.fresh k (omega arith);
  dated = h.dated;
  room = λ id c found. rw f.now (h.room id c found);
}

-- So does a save that holds no seat which the old version did not hold.
pub save_IsValid :
    (m old : Membership) (w : World)
    → IsValid w
    → lookup membership_key m.id w.memberships ≡ some old
    → IsDated m
    → ((id : ℕ) → to_bit (is_holding w.now id m) ≤ to_bit (is_holding w.now id old))
    → IsValid (save_membership m w).1
save_IsValid m old w h found dated less =
    let f = (save_membership-Frame m).kept w (Frame-refl w) in
    record {
      fresh = save_fresh m w h.fresh;
      dated = save_dated m w dated h.dated;
      room = λ id c known. rw f.now (
          omega (
            arith,
            held-save w.now id m old w found,
            less id,
            h.room id c (rw f.cohorts at known),
          ));
    }
