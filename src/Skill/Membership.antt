-- ===== src/Skill/Membership.antt =====
-- skill/src/domain/entities/CohortMembership.ts and CohortMembershipStatus.enum.ts.
-- Ids are only compared, so they are numbers; a `Date` is its number of milliseconds.
use skill_stew_api.Prelude.{ℕ, Bool, false, ◌||◌, Option, none, some, List, [], ◌∷◌, ◌==◌}

pub data MembershipStatus : Type 0 where
  pending_payment active payment_failed expired dropped refunded awaiting_reconciliation :
      MembershipStatus

abbrev pub status_index : MembershipStatus → ℕ
status_index pending_payment = 0
status_index active = 1
status_index payment_failed = 2
status_index expired = 3
status_index dropped = 4
status_index refunded = 5
status_index awaiting_reconciliation = 6

-- `a === b` on statuses
abbrev pub status_eq : MembershipStatus → MembershipStatus → Bool
status_eq a b = status_index a == status_index b

-- `statuses.includes(s)` and `{ status: { $in: statuses } }`
abbrev pub has_status : List MembershipStatus → MembershipStatus → Bool
has_status [] s = false
has_status (t ∷ ts) s = status_eq t s || has_status ts s

pub record Membership : Type 0 where
  pub id : ℕ
  pub cohort_id : ℕ
  pub user_id : ℕ
  pub payment_id : Option ℕ
  pub status : MembershipStatus
  pub joined_at : Option ℕ
  pub expires_at : Option ℕ
  pub last_payment_event_at : Option ℕ
  pub created_at : Option ℕ
  pub updated_at : Option ℕ

-- The argument of `update`: `none` is a key left out, `some none` is the key at `null`.
pub record MembershipChanges : Type 0 where
  pub payment_id : Option (Option ℕ)
  pub status : Option MembershipStatus
  pub joined_at : Option (Option ℕ)
  pub expires_at : Option (Option ℕ)
  pub last_payment_event_at : Option (Option ℕ)

abbrev pub no_changes : MembershipChanges
no_changes = record {
  payment_id = none;
  status = none;
  joined_at = none;
  expires_at = none;
  last_payment_event_at = none;
}

-- `a === undefined ? b : a`, and `a ?? b` where `a` is never null
abbrev pub given_or {ℓ} : {A : Type ℓ} → Option A → A → A
given_or none b = b
given_or (some a) b = a

-- `CohortMembership.update`
unfoldable pub update_membership : Membership → MembershipChanges → Membership
update_membership m c = record m {
  payment_id = given_or c.payment_id m.payment_id;
  status = given_or c.status m.status;
  joined_at = given_or c.joined_at m.joined_at;
  expires_at = given_or c.expires_at m.expires_at;
  last_payment_event_at = given_or c.last_payment_event_at m.last_payment_event_at;
}

-- `new CohortMembership({ cohortId, userId, status, joinedAt, expiresAt })` under a fresh id
unfoldable pub new_membership : ℕ → ℕ → ℕ → MembershipStatus → Option ℕ → Option ℕ → Membership
new_membership id cohort_id user_id status joined_at expires_at = record {
  id = id;
  cohort_id = cohort_id;
  user_id = user_id;
  payment_id = none;
  status = status;
  joined_at = joined_at;
  expires_at = expires_at;
  last_payment_event_at = none;
  created_at = none;
  updated_at = none;
}
