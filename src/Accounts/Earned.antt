-- ===== src/Accounts/Earned.antt =====
-- What makes an expert: an application of theirs that was approved, and a profile. The rules by
-- which the accesses to the tables keep that.
pub mod Review
pub mod Approval
pub mod History
use skill_stew_api.Prelude.{
  ◌≡◌, refl, sym, ap, subst, ℕ, suc, ◌+◌, ◌≤◌, Bool, true, false, not, ◌&&◌, ◌||◌, Option, none,
  some, List, [], ◌∷◌, ◌++◌, arith, All, All-map, All-append, count, count-append, String, ◌==◌,
  if◌then◌else◌, to_bit, if_rule, Option-cases, inl, inr,
}
use skill_stew_api.Prelude.Table.{lookup, replace, All-lookup, All-replace, lookup-key}
use skill_stew_api.Effect.{Result, ok, err}
use skill_stew_api.Effect.Ending.{Ends, kept_by, Ends-if, Ends-found}
use skill_stew_api.Effect.Rules.{Keeps, Keeps-transact, Keeps-bind, keeps_rules, Reaches}
use skill_stew_api.Tokens.{UserRole, expert}
use skill_stew_api.Accounts.World.{
  User, UserProfile, AdminProfile, ExpertApplicationStatus, approved, ExpertApplication,
  ExpertProfile, AccountEvent, World, Error, not_found, unique_violation, Action, fresh_id,
  rollback, in_transaction,
}
use skill_stew_api.Accounts.Repo.{
  is_some, is_duplicate, is_taken_name, has_applied, user_key, insert_user, stored_user,
  UserChanges, changed_user, update_user, insert_profile, insert_admin_profile, insert_application,
  announce_event,
}
use skill_stew_api.Accounts.Access.{or_exists}
use skill_stew_api.Skill.Membership.{given_or}

abbrev pub is_expert : UserRole → Bool
is_expert expert = true
is_expert _ = false

abbrev pub is_approved : ExpertApplicationStatus → Bool
is_approved approved = true
is_approved _ = false

abbrev pub is_approval_of : ℕ → ExpertApplication → Bool
is_approval_of id a = is_approved a.status && a.expert_id == id

abbrev pub is_profile_of : ℕ → ExpertProfile → Bool
is_profile_of id p = p.expert_id == id

-- An expert has an approved application and a profile.
abbrev pub Earned : List ExpertApplication → List ExpertProfile → User → Type 0
Earned applications profiles u =
    is_expert u.role ≡ true
    → (1 ≤ count (is_approval_of u.id) applications) × (1 ≤ count (is_profile_of u.id) profiles)

-- So has every expert.
pub record IsEarned (w : World) : Type 0 where
  pub earned : All (Earned w.applications w.expert_profiles) w.users

pub insert_user-Keeps : (u : User) → is_expert u.role ≡ false → Keeps IsEarned (insert_user u)
unfolding insert_user
insert_user-Keeps u plain = kept_by λ w h.
    Ends-if (is_duplicate u w.users) _ _ (record { ends = h })
      (record {
        ends = record {
          earned =
              All-append (Earned w.applications w.expert_profiles) w.users
                (stored_user w.now u ∷ []) h.earned ((λ e. absurd (ground arith)), tt);
        };
      })

changed_user-Earned :
    (old : List ExpertApplication) (ps : List ExpertProfile) (now : ℕ) (d : UserChanges) (u : User)
    → d.role ≡ none
    → Earned old ps u
    → Earned old ps (changed_user now d u)
changed_user-Earned old ps now d u same h e = h (rw same at e)

-- A change that leaves the role alone
pub update_user-Keeps :
    (id : ℕ) (d : UserChanges) → d.role ≡ none → Keeps IsEarned (update_user id d)
unfolding update_user
update_user-Keeps id d same = kept_by λ w h.
    Ends-found (lookup user_key id w.users) _ _ (record { ends = h })
      λ old found.
        let change = changed_user-Earned w.applications w.expert_profiles w.now d old same (
          All-lookup user_key (Earned w.applications w.expert_profiles) id w.users old h.earned
            found) in
        Ends-if (is_taken_name id d.username w.users) _ _ (record { ends = h })
          (record {
            ends = record {
              earned =
                  All-replace user_key (Earned w.applications w.expert_profiles) id
                    (changed_user w.now d old) w.users change h.earned;
            };
          })

-- More applications and more profiles take nothing away.
pub Earned-more :
    (old new : List ExpertApplication) (ps qs : List ExpertProfile) (us : List User)
    → ((id : ℕ) → count (is_approval_of id) old ≤ count (is_approval_of id) new)
    → ((id : ℕ) → count (is_profile_of id) ps ≤ count (is_profile_of id) qs)
    → All (Earned old ps) us
    → All (Earned new qs) us
Earned-more old new ps qs us more further =
    All-map (λ u h e. let (a, p) = h e in (omega (arith, more u.id), omega (arith, further u.id)))
      us

pub insert_profile-Keeps : (p : UserProfile) → Keeps IsEarned (insert_profile p)
unfolding insert_profile
insert_profile-Keeps p = record { kept = λ w h. record { earned = h.earned } }

pub insert_admin_profile-Keeps : (p : AdminProfile) → Keeps IsEarned (insert_admin_profile p)
unfolding insert_admin_profile
insert_admin_profile-Keeps p = record { kept = λ w h. record { earned = h.earned } }

pub insert_application-Keeps : (a : ExpertApplication) → Keeps IsEarned (insert_application a)
unfolding insert_application
insert_application-Keeps a = kept_by λ w h.
    Ends-if (has_applied a.expert_id w.applications) _ _ (record { ends = h })
      (Ends-if (is_some (lookup user_key a.expert_id w.users)) _ _
        (record {
          ends = record {
            earned =
                Earned-more w.applications (w.applications ++ a ∷ []) w.expert_profiles
                  w.expert_profiles w.users
                  (λ id. omega (arith, count-append (is_approval_of id) w.applications (a ∷ [])))
                  (λ id. omega arith) h.earned;
          };
        })
        (record { ends = h }))

pub fresh_id-Keeps : Keeps IsEarned fresh_id
fresh_id-Keeps = record { kept = λ w h. record { earned = h.earned } }

pub announce_event-Keeps : (e : AccountEvent) → Keeps IsEarned (announce_event e)
unfolding announce_event
announce_event-Keeps e =
    Keeps-bind fresh_id _ fresh_id-Keeps
      (λ id. record { kept = λ w h. record { earned = h.earned } })

-- What a transaction takes back is the tables, and these are all that counts.
pub in_transaction-Keeps :
    {A : Type 0} (m : Action A) → Keeps IsEarned m → Keeps IsEarned (in_transaction m)
in_transaction-Keeps m h =
    Keeps-transact rollback m h (λ u v start _. record { earned = start.earned })

or_exists-state :
    {A : Type 0} (p : Result Error A × World) → IsEarned p.1 → IsEarned (or_exists p).1
or_exists-state (ok a, w) h = h
or_exists-state {A} (err e, w) h = elim e as (λ k. IsEarned (or_exists {A = A} (err k, w)).1) [
  | unique_violation ↦ h
  | _ ↦ h
]

pub or_exists-Keeps :
    {A : Type 0} (m : Action A) → Keeps IsEarned m → Keeps IsEarned (λ w. or_exists (m w))
or_exists-Keeps m h = record { kept = λ w start. or_exists-state (m w) (h.kept w start) }

pub ruleset earned_rules = (
  keeps_rules, insert_profile-Keeps, insert_admin_profile-Keeps, insert_application-Keeps,
  fresh_id-Keeps, announce_event-Keeps, in_transaction-Keeps,
)
