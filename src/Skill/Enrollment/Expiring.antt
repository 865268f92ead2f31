-- ===== src/Skill/Enrollment/Expiring.antt =====
-- A list of memberships that expire one after the other, as in the two sweeps of `enrollInCohort`.
use skill_stew_api.Prelude.{
  ℕ, ◌≡◌, ◌∙◌, refl, sym, ap, subst, Bool, false, ◌||◌, Option, none, some, List, [], ◌∷◌, arith,
  All, count, ltb, ◌==◌, if◌then◌else◌,
}
use skill_stew_api.Prelude.Table.{lookup, replace, lookup-key, lookup-replace}
use skill_stew_api.Effect.{ok, for_each, ◌>>=◌}
use skill_stew_api.Effect.Inversion.{>>=-of-ok}
use skill_stew_api.Skill.Membership.{Membership, expired, update_membership}
use skill_stew_api.Skill.World.{World}
use skill_stew_api.Skill.Repos.{membership_key, save_membership}
use skill_stew_api.Skill.Enrollment.{expire}

-- A membership that has expired
abbrev pub lapse : ℕ → Membership → Membership
lapse now m = record m { status = expired; updated_at = some now }

-- What becomes of the document that a lookup finds, if any.
abbrev pub changed_row : (Membership → Membership) → Option Membership → Option Membership
changed_row f none = none
changed_row f (some m) = some (f m)

abbrev pub marked : ℕ → (ℕ → Bool) → Membership → Membership
marked now d m = if d m.id then lapse now m else m

abbrev pub has_id : ℕ → Membership → Bool
has_id k m = m.id == k

-- The membership under each id in `w` has expired in `u` where `d` says so, and is as it was
-- elsewhere.
pub record Marks (w : World) (d : ℕ → Bool) (u : World) : Type 0 where
  pub now : u.now ≡ w.now
  pub rows :
      (k : ℕ)
      → lookup membership_key k u.memberships
        ≡ changed_row (marked w.now d) (lookup membership_key k w.memberships)

-- One expiry
saving : Membership → World → World
saving m u = record u { memberships = replace membership_key m.id (lapse u.now m) u.memberships }

expire_lem :
    (m old : Membership) (u : World)
    → lookup membership_key m.id u.memberships ≡ some old
    → old.created_at ≡ m.created_at
    → expire m u ≡ (ok tt, saving m u)
unfolding expire save_membership update_membership saving ◌>>=◌
expire_lem m old u found same = ground arith

marked_created :
    (now : ℕ) (d : ℕ → Bool) (m : Membership) → (marked now d m).created_at ≡ m.created_at
marked_created now d m = ground arith

pub marked_ext :
    (now : ℕ) (d e : ℕ → Bool) (o : Option Membership)
    → ((j : ℕ) → d j ≡ e j)
    → changed_row (marked now d) o ≡ changed_row (marked now e) o
marked_ext now d e none same = refl
marked_ext now d e (some m) same = ground (arith, same m.id)

pub unchanged : (now : ℕ) (o : Option Membership) → o ≡ changed_row (marked now (λ _. false)) o
unchanged now none = refl
unchanged now (some m) = refl

module _ (w : World) where
  Marks-ext : (d e : ℕ → Bool) (u : World) → ((j : ℕ) → d j ≡ e j) → Marks w d u → Marks w e u
  Marks-ext d e u same h = record {
    now = h.now;
    rows = λ k. h.rows k ∙ marked_ext w.now d e _ same;
  }

  marked_row :
      (d : ℕ → Bool) (m : Membership) (o : Option Membership) (k : ℕ)
      → lookup membership_key m.id w.memberships ≡ some m
      → lookup membership_key k w.memberships ≡ o
      → (if k == m.id then some (lapse w.now m) else changed_row (marked w.now d) o)
        ≡ changed_row (marked w.now (λ j. d j || m.id == j)) o
  marked_row d m none k mine here = ground arith
  marked_row d m (some x) k mine here =
      ground (arith, lookup-key membership_key k w.memberships x here)

  Marks-saving :
      (d : ℕ → Bool) (m : Membership) (u : World)
      → lookup membership_key m.id w.memberships ≡ some m
      → Marks w d u
      → Marks w (λ j. d j || m.id == j) (saving m u)
  unfolding saving
  Marks-saving d m u mine h = record {
    now = h.now;
    rows = λ k.
        lookup-replace membership_key k m.id (lapse u.now m) u.memberships (marked w.now d m) refl
          (h.rows m.id ∙ ap (changed_row (marked w.now d)) mine)
        ∙ ap (λ o. if k == m.id then some (lapse u.now m) else o) (h.rows k)
        ∙ ap
            (λ now.
              if k == m.id
              then some (lapse now m)
              else changed_row (marked w.now d) (lookup membership_key k w.memberships))
            h.now
        ∙ marked_row d m _ k mine refl;
  }

  pub Marks-for_each :
      (d : ℕ → Bool) (ms : List Membership) (u v : World)
      → All (λ m. lookup membership_key m.id w.memberships ≡ some m) ms
      → Marks w d u
      → for_each expire ms u ≡ (ok tt, v)
      → Marks w (λ j. d j || ltb 0 (count (has_id j) ms)) v
  Marks-for_each d [] u v mine h run =
      Marks-ext d _ v (λ j. ground arith) (subst (Marks w d) (ap (λ p. p.1) run) h)
  Marks-for_each d (m ∷ ms) u v (own, mine) h run =
      Marks-ext (λ j. (d j || m.id == j) || ltb 0 (count (has_id j) ms)) _ v (λ j. ground arith)
        (Marks-for_each (λ j. d j || m.id == j) ms (saving m u) v mine (Marks-saving d m u own h)
          (sym (
              >>=-of-ok (expire m) (λ _. for_each expire ms) u (saving m u) tt
                (expire_lem m (marked w.now d m) u
                  (h.rows m.id ∙ ap (changed_row (marked w.now d)) own) (marked_created w.now d m)))
            ∙ run))
