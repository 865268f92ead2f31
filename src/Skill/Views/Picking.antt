-- ===== src/Skill/Views/Picking.antt =====
-- `pickBestMembership` against what it is to be the best of a list.
use mathlib.Core.List.{Mem, mem-cons_self, mem-cons_of_mem}
use skill_stew_api.Prelude.{
  ◌<◌, ◌≤◌, ◌≡◌, refl, sym, subst, if_rule, ◌⊎◌, Option, none, some, List, [], ◌∷◌, arith, All,
  All-map, false, true,
}
use skill_stew_api.Prelude.Sorting.{
  sort, insert, HasLeastHead, All-sort, All-sort_back, sort-HasLeastHead,
}
use skill_stew_api.Skill.Membership.{Membership}
use skill_stew_api.Skill.Views.{priority, created_time, outranks, pick_best_membership, head}

-- `a` does not stand above `b`: its status weighs less, or as much and it was made no later.
abbrev pub IsBelow : Membership → Membership → Type 0
IsBelow b a =
    (priority a.status < priority b.status)
    ⊎ ((priority a.status ≡ priority b.status) × (created_time a ≤ created_time b))

outranks-IsBelow : (b a : Membership) → outranks a b ≡ false → IsBelow b a
outranks-IsBelow b a h = ground (arith, h)

outranks_trans :
    (a b c : Membership) → outranks b a ≡ false → outranks c b ≡ false → outranks c a ≡ false
outranks_trans a b c h k = ground (arith, h, k)

outranks_asym : (a b : Membership) → outranks a b ≡ true → outranks b a ≡ false
outranks_asym a b h = ground (arith, h)

-- What the choice among `ms` is to be.
abbrev pub IsBest : List Membership → Option Membership → Type 0
IsBest ms none = ms ≡ []
IsBest ms (some b) = Mem b ms × All (IsBelow b) ms

All-Mem : (ms : List Membership) → All (λ m. Mem m ms) ms
All-Mem [] = tt
All-Mem (m ∷ ms) = (mem-cons_self, All-map (λ x. mem-cons_of_mem m) ms (All-Mem ms))

insert-cons :
    (m : Membership) (ns : List Membership)
    → (b : Membership) × (rest : List Membership) × (insert outranks m ns ≡ b ∷ rest)
unfolding insert
insert-cons m [] = (m, [], refl)
insert-cons m (n ∷ ns) =
    if_rule (λ l. (b : Membership) × (rest : List Membership) × (l ≡ b ∷ rest)) (outranks n m) _ _
      (λ _. (n, insert outranks m ns, refl)) (λ _. (m, n ∷ ns, refl))

-- A sorted list with a first entry starts with a best one.
IsBest-cons :
    (ms : List Membership) (b : Membership) (rest : List Membership)
    → sort outranks ms ≡ b ∷ rest
    → IsBest ms (some b)
IsBest-cons ms b rest e =
    let in_ms = subst (All (λ m. Mem m ms)) e (All-sort _ outranks ms (All-Mem ms)) in
    let least =
      subst (HasLeastHead outranks outranks_trans outranks_asym) e
        (sort-HasLeastHead outranks outranks_trans outranks_asym ms) in
    let all = subst (All (λ m. outranks m b ≡ false)) (sym e) least in
    (in_ms.0, All-map (outranks-IsBelow b) ms (All-sort_back _ outranks ms all))

-- The choice among memberships is one of them, which none of them stands above by the weight of its
-- status and then the time of its creation; there is none only where there are no memberships.
pub pick_best_membership-IsBest : (ms : List Membership) → IsBest ms (pick_best_membership ms)
unfolding pick_best_membership sort
pick_best_membership-IsBest [] = refl
pick_best_membership-IsBest (m ∷ ms) =
    let (b, rest, e) = insert-cons m (sort outranks ms) in
    subst (λ l. IsBest (m ∷ ms) (head l)) (sym e) (IsBest-cons (m ∷ ms) b rest e)
