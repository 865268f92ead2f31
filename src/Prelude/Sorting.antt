-- ===== src/Prelude/Sorting.antt =====
-- A stable sort by a comparison: `Array.prototype.sort` and the `sort` of a query.
use Prim.Native.Nat.{◌+◌}
use mathlib.Core.Path.{◌≡◌, refl}
use mathlib.Core.Bool.{Bool, true, false}
use mathlib.Core.Logic.{inl, inr}
use mathlib.Core.List.{List, [], ◌∷◌}
use native.Mathlib.Omega.{arith}
use skill_stew_api.Prelude.Tests.{if◌then◌else◌, to_bit, if_rule, Bool-cases}
use skill_stew_api.Prelude.Lists.{count, All, All-map}

module _ {ℓ} {A : Type ℓ} (before : A → A → Bool) where
  -- `x` goes in front of the first entry that has to stand behind it.
  unfoldable pub insert : A → List A → List A
  insert x [] = x ∷ []
  insert x (y ∷ ys) = let rest = insert x ys in if before y x then y ∷ rest else x ∷ y ∷ ys

  -- `before y x` says that `y` sorts strictly ahead of `x`, so equal entries keep their order.
  unfoldable pub sort : List A → List A
  unfolding insert
  sort [] = []
  sort (x ∷ xs) = insert x (sort xs)

  count-insert :
      (p : A → Bool) (x : A) (ys : List A) → count p (insert x ys) ≡ to_bit (p x) + count p ys
  unfolding insert
  count-insert p x [] = refl
  count-insert p x (y ∷ ys) = ground (arith, count-insert p x ys)

  -- Sorting keeps every count.
  pub count-sort : (p : A → Bool) (xs : List A) → count p (sort xs) ≡ count p xs
  unfolding sort
  count-sort p [] = refl
  count-sort p (x ∷ xs) = omega (arith, count-insert p x (sort xs), count-sort p xs)

module _ {A : Type 0} (P : A → Type 0) where
  All-insert :
      (before : A → A → Bool) (x : A) (ys : List A) → P x → All P ys → All P (insert before x ys)
  unfolding insert
  All-insert before x [] p h = (p, tt)
  All-insert before x (y ∷ ys) p (q, h) =
      if_rule (All P) (before y x) _ _ (λ _. (q, All-insert before x ys p h)) (λ _. (p, (q, h)))

  pub All-sort : (before : A → A → Bool) (xs : List A) → All P xs → All P (sort before xs)
  unfolding sort
  All-sort before [] h = tt
  All-sort before (x ∷ xs) (p, h) = All-insert before x (sort before xs) p (All-sort before xs h)

module _ {A : Type 0} (P : A → Type 0) (before : A → A → Bool) where
  All-insert_back : (x : A) (ys : List A) → All P (insert before x ys) → P x × All P ys
  unfolding insert
  All-insert_back x [] h = h
  All-insert_back x (y ∷ ys) h = elim (Bool-cases (before y x)) [
    | inl e ↦ let (q, rest) = rw e at h in let (p, all) = All-insert_back x ys rest in (p, (q, all))
    | inr e ↦ rw e at h
  ]

  -- What holds throughout the sorted list holds throughout the list.
  pub All-sort_back : (xs : List A) → All P (sort before xs) → All P xs
  unfolding sort
  All-sort_back [] h = tt
  All-sort_back (x ∷ xs) h =
      let (p, all) = All-insert_back x (sort before xs) h in (p, All-sort_back xs all)

-- The first of a sorted list comes after none of its entries, for a comparison by a linear order.
module _ {A : Type 0} (before : A → A → Bool)
    (trans : (a b c : A) → before b a ≡ false → before c b ≡ false → before c a ≡ false)
    (asym : (a b : A) → before a b ≡ true → before b a ≡ false) where
  abbrev pub IsLeast : A → List A → Type 0
  IsLeast a = All (λ b. before b a ≡ false)

  abbrev pub HasLeastHead : List A → Type 0
  HasLeastHead [] = Unit
  HasLeastHead (a ∷ rest) = (before a a ≡ false) × IsLeast a rest

  irreflexive : (a : A) → before a a ≡ false
  irreflexive a = ground (arith, asym a a)

  insert-HasLeastHead : (x : A) (ys : List A) → HasLeastHead ys → HasLeastHead (insert before x ys)
  unfolding insert
  insert-HasLeastHead x [] h = (irreflexive x, tt)
  insert-HasLeastHead x (y ∷ ys) (self, least) =
      if_rule HasLeastHead (before y x) _ _
        (λ e. (self, All-insert (λ b. before b y ≡ false) before x ys (asym y x e) least))
        (λ e. (irreflexive x, (e, All-map (λ b. trans x y b e) ys least)))

  pub sort-HasLeastHead : (xs : List A) → HasLeastHead (sort before xs)
  unfolding sort
  sort-HasLeastHead [] = tt
  sort-HasLeastHead (x ∷ xs) = insert-HasLeastHead x (sort before xs) (sort-HasLeastHead xs)
