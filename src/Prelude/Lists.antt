-- ===== src/Prelude/Lists.antt =====
-- Lists over the native numbers: length, counting, search and filtering by a Boolean test.
use Prim.Native.Nat.{ℕ, zero, suc, ◌+◌, ◌≤◌}
use mathlib.Core.Path.{◌≡◌, refl, subst}
use mathlib.Core.Logic.{inl, inr}
use mathlib.Core.Bool.{Bool, true, false, ◌&&◌}
use mathlib.Core.Option.{Option, none, some}
use mathlib.Core.List.{List, [], ◌∷◌, ◌++◌, map}
use native.Mathlib.Omega.{arith}
use skill_stew_api.Prelude.Tests.{Bool-cases, if◌then◌else◌, to_bit, if_rule}

abbrev pub All {ℓ κ} : {A : Type ℓ} → (A → Type κ) → List A → Type κ
All P [] = Unit
All P (x ∷ xs) = P x × All P xs

module _ {ℓ} {A : Type ℓ} where
  abbrev pub length : List A → ℕ
  length [] = 0
  length (x ∷ xs) = suc (length xs)

  -- `xs.filter(p)`
  abbrev pub filter : (A → Bool) → List A → List A
  filter p [] = []
  filter p (x ∷ xs) = let rest = filter p xs in if p x then x ∷ rest else rest

  -- `xs.find(p)`
  abbrev pub find : (A → Bool) → List A → Option A
  find p [] = none
  find p (x ∷ xs) = let rest = find p xs in if p x then some x else rest

  abbrev pub take : ℕ → List A → List A
  take zero xs = []
  take (suc n) [] = []
  take (suc n) (x ∷ xs) = x ∷ take n xs

  -- How many entries pass the test.
  abbrev pub count : (A → Bool) → List A → ℕ
  count p [] = 0
  count p (x ∷ xs) = to_bit (p x) + count p xs

  pub length-filter : (p : A → Bool) (xs : List A) → length (filter p xs) ≡ count p xs
  length-filter p [] = refl
  length-filter p (x ∷ xs) = ground (arith, length-filter p xs)

  pub count-append : (p : A → Bool) (xs ys : List A) → count p (xs ++ ys) ≡ count p xs + count p ys
  count-append p [] ys = omega arith
  count-append p (x ∷ xs) ys = omega (arith, count-append p xs ys)

  pub count-filter :
      (p q : A → Bool) (xs : List A) → count p (filter q xs) ≡ count (λ x. q x && p x) xs
  count-filter p q [] = refl
  count-filter p q (x ∷ xs) = ground (arith, count-filter p q xs)

  -- Two tests with the same outcomes pass equally often.
  pub count_same : (p q : A → Bool) (xs : List A) → ((x : A) → p x ≡ q x) → count p xs ≡ count q xs
  count_same p q [] h = refl
  count_same p q (x ∷ xs) h = ground (arith, h x, count_same p q xs h)

  -- A test that implies another passes no more often.
  pub count_mono :
      (p q : A → Bool) (xs : List A) → ((x : A) → p x ≡ true → q x ≡ true) → count p xs ≤ count q xs
  count_mono p q [] h = omega arith
  count_mono p q (x ∷ xs) h = ground (arith, h x, count_mono p q xs h)

  pub find-holds : (p : A → Bool) (xs : List A) (a : A) → find p xs ≡ some a → p a ≡ true
  find-holds p [] a h = ground arith
  find-holds p (x ∷ xs) a h = ground (arith, find-holds p xs a)

  pub count_of_find : (p : A → Bool) (xs : List A) (a : A) → find p xs ≡ some a → 1 ≤ count p xs
  count_of_find p [] a h = ground arith
  count_of_find p (x ∷ xs) a h = ground (arith, count_of_find p xs a)

  pub count_of_find-none : (p : A → Bool) (xs : List A) → find p xs ≡ none → count p xs ≡ 0
  count_of_find-none p [] h = refl
  count_of_find-none p (x ∷ xs) h = ground (arith, count_of_find-none p xs)

module _ {ℓ κ} {A : Type ℓ} (P : A → Type κ) where
  -- The entries that pass a test by which `P` holds.
  pub All-filter_of :
      (t : A → Bool) (xs : List A) → ((x : A) → t x ≡ true → P x) → All P (filter t xs)
  All-filter_of t [] h = tt
  All-filter_of t (x ∷ xs) h =
      if_rule (All P) (t x) _ _ (λ e. (h x e, All-filter_of t xs h)) (λ _. All-filter_of t xs h)

  pub All-filter : (t : A → Bool) (xs : List A) → All P xs → All P (filter t xs)
  All-filter t [] h = tt
  All-filter t (x ∷ xs) (p, h) =
      if_rule (All P) (t x) _ _ (λ e. (p, All-filter t xs h)) (λ _. All-filter t xs h)

  pub All-find : (t : A → Bool) (xs : List A) (a : A) → All P xs → find t xs ≡ some a → P a
  All-find t [] a h found = absurd (ground arith)
  All-find t (x ∷ xs) a (p, h) found = elim (Bool-cases (t x)) [
    | inl here ↦ subst P (ground arith) p
    | inr other ↦ All-find t xs a h (ground arith)
  ]

  pub All-append : (xs ys : List A) → All P xs → All P ys → All P (xs ++ ys)
  All-append [] ys h k = k
  All-append (x ∷ xs) ys (p, h) k = (p, All-append xs ys h k)

  pub All-take : (n : ℕ) (xs : List A) → All P xs → All P (take n xs)
  All-take zero xs h = tt
  All-take (suc n) [] h = tt
  All-take (suc n) (x ∷ xs) (p, h) = (p, All-take n xs h)

module _ {ℓ κ} {A : Type ℓ} {P Q R : A → Type κ} (both : (x : A) → P x → Q x → R x) where
  pub All-zip : (xs : List A) → All P xs → All Q xs → All R xs
  All-zip [] h k = tt
  All-zip (x ∷ xs) (p, h) (q, k) = (both x p q, All-zip xs h k)

module _ {ℓ κ μ} {A : Type ℓ} {P : A → Type κ} {Q : A → Type μ} (each : (x : A) → P x → Q x) where
  pub All-map : (xs : List A) → All P xs → All Q xs
  All-map [] h = tt
  All-map (x ∷ xs) (p, h) = (each x p, All-map xs h)

module _ {A B : Type 0} {P : A → Type 0} (Q : B → Type 0) (f : A → B)
    (each : (x : A) → P x → Q (f x)) where
  -- What holds of the images of the entries.
  pub All-image : (xs : List A) → All P xs → All Q (map f xs)
  All-image [] h = tt
  All-image (x ∷ xs) (p, h) = (each x p, All-image xs h)

module _ {A : Type 0} (p : A → Bool) where
  -- A test that no entry passes fails on each.
  pub All-count : (xs : List A) → count p xs ≡ 0 → All (λ x. p x ≡ false) xs
  All-count [] h = tt
  All-count (x ∷ xs) h = (ground arith, All-count xs (ground arith))

  pub count_none : (xs : List A) → All (λ x. p x ≡ false) xs → count p xs ≡ 0
  count_none [] h = refl
  count_none (x ∷ xs) (e, h) = ground (arith, count_none xs h)

-- A change made to the entries that pass a test, which pass it still, and what a test finds that
-- those fail.
module _ {A : Type 0} (p q : A → Bool) (f : A → A) where
  pub find-map_where :
      (xs : List A) (a : A)
      → ((x : A) → p (f x) ≡ p x)
      → find p xs ≡ some a
      → find p (map (λ x. if p x then f x else x) xs) ≡ some (f a)
  find-map_where [] a same h = absurd (ground arith)
  find-map_where (x ∷ xs) a same h = ground (arith, same x, find-map_where xs a same)

  pub find-map_apart :
      (xs : List A)
      → ((x : A) → p x ≡ true → q x ≡ false)
      → ((x : A) → p x ≡ true → q (f x) ≡ false)
      → find q (map (λ x. if p x then f x else x) xs) ≡ find q xs
  find-map_apart [] before after = refl
  find-map_apart (x ∷ xs) before after =
      ground (arith, before x, after x, find-map_apart xs before after)
