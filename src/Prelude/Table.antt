-- ===== src/Prelude/Table.antt =====
-- A collection of documents under a unique key: the MongoDB collections and the SQL tables.
-- Documents stand in insertion order; an access by key takes the first that carries it.
use Prim.Native.Nat.{ℕ, ◌+◌}
use mathlib.Core.Path.{◌≡◌, refl, subst, ◌∙◌}
use mathlib.Core.Logic.{◌≢◌, inl, inr}
use mathlib.Core.Bool.{Bool, true, false}
use mathlib.Core.Option.{Option, none, some}
use mathlib.Core.List.{List, [], ◌∷◌, ◌++◌, map}
use native.Mathlib.Omega.{arith}
use skill_stew_api.Prelude.Tests.{if_rule, Bool-cases, if◌then◌else◌, to_bit, ◌==◌}
use skill_stew_api.Prelude.Lists.{count, All, find, filter}

module _ {ℓ} {A : Type ℓ} (key : A → ℕ) where
  -- `findById(k)`
  abbrev pub lookup : ℕ → List A → Option A
  lookup k [] = none
  lookup k (x ∷ xs) = let rest = lookup k xs in if key x == k then some x else rest

  -- `findByIdAndUpdate(k, …)`: the document under `k` becomes `b`.
  abbrev pub replace : ℕ → A → List A → List A
  replace k b [] = []
  replace k b (x ∷ xs) = let rest = replace k b xs in if key x == k then b ∷ xs else x ∷ rest

  -- `findByIdAndDelete(k)`
  abbrev pub erase : ℕ → List A → List A
  erase k [] = []
  erase k (x ∷ xs) = let rest = erase k xs in if key x == k then xs else x ∷ rest

  pub lookup-key : (k : ℕ) (xs : List A) (a : A) → lookup k xs ≡ some a → key a ≡ k
  lookup-key k [] a h = ground arith
  lookup-key k (x ∷ xs) a h = ground (arith, lookup-key k xs a)

  pub count-replace :
      (p : A → Bool) (k : ℕ) (b : A) (xs : List A) (a : A)
      → lookup k xs ≡ some a
      → count p (replace k b xs) + to_bit (p a) ≡ count p xs + to_bit (p b)
  count-replace p k b [] a h = ground arith
  count-replace p k b (x ∷ xs) a h = ground (arith, count-replace p k b xs a)

  pub lookup-replace :
      (j k : ℕ) (b : A) (xs : List A) (a : A)
      → key b ≡ k
      → lookup k xs ≡ some a
      → lookup j (replace k b xs) ≡ (if j == k then some b else lookup j xs)
  lookup-replace j k b [] a e h = ground arith
  lookup-replace j k b (x ∷ xs) a e h = ground (arith, lookup-replace j k b xs a e)

  pub lookup-append :
      (k : ℕ) (xs ys : List A)
      → lookup k (xs ++ ys) ≡ elim (lookup k xs) [ none ↦ lookup k ys | some a ↦ some a ]
  lookup-append k [] ys = refl
  lookup-append k (x ∷ xs) ys = ground (arith, lookup-append k xs ys)

  pub replace_last :
      (k : ℕ) (b x : A) (xs : List A)
      → key x ≡ k
      → lookup k xs ≡ none
      → replace k b (xs ++ x ∷ []) ≡ xs ++ b ∷ []
  replace_last k b x [] e h = ground arith
  replace_last k b x (y ∷ ys) e h = ground (arith, replace_last k b x ys e)

  pub lookup_last :
      (k : ℕ) (x : A) (xs : List A)
      → key x ≡ k
      → lookup k xs ≡ none
      → lookup k (xs ++ x ∷ []) ≡ some x
  lookup_last k x [] e h = ground arith
  lookup_last k x (y ∷ ys) e h = ground (arith, lookup_last k x ys e)

  pub lookup_other_last :
      (k : ℕ) (x : A) (xs : List A) → key x ≢ k → lookup k (xs ++ x ∷ []) ≡ lookup k xs
  lookup_other_last k x [] e = ground arith
  lookup_other_last k x (y ∷ ys) e = ground (arith, lookup_other_last k x ys e)

  module _ (P : A → Type 0) where
    pub All-lookup : (k : ℕ) (xs : List A) (a : A) → All P xs → lookup k xs ≡ some a → P a
    All-lookup k [] a h found = absurd (ground arith)
    All-lookup k (x ∷ xs) a (p, h) found = elim (Bool-cases (key x == k)) [
      | inl here ↦ subst P (ground arith) p
      | inr other ↦ All-lookup k xs a h (ground arith)
    ]

    pub All-replace : (k : ℕ) (b : A) (xs : List A) → P b → All P xs → All P (replace k b xs)
    All-replace k b [] q h = tt
    All-replace k b (x ∷ xs) q (p, h) =
        if_rule (All P) (key x == k) _ _ (λ _. (q, h)) (λ _. (p, All-replace k b xs q h))

module _ {A : Type 0} (key : A → ℕ) where
  pub find-none-lookup :
      (p : A → Bool) (k : ℕ) (xs : List A) (a : A)
      → find p xs ≡ none
      → lookup key k xs ≡ some a
      → p a ≡ false
  find-none-lookup p k [] a h found = ground arith
  find-none-lookup p k (x ∷ xs) a h found = ground (arith, find-none-lookup p k xs a)

  -- A change that leaves the keys alone, made to every document.
  pub lookup-map :
      (f : A → A) (k : ℕ) (xs : List A) (a : A)
      → ((x : A) → key (f x) ≡ key x)
      → lookup key k xs ≡ some a
      → lookup key k (map f xs) ≡ some (f a)
  lookup-map f k [] a same found = absurd (ground arith)
  lookup-map f k (x ∷ xs) a same found = ground (arith, same x, lookup-map f k xs a same)

  -- The documents that pass a test which all those of the key pass.
  pub lookup-filter :
      (t : A → Bool) (k : ℕ) (xs : List A) (a : A)
      → ((x : A) → key x ≡ k → t x ≡ true)
      → lookup key k xs ≡ some a
      → lookup key k (filter t xs) ≡ some a
  lookup-filter t k [] a passes found = absurd (ground arith)
  lookup-filter t k (x ∷ xs) a passes found =
      ground (arith, passes x, lookup-filter t k xs a passes)

  -- No two documents stand under one key.
  abbrev pub HasUniqueKeys : List A → Type 0
  HasUniqueKeys [] = Unit
  HasUniqueKeys (x ∷ xs) = (lookup key (key x) xs ≡ none) × HasUniqueKeys xs

  pub lookup-erase :
      (j k : ℕ) (xs : List A)
      → HasUniqueKeys xs
      → lookup key j (erase key k xs) ≡ (if j == k then none else lookup key j xs)
  lookup-erase j k [] u = ground arith
  lookup-erase j k (x ∷ xs) (gone, u) = ground (arith, lookup-erase j k xs u)

  pub HasUniqueKeys-append :
      (x : A) (xs : List A)
      → HasUniqueKeys xs
      → lookup key (key x) xs ≡ none
      → HasUniqueKeys (xs ++ x ∷ [])
  HasUniqueKeys-append x [] u h = (refl, tt)
  HasUniqueKeys-append x (y ∷ ys) (gone, u) h = (
    ground (arith, lookup_other_last key (key y) x ys),
    HasUniqueKeys-append x ys u (ground arith),
  )

  lookup-replace_other :
      (j k : ℕ) (b : A) (xs : List A)
      → key b ≡ k
      → (j == k) ≡ false
      → lookup key j (replace key k b xs) ≡ lookup key j xs
  lookup-replace_other j k b [] e h = refl
  lookup-replace_other j k b (x ∷ xs) e h = ground (arith, lookup-replace_other j k b xs e h)

  pub HasUniqueKeys-replace :
      (k : ℕ) (b : A) (xs : List A)
      → key b ≡ k
      → HasUniqueKeys xs
      → HasUniqueKeys (replace key k b xs)
  HasUniqueKeys-replace k b [] e u = tt
  HasUniqueKeys-replace k b (x ∷ xs) e (gone, u) =
      if_rule HasUniqueKeys (key x == k) _ _ (λ here. (ground arith, u))
        (λ other.
          (lookup-replace_other (key x) k b xs e other ∙ gone, HasUniqueKeys-replace k b xs e u))

  pub HasUniqueKeys-erase :
      (k : ℕ) (xs : List A) → HasUniqueKeys xs → HasUniqueKeys (erase key k xs)
  HasUniqueKeys-erase k [] u = tt
  HasUniqueKeys-erase k (x ∷ xs) (gone, u) =
      if_rule HasUniqueKeys (key x == k) _ _ (λ _. u)
        (λ other. (ground (arith, lookup-erase (key x) k xs u), HasUniqueKeys-erase k xs u))
