-- ===== src/Effect/Results.antt =====
-- Fallible computations with no state: chains of results, and a list of them.
use skill_stew_api.Prelude.{
  ◌≡◌, ◌≢◌, refl, sym, subst, All, map, List, [], ◌∷◌, arith, Option, none, some, Bool, true, false,
}
use skill_stew_api.Effect.{Result, ok, err}

pub ok_inj : {E A : Type 0} (a b : A) → Path (Result E A) (ok a) (ok b) → a ≡ b
ok_inj a b h = cc

module _ {E A B : Type 0} where
  infixl 5 ◌>>=◌ ◌>>◌
  abbrev pub ◌>>=◌ : Result E A → (A → Result E B) → Result E B
  ok a >>= f = f a
  err e >>= f = err e

  abbrev pub ◌>>◌ : Result E A → Result E B → Result E B
  m >> k = m >>= λ _. k

  -- `xs.map(f)`, where a call may throw
  abbrev pub traverse : (A → Result E B) → List A → Result E (List B)
  traverse f [] = ok []
  traverse f (x ∷ xs) =
      let rest = traverse f xs in
      elim (f x) [ err e ↦ err e | ok y ↦ elim rest [ err e ↦ err e | ok ys ↦ ok (y ∷ ys) ] ]

  pub >>=-eq-ok :
      (m : Result E A) (f : A → Result E B) (b : B)
      → (m >>= f) ≡ ok b
      → (a : A) × (m ≡ ok a) × (f a ≡ ok b)
  >>=-eq-ok (ok a) f b h = (a, refl, h)
  >>=-eq-ok (err e) f b h = absurd (ground arith)

traverse-cons :
    {E A B : Type 0} (f : A → Result E B) (x : A) (xs : List A) (ys : List B)
    → traverse f (x ∷ xs) ≡ ok ys
    → (y : B) × (zs : List B) × (f x ≡ ok y) × (traverse f xs ≡ ok zs) × (ys ≡ y ∷ zs)
traverse-cons f x xs ys h = ground arith

-- What each call that returns gives, the list of results has throughout.
pub All-traverse :
    {E A B : Type 0} (P : B → Type 0) (f : A → Result E B) (xs : List A) (ys : List B)
    → All (λ x. (y : B) → f x ≡ ok y → P y) xs
    → traverse f xs ≡ ok ys
    → All P ys
All-traverse P f [] ys each h = subst (All P) (ok_inj [] ys h) tt
All-traverse P f (x ∷ xs) ys (first, each) h =
    let (y, zs, here, rest, whole) = traverse-cons f x xs ys h in
    subst (All P) (sym whole) (first y here, All-traverse P f xs zs each rest)

-- Where each result names the entry that it is made from, the results name the entries in order.
pub map-traverse :
    {E A B : Type 0} (g : B → A) (f : A → Result E B) (xs : List A) (ys : List B)
    → ((x : A) (y : B) → f x ≡ ok y → g y ≡ x)
    → traverse f xs ≡ ok ys
    → map g ys ≡ xs
map-traverse g f [] ys from h = subst (λ zs. map g zs ≡ []) (ok_inj [] ys h) refl
map-traverse g f (x ∷ xs) ys from h =
    let (y, zs, here, rest, whole) = traverse-cons f x xs ys h in
    subst (λ l. map g l ≡ x ∷ xs) (sym whole)
      (rw (from x y here, map-traverse g f xs zs from rest) refl)

-- Calls that all throw return no list, unless there is nothing to call.
pub traverse-none :
    {E A B : Type 0} (f : A → Result E B) (xs : List A) (ys : List B)
    → ((x : A) (y : B) → f x ≢ ok y)
    → traverse f xs ≡ ok ys
    → xs ≡ []
traverse-none f [] ys never h = refl
traverse-none f (x ∷ xs) ys never h =
    let (y, zs, here, rest, whole) = traverse-cons f x xs ys h in absurd (never x y here)

-- Nothing found is an error.
abbrev pub found_or : {E A : Type 0} → E → Option A → Result E A
found_or e none = err e
found_or e (some a) = ok a

abbrev pub fail_if : {E : Type 0} → Bool → E → Result E (Unit {0})
fail_if true e = err e
fail_if false e = ok tt
