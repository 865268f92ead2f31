-- ===== src/Effect.antt =====
-- The effect in which the use cases of the services run: state, and exceptions. The state comes
-- back beside an exception too, since what was written before it stays written unless a transaction
-- takes it back.
pub mod Rules
pub mod Results
pub mod Failing
pub mod Inversion
pub mod Ending
use skill_stew_api.Prelude.{Bool, Option, none, some, List, [], ◌∷◌, if◌then◌else◌}

pub data Result (E A : Type 0) : Type 0 where
  ok : A → Result E A
  err : E → Result E A

-- An action over the state `S` that may throw an `E`.
abbrev pub Run : Type 0 → Type 0 → Type 0 → Type 0
Run S E A = S → Result E A × S

module _ {S E A : Type 0} where
  abbrev pub pure : A → Run S E A
  pure a w = (ok a, w)

  abbrev pub raise : E → Run S E A
  raise e w = (err e, w)

  abbrev pub gets : (S → A) → Run S E A
  gets f w = (ok (f w), w)

  abbrev pub or_raise : Option A → E → Run S E A
  or_raise none e w = (err e, w)
  or_raise (some a) e w = (ok a, w)

infixl 5 ◌>>=◌ ◌>>◌
unfoldable pub ◌>>=◌ : {S E A B : Type 0} → Run S E A → (A → Run S E B) → Run S E B
◌>>=◌ m f w = let (r, w') = m w in elim r [ ok a ↦ f a w' | err e ↦ (err e, w') ]

abbrev pub ◌>>◌ : {S E A B : Type 0} → Run S E A → Run S E B → Run S E B
m >> k = m >>= λ _. k

abbrev pub raise_if : {S E : Type 0} → Bool → E → Run S E (Unit {0})
raise_if c e w = (if c then err e else ok tt, w)

abbrev pub modify : {S E : Type 0} → (S → S) → Run S E (Unit {0})
modify f w = (ok tt, f w)

-- `await Promise.all(xs.map(f))`, and `for (const x of xs)`; the calls are made in the order of the
-- list.
abbrev pub for_each : {S E A : Type 0} → (A → Run S E (Unit {0})) → List A → Run S E (Unit {0})
for_each f [] = pure tt
for_each f (x ∷ xs) = f x >> for_each f xs

-- `UnitOfWork.transact`: commit if the work returns, abort and rethrow if it throws. `rollback`
-- says which parts of the state an aborted transaction puts back.
unfoldable pub transact : {S E A : Type 0} → (S → S → S) → Run S E A → Run S E A
transact rollback m w =
    let (r, w') = m w in elim r [ ok a ↦ (ok a, w') | err e ↦ (err e, rollback w w') ]
