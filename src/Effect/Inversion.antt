-- ===== src/Effect/Inversion.antt =====
-- What a run that returns has gone through.
use skill_stew_api.Prelude.{◌≡◌, refl, ap, Bool, true, false, Option, none, some, arith}
use skill_stew_api.Effect.{Result, Run, ok, err, gets, or_raise, ◌>>=◌, raise_if, transact}

module _ {S E A B : Type 0} where
  after_led :
      (r : Result E A) (u v : S) (f : A → Run S E B) (b : B)
      → (let y : Result E B × S = elim r [ ok a ↦ f a u | err e ↦ (err e, u) ] in y) ≡ (ok b, v)
      → (a : A) × (r ≡ ok a) × (f a u ≡ (ok b, v))
  after_led r u v f b h = ground arith

  -- A sequence that returns has run each of its parts to a value.
  pub >>=-eq-ok :
      (m : Run S E A) (f : A → Run S E B) (w v : S) (b : B)
      → (m >>= f) w ≡ (ok b, v)
      → (a : A) × (u : S) × (m w ≡ (ok a, u)) × (f a u ≡ (ok b, v))
  unfolding ◌>>=◌
  >>=-eq-ok m f w v b h =
      let (a, e, k) = after_led (m w).0 (m w).1 v f b h in (a, (m w).1, ground arith, k)

  -- The same where the first part reads the state, looks something up, or checks a condition.
  pub gets-eq-ok :
      (g : S → A) (f : A → Run S E B) (w v : S) (b : B)
      → (gets g >>= f) w ≡ (ok b, v)
      → f (g w) w ≡ (ok b, v)
  unfolding ◌>>=◌
  gets-eq-ok g f w v b h = h

  found_or_raise :
      (o : Option A) (e : E) (f : A → Run S E B) (w v : S) (b : B)
      → ((λ u. or_raise o e u) >>= f) w ≡ (ok b, v)
      → (a : A) × (o ≡ some a) × (f a w ≡ (ok b, v))
  unfolding ◌>>=◌
  found_or_raise none e f w v b h = absurd (ground arith)
  found_or_raise (some a) e f w v b h = (a, refl, h)

  pub query-eq-ok :
      (q : S → Option A) (e : E) (f : A → Run S E B) (w v : S) (b : B)
      → ((λ u. or_raise (q u) e u) >>= f) w ≡ (ok b, v)
      → (a : A) × (q w ≡ some a) × (f a w ≡ (ok b, v))
  unfolding ◌>>=◌
  query-eq-ok q e f w v b h = found_or_raise (q w) e f w v b h

pub raise_if-eq-ok :
    {S E B : Type 0} (t : Bool) (e : E) (f : Unit {0} → Run S E B) (w v : S) (b : B)
    → (raise_if t e >>= f) w ≡ (ok b, v)
    → (t ≡ false) × (f tt w ≡ (ok b, v))
unfolding ◌>>=◌
raise_if-eq-ok true e f w v b h = absurd (ground arith)
raise_if-eq-ok false e f w v b h = (refl, h)

committed :
    {S E A : Type 0} (rollback : S → S → S) (r : Result E A) (w u v : S) (a : A)
    → (let q : Result E A × S = elim r [ ok b ↦ (ok b, u) | err e ↦ (err e, rollback w u) ] in q)
      ≡ (ok a, v)
    → (r ≡ ok a) × (u ≡ v)
committed rollback (ok b) w u v a h = ground arith
committed rollback (err e) w u v a h = absurd (ground arith)

-- A transaction that returns has committed what its work did.
pub transact-eq-ok :
    {S E A : Type 0} (rollback : S → S → S) (m : Run S E A) (w v : S) (a : A)
    → transact rollback m w ≡ (ok a, v)
    → m w ≡ (ok a, v)
unfolding transact
transact-eq-ok rollback m w v a h =
    let (same, state) = committed rollback (m w).0 w (m w).1 v a h in ground arith

-- Runs that are known to return, put together.
module _ {S E A : Type 0} where
  pub >>=-of-ok :
      {B : Type 0} (m : Run S E A) (f : A → Run S E B) (w v : S) (a : A)
      → m w ≡ (ok a, v)
      → (m >>= f) w ≡ f a v
  unfolding ◌>>=◌
  >>=-of-ok {B} m f w v a h =
      ap
        (λ p.
          let y : Result E B × S = let (r, u) = p in elim r [ ok b ↦ f b u | err e ↦ (err e, u) ] in
          y)
        h

  pub transact-of-ok :
      (rollback : S → S → S) (m : Run S E A) (w v : S) (a : A)
      → m w ≡ (ok a, v)
      → transact rollback m w ≡ (ok a, v)
  unfolding transact
  transact-of-ok rollback m w v a h =
      ap
        (λ p.
          let y : Result E A × S =
            let (r, u) = p in elim r [ ok b ↦ (ok b, u) | err e ↦ (err e, rollback w u) ] in
          y)
        h

  pub or_raise-eq-ok :
      (o : Option A) (e : E) (w v : S) (a : A) → or_raise o e w ≡ (ok a, v) → o ≡ some a
  or_raise-eq-ok none e w v a h = absurd (ground arith)
  or_raise-eq-ok (some b) e w v a h = ground arith
