-- ===== src/Effect/Rules.antt =====
-- How properties of actions follow from those of their parts, one rule for each way to build one.
use skill_stew_api.Prelude.{
  All, ◌≡◌, refl, sym, subst, ap, Bool, true, false, Option, none, some, List, [], ◌∷◌,
  if◌then◌else◌,
}
use skill_stew_api.Effect.{
  Result, Run, ok, err, pure, raise, gets, or_raise, ◌>>=◌, raise_if, for_each, transact,
}

-- `m` preserves `P`, whether it returns or throws.
pub record Keeps {S E A : Type 0} (P : S → Type 0) (m : Run S E A) : Type 0 where
  pub kept : (w : S) → P w → P (m w).1

kept_or_raise :
    {S E A : Type 0} (P : S → Type 0) (o : Option A) (e : E) (w : S) → P w → P (or_raise o e w).1
kept_or_raise P none e w h = h
kept_or_raise P (some a) e w h = h

kept_transact :
    {S E A : Type 0} (P : S → Type 0) (rollback : S → S → S) (r : Result E A) (w v : S)
    → (Unit {0} → P v)
    → P (rollback w v)
    → P
        (let q : Result E A × S = elim r [ ok a ↦ (ok a, v) | err e ↦ (err e, rollback w v) ] in
          q).1
kept_transact P rollback (ok a) w v h k = h tt
kept_transact P rollback (err e) w v h k = k

module _ {S E : Type 0} {P : S → Type 0} where
  module _ {A : Type 0} where
    pub Keeps-pure : (a : A) → Keeps {E = E} P (pure a)
    Keeps-pure a = record { kept = λ w h. h }

    pub Keeps-raise : (e : E) → Keeps P (raise {A = A} e)
    Keeps-raise e = record { kept = λ w h. h }

    pub Keeps-gets : (f : S → A) → Keeps {E = E} P (gets f)
    Keeps-gets f = record { kept = λ w h. h }

    -- A query that may find nothing.
    pub Keeps-query : (q : S → Option A) (e : E) → Keeps P (λ w. or_raise (q w) e w)
    Keeps-query q e = record { kept = λ w. kept_or_raise P (q w) e w }

    pub Keeps-if :
        (b : Bool) (m n : Run S E A) → Keeps P m → Keeps P n → Keeps P (if b then m else n)
    Keeps-if true m n h k = h
    Keeps-if false m n h k = k

  pub Keeps-raise_if : (b : Bool) (e : E) → Keeps P (raise_if b e)
  Keeps-raise_if b e = record { kept = λ w h. h }

  module _ {A B : Type 0} where
    after_kept :
        (r : Result E A) (v : S) (f : A → Run S E B)
        → P v
        → ((a : A) → Keeps P (f a))
        → P (let y : Result E B × S = elim r [ ok a ↦ f a v | err e ↦ (err e, v) ] in y).1
    after_kept (ok a) v f h rest = (rest a).kept v h
    after_kept (err e) v f h rest = h

    pub Keeps-bind :
        (m : Run S E A) (f : A → Run S E B)
        → Keeps P m
        → ((a : A) → Keeps P (f a))
        → Keeps P (m >>= f)
    unfolding ◌>>=◌
    Keeps-bind m f first rest = record {
      kept = λ w h. after_kept (m w).0 (m w).1 f (first.kept w h) rest;
    }

  pub Keeps-for_each :
      {A : Type 0} (f : A → Run S E (Unit {0})) (xs : List A)
      → ((a : A) → Keeps P (f a))
      → Keeps P (for_each f xs)
  Keeps-for_each f [] each = Keeps-pure tt
  Keeps-for_each f (x ∷ xs) each = Keeps-bind (f x) _ (each x) (λ _. Keeps-for_each f xs each)

  -- The same, where each action of the list has a reason of its own.
  pub Keeps-for_each_where :
      {A : Type 0} (f : A → Run S E (Unit {0})) (xs : List A)
      → All (λ a. Keeps P (f a)) xs
      → Keeps P (for_each f xs)
  Keeps-for_each_where f [] each = Keeps-pure tt
  Keeps-for_each_where f (x ∷ xs) (first, rest) =
      Keeps-bind (f x) _ first (λ _. Keeps-for_each_where f xs rest)

  -- A transaction keeps what its work keeps, where going back from such a state to another does.
  pub Keeps-transact :
      {A : Type 0} (rollback : S → S → S) (m : Run S E A)
      → Keeps P m
      → ((u v : S) → P u → P v → P (rollback u v))
      → Keeps P (transact rollback m)
  unfolding transact
  Keeps-transact rollback m h back = record {
    kept = λ w start.
        kept_transact P rollback (m w).0 w (m w).1 (λ _. h.kept w start)
          (back w (m w).1 start (h.kept w start));
  }

pub ruleset keeps_rules =
    (Keeps-pure, Keeps-raise, Keeps-gets, Keeps-query, Keeps-if, Keeps-raise_if, Keeps-bind)

module _ {S E A : Type 0} (rollback : S → S → S) (P : S → Type 0) (w : S) where
  after_transact :
      (p : Result E A × S)
      → ((a : A) (v : S) → p ≡ (ok a, v) → P v)
      → ((e : E) (v : S) → p ≡ (err e, v) → P (rollback w v))
      → P
          (let q : Result E A × S =
              let (r, v) = p in elim r [ ok a ↦ (ok a, v) | err e ↦ (err e, rollback w v) ] in
            q).1
  after_transact (ok a, v) h k = h a v refl
  after_transact (err e, v) h k = k e v refl

  -- A transaction commits the state of work that returns, and rolls back that of work that throws.
  pub transact_rule :
      (m : Run S E A)
      → ((a : A) (v : S) → m w ≡ (ok a, v) → P v)
      → ((e : E) (v : S) → m w ≡ (err e, v) → P (rollback w v))
      → P (transact rollback m w).1
  unfolding transact
  transact_rule m h k = after_transact (m w) h k

-- A run of `m` from `w` ends in a state with `P`.
pub record Reaches {S E A : Type 0} (P : S → Type 0) (w : S) (m : Run S E A) : Type 0 where
  pub reached : P (m w).1

module _ {S E : Type 0} {P : S → Type 0} {w : S} {A : Type 0} where
  pub Reaches-pure : (a : A) → P w → Reaches {E = E} P w (pure a)
  Reaches-pure a h = record { reached = h }

  pub Reaches-if :
      (b : Bool) (m n : Run S E A)
      → (b ≡ true → Reaches P w m)
      → (b ≡ false → Reaches P w n)
      → Reaches P w (if b then m else n)
  Reaches-if true m n h k = h refl
  Reaches-if false m n h k = k refl

  -- What keeps a property in every state keeps it in this one.
  pub Keeps-Reaches : {m : Run S E A} → P w → Keeps P m → Reaches P w m
  Keeps-Reaches h k = record { reached = k.kept w h }

module _ {S E : Type 0} {P : S → Type 0} {A B : Type 0} where
  reaches_found :
      (w : S) (o : Option A) (e : E) (f : A → Run S E B)
      → (o ≡ none → P w)
      → ((a : A) → o ≡ some a → Reaches P w (f a))
      → P (((λ u. or_raise o e u) >>= f) w).1
  unfolding ◌>>=◌
  reaches_found w none e f h k = h refl
  reaches_found w (some a) e f h k = (k a refl).reached

  pub Reaches-query :
      {w : S} (q : S → Option A) (e : E) (f : A → Run S E B)
      → (q w ≡ none → P w)
      → ((a : A) → q w ≡ some a → Reaches P w (f a))
      → Reaches P w ((λ u. or_raise (q u) e u) >>= f)
  unfolding ◌>>=◌
  Reaches-query {w} q e f h k = record { reached = reaches_found w (q w) e f h k }

  pub Reaches-gets :
      {w : S} (g : S → A) (f : A → Run S E B) → Reaches P w (f (g w)) → Reaches P w (gets g >>= f)
  unfolding ◌>>=◌
  Reaches-gets g f h = record { reached = h.reached }

module _ {S E : Type 0} {P : S → Type 0} {w : S} {A B : Type 0} where
  reaches_led :
      (p : Result E A × S) (f : A → Run S E B)
      → p.1 ≡ w
      → P w
      → ((a : A) → p ≡ (ok a, w) → Reaches P w (f a))
      → P
          (let y : Result E B × S =
              let (r, v) = p in elim r [ ok a ↦ f a v | err e ↦ (err e, v) ] in
            y).1
  reaches_led (ok a, v) f same h k =
      subst (λ u. P (f a u).1) (sym same) (k a (ap (λ u. (ok a, u)) same)).reached
  reaches_led (err e, v) f same h k = subst P (sym same) h

  -- What follows an action that leaves the state alone starts in this state, with its result.
  pub Reaches-after :
      (m : Run S E A) (f : A → Run S E B)
      → Keeps (λ v. v ≡ w) m
      → P w
      → ((a : A) → m w ≡ (ok a, w) → Reaches P w (f a))
      → Reaches P w (m >>= f)
  unfolding ◌>>=◌
  Reaches-after m f same h k = record { reached = reaches_led (m w) f (same.kept w refl) h k }

-- Where the first action is known to return, the run goes on from its state.
pub Reaches-ran :
    {S E A B : Type 0} {P : S → Type 0} {w v : S} {a : A} (m : Run S E A) (f : A → Run S E B)
    → m w ≡ (ok a, v)
    → Reaches P v (f a)
    → Reaches P w (m >>= f)
unfolding ◌>>=◌
Reaches-ran {S = S} {E = E} {B = B} {P = P} m f e h = record {
  reached =
      subst
        (λ p.
          P
            (let y : Result E B × S =
                let (r, u) = p in elim r [ ok b ↦ f b u | err x ↦ (err x, u) ] in
              y).1)
        (sym e) h.reached;
}

pub Reaches-raise_if :
    {S E B : Type 0} {P : S → Type 0} {w : S} (t : Bool) (e : E) (f : Unit {0} → Run S E B)
    → P w
    → (t ≡ false → Reaches P w (f tt))
    → Reaches P w (raise_if t e >>= f)
unfolding ◌>>=◌
Reaches-raise_if true e f h k = record { reached = h }
Reaches-raise_if false e f h k = record { reached = (k refl).reached }

pub ruleset reach_rules = (Reaches-pure, Reaches-if, Reaches-query, Reaches-gets)
