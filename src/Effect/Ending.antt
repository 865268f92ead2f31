-- ===== src/Effect/Ending.antt =====
-- Where a run ends that is a step followed by steps that keep a property, or a transaction.
use skill_stew_api.Prelude.{◌≡◌, refl, Bool, Option, none, some, if◌then◌else◌, if_rule}
use skill_stew_api.Effect.{Result, Run, ok, err, ◌>>=◌, transact}
use skill_stew_api.Effect.Rules.{Keeps, Reaches, transact_rule}

goes_on :
    {S E A B : Type 0} {P : S → Type 0} (p : Result E A × S) (f : A → Run S E B)
    → P p.1
    → ((a : A) → Keeps P (f a))
    → P
        (let y : Result E B × S = let (r, v) = p in elim r [ ok a ↦ f a v | err e ↦ (err e, v) ] in
          y).1
goes_on (ok a, v) f h rest = (rest a).kept v h
goes_on (err e, v) f h rest = h

module _ {S E : Type 0} {P : S → Type 0} {w : S} where
  pub Reaches-bind :
      {A B : Type 0} (m : Run S E A) (f : A → Run S E B)
      → Reaches P w m
      → ((a : A) → Keeps P (f a))
      → Reaches P w (m >>= f)
  unfolding ◌>>=◌
  Reaches-bind m f h rest = record { reached = goes_on (m w) f h.reached rest }

  -- Only work that returns counts, where going back keeps the property.
  pub Reaches-transact :
      {A : Type 0} (rollback : S → S → S) (m : Run S E A)
      → ((a : A) (v : S) → m w ≡ (ok a, v) → P v)
      → ((v : S) → P (rollback w v))
      → Reaches P w (transact rollback m)
  Reaches-transact rollback m h back = record {
    reached = transact_rule rollback P w m h (λ e v thrown. back v);
  }

-- An answer beside a state with `P`, and the branches that give one, on a test and on what may be
-- missing.
pub record Ends {S E A : Type 0} (P : S → Type 0) (p : Result E A × S) : Type 0 where
  pub ends : P p.1

module _ {S E A : Type 0} {P : S → Type 0} where
  pub kept_by : {m : Run S E A} → ((w : S) → P w → Ends P (m w)) → Keeps P m
  kept_by h = record { kept = λ w start. (h w start).ends }

  pub reached_by : {m : Run S E A} {w : S} → Ends P (m w) → Reaches P w m
  reached_by h = record { reached = h.ends }

  pub Ends-if :
      (b : Bool) (p q : Result E A × S) → Ends P p → Ends P q → Ends P (if b then p else q)
  Ends-if b p q h k = if_rule (Ends P) b p q (λ _. h) (λ _. k)

  pub Ends-found :
      {B : Type 0} (o : Option B) (r : Result E A × S) (f : B → Result E A × S)
      → Ends P r
      → ((b : B) → o ≡ some b → Ends P (f b))
      → Ends {E = E} {A = A} P (elim o [ none ↦ r | some b ↦ f b ])
  Ends-found none r f h k = h
  Ends-found (some b) r f h k = k b refl
