-- ===== src/Effect/Failing.antt =====
-- Actions that have written nothing when they throw, one rule for each way to build one.
use skill_stew_api.Prelude.{◌≡◌, refl, sym, ap, ◌∙◌, ◌⊎◌, inl, inr, Option, none, some, arith}
use skill_stew_api.Effect.{Result, Run, ok, err, or_raise, ◌>>=◌, transact}
use skill_stew_api.Effect.Rules.{Keeps}

-- A run of `m` from `w` that throws ends in `w`.
pub record Undone {S E A : Type 0} (w : S) (m : Run S E A) : Type 0 where
  pub undone : (e : E) (v : S) → m w ≡ (err e, v) → v ≡ w

module _ {S E A : Type 0} {w : S} where
  pub Undone-reads : (m : Run S E A) → Keeps (λ v. v ≡ w) m → Undone w m
  Undone-reads m h = record { undone = λ e v thrown. ap (λ p. p.1) (sym thrown) ∙ h.kept w refl }

  pub Undone-returns : (m : Run S E A) (a : A) (v : S) → m w ≡ (ok a, v) → Undone w m
  Undone-returns m a v h = record { undone = λ e u thrown. absurd (ground arith) }

module _ {S E A B : Type 0} {w : S} where
  thrown_or_led :
      (p : Result E A × S) (f : A → Run S E B) (e : E) (v : S)
      → p.1 ≡ w
      → ((a : A) → p ≡ (ok a, w) → Undone w (f a))
      → (let y : Result E B × S = let (r, u) = p in elim r [ ok a ↦ f a u | err x ↦ (err x, u) ] in
          y)
        ≡ (err e, v)
      → v ≡ w
  thrown_or_led (ok a, u) f e v same k h =
      (k a (ap (λ s. (ok a, s)) same)).undone e v (rw same at h)
  thrown_or_led (err x, u) f e v same k h = ground arith

  pub Undone-after :
      (m : Run S E A) (f : A → Run S E B)
      → Keeps (λ v. v ≡ w) m
      → ((a : A) → m w ≡ (ok a, w) → Undone w (f a))
      → Undone w (m >>= f)
  unfolding ◌>>=◌
  Undone-after m f same k = record {
    undone = λ e v h. thrown_or_led (m w) f e v (same.kept w refl) k h;
  }

-- A query that is followed by more throws where it stands, or what follows does; a transaction that
-- throws has gone back.
module _ {S E A : Type 0} where
  found_failed :
      {B : Type 0} (o : Option A) (e x : E) (f : A → Run S E B) (w v : S)
      → ((λ u. or_raise o e u) >>= f) w ≡ (err x, v)
      → (v ≡ w) ⊎ ((a : A) × (f a w ≡ (err x, v)))
  unfolding ◌>>=◌
  found_failed none e x f w v h = inl (ground arith)
  found_failed (some a) e x f w v h = inr (a, h)

  pub query-failed :
      {B : Type 0} (q : S → Option A) (e x : E) (f : A → Run S E B) (w v : S)
      → ((λ u. or_raise (q u) e u) >>= f) w ≡ (err x, v)
      → (v ≡ w) ⊎ ((a : A) × (f a w ≡ (err x, v)))
  unfolding ◌>>=◌
  query-failed q e x f w v h = found_failed (q w) e x f w v h

  gone_back :
      (rollback : S → S → S) (p : Result E A × S) (x : E) (w v : S)
      → (let q : Result E A × S =
            let (r, u) = p in elim r [ ok a ↦ (ok a, u) | err e ↦ (err e, rollback w u) ] in
          q)
        ≡ (err x, v)
      → v ≡ rollback w p.1
  gone_back rollback (ok a, u) x w v h = absurd (ground arith)
  gone_back rollback (err e, u) x w v h = ground arith

  pub transact-failed :
      (rollback : S → S → S) (m : Run S E A) (x : E) (w v : S)
      → transact rollback m w ≡ (err x, v)
      → v ≡ rollback w (m w).1
  unfolding transact
  transact-failed rollback m x w v h = gone_back rollback (m w) x w v h
