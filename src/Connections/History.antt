-- ===== src/Connections/History.antt =====
-- The connections through any sequence of requests, and through the requests of one user.
use skill_stew_api.Prelude.{
  ℕ, ◌≤◌, ◌≡◌, ◌≢◌, ◌∙◌, refl, sym, ap, not, some, arith, ◌==◌, ◌⊎◌, inl, inr,
}
use skill_stew_api.Prelude.Table.{lookup, lookup-key}
use skill_stew_api.Effect.Rules.{
  Keeps-Reaches, Reaches, Reaches-query, Reaches-raise_if, Reaches-if, Reaches-pure,
}
use skill_stew_api.Connections.World.{UserConnection, accepted, pending, new_connection, World}
use skill_stew_api.Connections.Repo.{connection_key, is_accepted, accept_mutual}
use skill_stew_api.Connections.UseCases.{
  recipient_of, send_connection_request, accept_work, accept_connection, reject_work,
  reject_connection,
}
use skill_stew_api.Connections.Standing.{
  Has, send_connection_request-Has, accept_work-Has, reject_work-Has, in_transaction-Has,
}

-- A request to connect, its acceptance or its rejection, or the passing of time.
pub data Step (w : World) : World → Type 0 where
  sends : (a b : ℕ) → Step w (send_connection_request a b w).1
  accepts : (id user : ℕ) → Step w (accept_connection id user w).1
  rejects : (id user : ℕ) → Step w (reject_connection id user w).1
  waits : (now : ℕ) → w.now ≤ now → Step w (record w { now = now })

pub data History (w : World) : World → Type 0 where
  start : History w w
  later : {u v : World} → History w u → Step u v → History w v

-- Accepted, by the request of `r`, between `a` and `b`.
abbrev pub IsConnected : ℕ → ℕ → ℕ → UserConnection → Type 0
IsConnected a b r c =
    (c.status ≡ accepted) × (c.user_id_1 ≡ a) × (c.user_id_2 ≡ b) × (c.requester_id ≡ r)

module _ (id a b r : ℕ) where
  abbrev pub Connects : World → Type 0
  Connects = Has (IsConnected a b r) id

  accept_connection-Connects :
      (k user : ℕ) (w : World) → Connects w → Connects (accept_connection k user w).1
  unfolding accept_connection
  accept_connection-Connects k user w h =
      let run : Reaches Connects w (accept_connection k user) =
        Reaches-query (λ u. lookup connection_key k u.connections) _ _ (λ _. h)
          λ c found. Reaches-raise_if (not (recipient_of c == user)) _ _ h λ _.
            Reaches-if (is_accepted c.status) _ _ (λ _. Reaches-pure tt h)
              λ _. Keeps-Reaches h (
                in_transaction-Has _ id (accept_work k (recipient_of c))
                  (accept_work-Has _ id k (recipient_of c) λ now d q. ground (arith, q))) in
      run.reached

  reject_connection-Connects :
      (k user : ℕ) (w : World) → Connects w → Connects (reject_connection k user w).1
  unfolding reject_connection
  reject_connection-Connects k user w h =
      let (d, stands, q) = h in
      let run : Reaches Connects w (reject_connection k user) =
        Reaches-query (λ u. lookup connection_key k u.connections) _ _ (λ _. h)
          λ c found. Reaches-raise_if (not (recipient_of c == user)) _ _ h λ _.
            Reaches-raise_if (is_accepted c.status) _ _ h λ waiting.
              let key = lookup-key connection_key k w.connections c found in
              Keeps-Reaches h (
                in_transaction-Has _ id (reject_work c)
                  (reject_work-Has _ id c λ same. absurd (ground (arith, q)))) in
      run.reached

  Step-Connects : {w v : World} → Step w v → Connects w → Connects v
  Step-Connects {w} (sends x y) h =
      (send_connection_request-Has _ id x y λ k now t c q. ground (arith, q)).kept w h
  Step-Connects {w} (accepts k user) h = accept_connection-Connects k user w h
  Step-Connects {w} (rejects k user) h = reject_connection-Connects k user w h
  Step-Connects {w} (waits now le) h = h

  -- Two users who are connected stay so, through any sequence of requests, acceptances and
  -- rejections: the connection stays accepted, between the same users and by the same request.
  pub History-Connects : {w v : World} → Connects w → History w v → Connects v
  History-Connects h start = h
  History-Connects h (later r s) = Step-Connects s (History-Connects h r)

module _ (id user : ℕ) (c : UserConnection) (apart : recipient_of c ≢ user)
    (asked : (c.user_id_1 ≡ c.requester_id) ⊎ (c.user_id_2 ≡ c.requester_id)) (w : World)
    (stands : lookup connection_key id w.connections ≡ some c) where
  abbrev Unchanged : World → Type 0
  Unchanged v = lookup connection_key id v.connections ≡ some c

  there : Has (λ d. d ≡ c) id w
  there = (c, stands, refl)

  same_row : (v : World) → Has (λ d. d ≡ c) id v → Unchanged v
  same_row v (d, found, same) = found ∙ ap some same

  other_of :
      (k : ℕ) (d : UserConnection)
      → lookup connection_key k w.connections ≡ some d
      → recipient_of d ≡ user
      → k ≢ id
  other_of k d found reached same = ground (arith, apart)

  accept_own : (k : ℕ) → Has (λ d. d ≡ c) id (accept_connection k user w).1
  unfolding accept_connection
  accept_own k =
      let key = lookup-key connection_key id w.connections c stands in
      let run : Reaches (Has (λ d. d ≡ c) id) w (accept_connection k user) =
        Reaches-query (λ u. lookup connection_key k u.connections) _ _ (λ _. there)
          λ d found. Reaches-raise_if (not (recipient_of d == user)) _ _ there λ owned.
            Reaches-if (is_accepted d.status) _ _ (λ _. Reaches-pure tt there)
              λ _.
                let other = other_of k d found (ground (arith, owned)) in
                Keeps-Reaches there (
                  in_transaction-Has _ id (accept_work k (recipient_of d))
                    (accept_work-Has _ id k (recipient_of d) λ now e q. ground (arith, q))) in
      run.reached

  reject_own : (k : ℕ) → Has (λ d. d ≡ c) id (reject_connection k user w).1
  unfolding reject_connection
  reject_own k =
      let run : Reaches (Has (λ d. d ≡ c) id) w (reject_connection k user) =
        Reaches-query (λ u. lookup connection_key k u.connections) _ _ (λ _. there)
          λ d found. Reaches-raise_if (not (recipient_of d == user)) _ _ there λ owned.
            Reaches-raise_if (is_accepted d.status) _ _ there λ waiting.
              let other = other_of k d found (ground (arith, owned)) in
              let key = lookup-key connection_key k w.connections d found in
              Keeps-Reaches there (
                in_transaction-Has _ id (reject_work d)
                  (reject_work-Has _ id d (λ same. other (sym key ∙ same)))) in
      run.reached

  -- A request of the user to anyone is not one to settle the connection.
  unsettled : (k b now t : ℕ) → accept_mutual (new_connection k user b user pending t) now c ≡ c
  unfolding new_connection
  unsettled k b now t = elim asked [
    | inl first ↦ ground (arith, apart)
    | inr second ↦ ground (arith, apart)
  ]

  send_own : (b : ℕ) → Has (λ d. d ≡ c) id (send_connection_request user b w).1
  send_own b =
      (send_connection_request-Has _ id user b λ k now t d q.
          ap (accept_mutual (new_connection k user b user pending t) now) q
          ∙ unsettled k b now t).kept
        w there

  -- A connection that one of its users has asked for stays as it is, whatever anyone but the other
  -- one does: whether they send a request to anybody, or accept or reject any connection.
  pub own_request_stands :
      (k b : ℕ)
      → Unchanged (send_connection_request user b w).1
        × Unchanged (accept_connection k user w).1
        × Unchanged (reject_connection k user w).1
  own_request_stands k b = (
    same_row (send_connection_request user b w).1 (send_own b),
    same_row (accept_connection k user w).1 (accept_own k),
    same_row (reject_connection k user w).1 (reject_own k),
  )
