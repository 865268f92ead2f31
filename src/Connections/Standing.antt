-- ===== src/Connections/Standing.antt =====
-- What the use cases leave of a connection that stands.
use skill_stew_api.Prelude.{
  ℕ, ◌≡◌, ◌≢◌, ◌∙◌, refl, some, [], ◌∷◌, ◌++◌, if_rule, map, find, arith, ◌==◌, inl, inr,
  Option-cases,
}
use skill_stew_api.Prelude.Table.{lookup, lookup-append, lookup-map, lookup-filter}
use skill_stew_api.Effect.{Result}
use skill_stew_api.Effect.Rules.{
  Keeps, keeps_rules, Keeps-bind, Keeps-gets, Keeps-raise_if, Keeps-transact,
}
use skill_stew_api.Connections.World.{
  UserConnection, pending, new_connection, OutboxRow, ConnectionEvent, World, Error, Action,
  rollback, fresh_id, in_transaction,
}
use skill_stew_api.Connections.Repo.{
  connection_key, is_pair, accept_mutual, accept_by_id, has_other_id, upsert, accept_connection_row,
  delete_connection, insert_outbox,
}
use skill_stew_api.Connections.UseCases.{
  announce, announce_saved, send_work, send_connection_request, accept_work, reject_work,
}

-- A connection with `Q` stands under `id`.
abbrev pub Has : (UserConnection → Type 0) → ℕ → World → Type 0
Has Q id w = (c : UserConnection) × (lookup connection_key id w.connections ≡ some c) × Q c

module _ (Q : UserConnection → Type 0) (id : ℕ) where
  insert_outbox-Has : (e : OutboxRow) → Keeps (Has Q id) (insert_outbox e)
  unfolding insert_outbox
  insert_outbox-Has e = record { kept = λ w h. h }

  fresh_id-Has : Keeps (Has Q id) fresh_id
  fresh_id-Has = record { kept = λ w h. h }

  announce-Has : (e : ConnectionEvent) → Keeps (Has Q id) (announce e)
  unfolding announce
  announce-Has e =
      Keeps-bind fresh_id _ fresh_id-Has
        λ k. Keeps-bind _ _ (Keeps-gets _) λ now. insert_outbox-Has _

  announce_saved-Has : (a b : ℕ) (c : UserConnection) → Keeps (Has Q id) (announce_saved a b c)
  unfolding announce_saved
  announce_saved-Has a b c = search (keeps_rules, announce-Has) depth 16

  delete_other-Has : (k : ℕ) → k ≢ id → Keeps (Has Q id) (delete_connection k)
  unfolding delete_connection
  delete_other-Has k other = record {
    kept = λ w h.
        let (c, found, q) = h in
        (
          c,
          lookup-filter connection_key (has_other_id k) id w.connections c (λ x same. ground arith)
              found,
          q,
        );
  }

  mapped-Has :
      (f : UserConnection → UserConnection) (w : World)
      → ((c : UserConnection) → (f c).id ≡ c.id)
      → ((c : UserConnection) → Q c → Q (f c))
      → Has Q id w
      → Has Q id (record w { connections = map f w.connections })
  mapped-Has f w same keeps (c, found, q) =
      (f c, lookup-map connection_key f id w.connections c same found, keeps c q)

  accept_connection_row-Has :
      (k : ℕ)
      → ((now : ℕ) (c : UserConnection) → Q c → Q (accept_by_id k now c))
      → Keeps (Has Q id) (accept_connection_row k)
  unfolding accept_connection_row
  accept_connection_row-Has k keeps = record {
    kept = λ w h. elim (Option-cases (lookup connection_key k w.connections)) [
      | inl gone ↦ rw (gone, accept_connection_row) h
      | inr (old, found) ↦
          rw (found, accept_connection_row)
            (mapped-Has (accept_by_id k w.now) w (λ c. ground arith) (keeps w.now) h)
    ];
  }

  appended-Has :
      (n : UserConnection) (w : World)
      → Has Q id w
      → Has Q id (record w { connections = w.connections ++ n ∷ [] })
  appended-Has n w (c, found, q) =
      (c, lookup-append connection_key id w.connections _ ∙ rw found refl, q)

  upsert-Has :
      (n : UserConnection)
      → ((now : ℕ) (c : UserConnection) → Q c → Q (accept_mutual n now c))
      → Keeps (Has Q id) (upsert n)
  unfolding upsert
  upsert-Has n keeps = record {
    kept = λ w h. elim (Option-cases (find (is_pair n.user_id_1 n.user_id_2) w.connections)) [
      | inl new ↦ rw (new, upsert) (if_rule (Has Q id) _ _ _ (λ _. appended-Has n w h) (λ _. h))
      | inr (old, found) ↦
          rw (found, upsert)
            (if_rule (λ (p : Result Error UserConnection × World). Has Q id p.1)
              (old.requester_id == n.requester_id) _ _ (λ _. h)
              (λ _. mapped-Has (accept_mutual n w.now) w (λ c. ground arith) (keeps w.now) h))
    ];
  }

  send_work-Has :
      (n : UserConnection) (a b : ℕ)
      → ((now : ℕ) (c : UserConnection) → Q c → Q (accept_mutual n now c))
      → Keeps (Has Q id) (send_work n a b)
  unfolding send_work
  send_work-Has n a b keeps =
      Keeps-bind (upsert n) _ (upsert-Has n keeps) λ saved. search (keeps_rules, announce_saved-Has)

  -- A transaction that goes back leaves the connections as they were.
  pub in_transaction-Has :
      {A : Type 0} (m : Action A) → Keeps (Has Q id) m → Keeps (Has Q id) (in_transaction m)
  in_transaction-Has m h = Keeps-transact rollback m h (λ u v p q. p)

  pub accept_work-Has :
      (k user : ℕ)
      → ((now : ℕ) (c : UserConnection) → Q c → Q (accept_by_id k now c))
      → Keeps (Has Q id) (accept_work k user)
  unfolding accept_work
  accept_work-Has k user keeps =
      Keeps-bind (accept_connection_row k) _ (accept_connection_row-Has k keeps)
        λ saved. search (keeps_rules, announce-Has) depth 16

  pub reject_work-Has : (c : UserConnection) → c.id ≢ id → Keeps (Has Q id) (reject_work c)
  unfolding reject_work
  reject_work-Has c other =
      Keeps-bind (delete_connection c.id) _ (delete_other-Has c.id other)
        λ _. search (keeps_rules, announce-Has) depth 16

  pub send_connection_request-Has :
      (a b : ℕ)
      → ((k now t : ℕ) (c : UserConnection)
          → Q c
          → Q (accept_mutual (new_connection k a b a pending t) now c))
      → Keeps (Has Q id) (send_connection_request a b)
  unfolding send_connection_request
  send_connection_request-Has a b keeps = Keeps-bind _ _ (Keeps-raise_if _ _) λ _.
      Keeps-bind fresh_id _ fresh_id-Has λ k. Keeps-bind _ _ (Keeps-gets _) λ t.
        in_transaction-Has _
          (send_work-Has (new_connection k a b a pending t) a b (λ now. keeps k now t))
