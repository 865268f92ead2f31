-- ===== src/Outbox/Delivery.antt =====
-- No row of an outbox with an event that a worker accepts is marked before that event is published,
-- whatever fails.
use skill_stew_api.Prelude.{
  ℕ, ◌≡◌, refl, sym, subst, ◌⊎◌, inl, inr, Bool, true, false, Option, none, some, List, [], ◌∷◌,
  String, ◌==◌, take, if◌then◌else◌, if_rule, All, All-map, All-filter, All-take, All-image,
  All-append, ◌+◌, ◌++◌, arith, ==_iff, some_inj, ◌∙◌,
}
use skill_stew_api.Prelude.Sorting.{All-sort}
use skill_stew_api.Effect.{Result, ok, err, ◌>>=◌, ◌>>◌, for_each, raise_if}
use skill_stew_api.Effect.Rules.{Keeps, Keeps-for_each_where}
use skill_stew_api.Outbox.{
  Row, AppEvent, World, Failure, channel_failed, database_failed, Worker, payments_worker,
  users_worker, skills_worker, poll, Faults, is_unsent, pending_rows, oldest_pending, older, mark,
  event_names, is_valid_event_name, mark_row, publish_event, dispatch, handle_row, poll_by,
  poll_payments, poll_users, poll_skills, pending_fetch_limit,
}

abbrev pub Exists : {A : Type 0} → (A → Type 0) → List A → Type 0
Exists P [] = ⊥
Exists P (x ∷ xs) = P x ⊎ Exists P xs

module _ {Payload Data : Type 0} (safe_parse : String → Payload → Option Data) where
  -- What a worker reads from a name and a payload.
  abbrev pub accepted : String → Payload → Option Data
  accepted name payload =
      if is_valid_event_name event_names name then safe_parse name payload else none

  -- `names` and `payloads` say what the rows with an id hold.
  module _ (names : ℕ → String) (payloads : ℕ → Payload) where
    abbrev pub Announces : ℕ → Data → AppEvent Data → Type 0
    Announces id body e = (e.event_name ≡ names id) × (e.body ≡ body)

    -- An event with the content of the row has been published, if a worker accepts that.
    abbrev pub IsSent : List (AppEvent Data) → ℕ → Type 0
    IsSent es id =
        (body : Data)
        → accepted (names id) (payloads id) ≡ some body
        → Exists (Announces id body) es

    abbrev pub HasContent : Row Payload → Type 0
    HasContent r = (r.event_name ≡ names r.id) × (r.payload ≡ payloads r.id)

    abbrev pub IsDelivered : List (AppEvent Data) → Row Payload → Type 0
    IsDelivered es r = is_unsent r ≡ false → IsSent es r.id

    pub record HasPublished (w : World Payload Data) : Type 0 where
      pub contents : All HasContent w.rows
      pub deliveries : All (IsDelivered w.published) w.rows

    mark-HasContent : (id now : ℕ) (r : Row Payload) → HasContent r → HasContent (mark id now r)
    mark-HasContent id now r h = if_rule HasContent (r.id == id) _ _ (λ _. h) (λ _. h)

    mark-IsDelivered :
        (es : List (AppEvent Data)) (id now : ℕ)
        → IsSent es id
        → (r : Row Payload) → IsDelivered es r
        → IsDelivered es (mark id now r)
    mark-IsDelivered es id now sent r h =
        if_rule (IsDelivered es) (r.id == id) _ _
          (λ e _. subst (IsSent es) (sym ((==_iff r.id id).0 e)) sent) (λ _. h)

    published-IsDelivered :
        (es : List (AppEvent Data)) (e : AppEvent Data) (r : Row Payload)
        → IsDelivered es r
        → IsDelivered (e ∷ es) r
    published-IsDelivered es e r h done body known = inr (h done body known)

    module _ (faults : Faults) where
      mark_row-HasPublished :
          (id : ℕ) (w : World Payload Data)
          → IsSent w.published id
          → HasPublished w
          → HasPublished (mark_row faults id w).1
      unfolding mark_row
      mark_row-HasPublished id w sent s =
          if_rule {A = Result Failure (Unit {0}) × World Payload Data} (λ p. HasPublished p.1)
            (faults.update_fails id w.now) _ _ (λ _. s)
            (λ _. record {
              contents =
                  All-image HasContent (mark id w.now) (mark-HasContent id w.now) w.rows s.contents;
              deliveries =
                  All-image (IsDelivered w.published) (mark id w.now)
                    (mark-IsDelivered w.published id w.now sent) w.rows s.deliveries;
            })

      send_step :
          (fails : Bool) (id : ℕ) (e : AppEvent Data) (w : World Payload Data)
          → IsSent (e ∷ w.published) id
          → HasPublished w
          → HasPublished
              (((λ u.
                    if fails
                    then (err channel_failed, u)
                    else (ok tt, record u { published = e ∷ u.published }))
                  >> mark_row faults id)
                w).1
      unfolding ◌>>=◌
      send_step true id e w sent s = s
      send_step false id e w sent s =
          mark_row-HasPublished id (record w { published = e ∷ w.published }) sent
            (record {
              contents = s.contents;
              deliveries = All-map (published-IsDelivered w.published e) w.rows s.deliveries;
            })

      -- The row is marked only where the channel has taken the event.
      send-HasPublished :
          (id : ℕ) (e : AppEvent Data) (w : World Payload Data)
          → IsSent (e ∷ w.published) id
          → HasPublished w
          → HasPublished ((publish_event faults id e >> mark_row faults id) w).1
      unfolding publish_event ◌>>=◌
      send-HasPublished id e w = send_step (faults.publish_fails id w.now) id e w

      module _ (producer : String) where
        unaccepted-IsSent :
            (es : List (AppEvent Data)) (id : ℕ)
            → accepted (names id) (payloads id) ≡ none
            → IsSent es id
        unaccepted-IsSent es id h body known = absurd (ground (arith, h, known))

        dispatch-Keeps :
            (r : Row Payload) (o : Option Data)
            → HasContent r
            → accepted (names r.id) (payloads r.id) ≡ o
            → Keeps HasPublished (dispatch safe_parse faults producer r o)
        unfolding dispatch ◌>>=◌
        dispatch-Keeps r none h e = record {
          kept = λ w. mark_row-HasPublished r.id w (unaccepted-IsSent w.published r.id e);
        }
        dispatch-Keeps r (some body) h e = record {
          kept = λ w s.
              send-HasPublished r.id _ _ (λ b known. inl (h.0, some_inj (sym e ∙ known)))
                (record { contents = s.contents; deliveries = s.deliveries });
        }

        known :
            (r : Row Payload)
            → HasContent r
            → is_valid_event_name event_names r.event_name ≡ true
            → accepted (names r.id) (payloads r.id) ≡ safe_parse r.event_name r.payload
        known r (h, k) e = rw (← h, ← k, e) refl

        unknown :
            (r : Row Payload)
            → HasContent r
            → is_valid_event_name event_names r.event_name ≡ false
            → accepted (names r.id) (payloads r.id) ≡ none
        unknown r (h, k) e = rw (← h, ← k, e) refl

        handle_row-Keeps :
            (r : Row Payload)
            → HasContent r
            → Keeps HasPublished (handle_row safe_parse faults producer r)
        unfolding handle_row
        handle_row-Keeps r h =
            if_rule (Keeps HasPublished) (is_valid_event_name event_names r.event_name) _ _
              (λ e. dispatch-Keeps r (safe_parse r.event_name r.payload) h (known r h e))
              (λ e. record {
                kept = λ w.
                    mark_row-HasPublished r.id w
                      (unaccepted-IsSent w.published r.id (unknown r h e));
              })

        poll_step :
            (fails : Bool) (rows : List (Row Payload)) (w : World Payload Data)
            → All HasContent rows
            → HasPublished w
            → HasPublished
                ((raise_if fails database_failed
                    >> for_each (handle_row safe_parse faults producer) rows)
                  w).1
        unfolding ◌>>=◌
        poll_step true rows w h s = s
        poll_step false rows w h s =
            (Keeps-for_each_where _ rows (All-map handle_row-Keeps rows h)).kept w s

        -- A poll, by a query that gives rows of the table.
        pub poll_by-HasPublished :
            (fetch : List (Row Payload) → List (Row Payload))
            → ((rows : List (Row Payload)) → All HasContent rows → All HasContent (fetch rows))
            → (w : World Payload Data) → HasPublished w
            → HasPublished (poll_by safe_parse faults producer fetch w).1
        unfolding poll_by ◌>>=◌
        poll_by-HasPublished fetch some_of w s =
            poll_step (faults.fetch_fails w.now) (take pending_fetch_limit (fetch w.rows)) w
              (All-take HasContent pending_fetch_limit (fetch w.rows) (some_of w.rows s.contents)) s

      -- Each worker, whatever fails.
      pub poll-HasPublished :
          (k : Worker) (w : World Payload Data)
          → HasPublished w
          → HasPublished (poll k safe_parse faults w).1
      unfolding poll poll_payments poll_users poll_skills
      poll-HasPublished payments_worker =
          poll_by-HasPublished "payments-service" pending_rows (All-filter HasContent is_unsent)
      poll-HasPublished users_worker =
          poll_by-HasPublished "user-service" pending_rows (All-filter HasContent is_unsent)
      poll-HasPublished skills_worker =
          poll_by-HasPublished "skill-service" oldest_pending
            (λ rows h. All-sort HasContent older _ (All-filter HasContent is_unsent rows h))

      -- The events of one outbox: its service adds rows, its worker polls, and time passes.
      pub data Step (k : Worker) : World Payload Data → World Payload Data → Type 0 where
        polls : (w : World Payload Data) → Step k w (poll k safe_parse faults w).1
        waits : (w : World Payload Data) (d : ℕ) → Step k w (record w { now = w.now + d })
        adds :
            (w : World Payload Data) (r : Row Payload)
            → is_unsent r ≡ true
            → HasContent r
            → Step k w (record w { rows = w.rows ++ r ∷ [] })

      pub data History (k : Worker) (w : World Payload Data) : World Payload Data → Type 0 where
        start : History k w w
        next : {u v : World Payload Data} → History k w u → Step k u v → History k w v

      Step-HasPublished :
          {k : Worker} {u v : World Payload Data} → Step k u v → HasPublished u → HasPublished v
      Step-HasPublished {k} (polls w) s = poll-HasPublished k w s
      Step-HasPublished (waits w d) s = record { contents = s.contents; deliveries = s.deliveries }
      Step-HasPublished (adds w r fresh h) s = record {
        contents = All-append HasContent w.rows (r ∷ []) s.contents (h, tt);
        deliveries =
            All-append (IsDelivered w.published) w.rows (r ∷ []) s.deliveries
              ((λ done. absurd (ground (arith, fresh, done))), tt);
      }

      -- Where the ids of rows determine their names and payloads and each marked row that a worker
      -- accepts has had its event published, that stays so, whatever fails and however additions and
      -- polls follow one another. Of rows that no worker accepts it says nothing.
      pub History-HasPublished :
          {k : Worker} {u v : World Payload Data} → History k u v → HasPublished u → HasPublished v
      History-HasPublished start s = s
      History-HasPublished (next h st) s = Step-HasPublished st (History-HasPublished h s)
