-- ===== src/Outbox/Draining.antt =====
-- A worker whose polls meet no failure empties the outbox.
use skill_stew_api.Prelude.{
  ℕ, suc, ◌-◌, ◌≤◌, ◌≡◌, refl, sym, subst, ap, Bool, true, false, ◌&&◌, Option, none, some, List,
  [], ◌∷◌, map, String, ◌==◌, take, All, All-map, All-zip, All-filter, All-filter_of, length,
  length-filter, count, arith, Bool-cases, inl, inr,
}
use skill_stew_api.Prelude.Sorting.{count-sort, All-sort}
use skill_stew_api.Effect.{Result, ok, ◌>>=◌, for_each}
use skill_stew_api.Effect.Inversion.{>>=-of-ok}
use skill_stew_api.Outbox.{
  Row, AppEvent, World, Worker, payments_worker, users_worker, skills_worker, poll, poll_payments,
  poll_users, poll_skills, older, Faults, is_unsent, pending_rows, oldest_pending, mark, mark_row,
  publish_event, dispatch, handle_row, poll_by, event_names, is_valid_event_name, Failure,
  pending_fetch_limit,
}

-- Nothing fails at a time.
pub record Works (faults : Faults) (t : ℕ) : Type 0 where
  pub fetching : faults.fetch_fails t ≡ false
  pub publishing : (id : ℕ) → faults.publish_fails id t ≡ false
  pub updating : (id : ℕ) → faults.update_fails id t ≡ false

module _ {Payload : Type 0} where
  -- A row with the id that is still to be published.
  abbrev is_open : ℕ → Row Payload → Bool
  is_open id r = r.id == id && is_unsent r

  count-mark-le :
      (id now : ℕ) (rows : List (Row Payload))
      → count is_unsent (map (mark id now) rows) ≤ count is_unsent rows
  count-mark-le id now [] = omega arith
  count-mark-le id now (r ∷ rows) = ground (arith, count-mark-le id now rows)

  count-mark-lt :
      (id now : ℕ) (rows : List (Row Payload))
      → 1 ≤ count (is_open id) rows
      → suc (count is_unsent (map (mark id now) rows)) ≤ count is_unsent rows
  count-mark-lt id now [] h = absurd (omega arith)
  count-mark-lt id now (r ∷ rows) h =
      ground (arith, count-mark-le id now rows, count-mark-lt id now rows)

  -- The rows that a worker reads are open, and it reads one while there is one.
  abbrev AreOpen : List (Row Payload) → List (Row Payload) → Type 0
  AreOpen rows = All (λ q. 1 ≤ count (is_open q.id) rows)

  pending_self :
      (rows : List (Row Payload))
      → All (λ q. is_unsent q ≡ true → 1 ≤ count (is_open q.id) rows) rows
  pending_self [] = tt
  pending_self (r ∷ rows) = (
    λ h. ground (arith, h),
    All-map (λ q below h. omega (arith, below h)) rows (pending_self rows),
  )

  pending_rows-AreOpen : (rows : List (Row Payload)) → AreOpen rows (pending_rows rows)
  pending_rows-AreOpen rows =
      All-zip (λ q h k. k h) (pending_rows rows)
        (All-filter_of (λ q. is_unsent q ≡ true) is_unsent rows (λ q h. h))
        (All-filter _ is_unsent rows (pending_self rows))

  pending_rows-none :
      (rows : List (Row Payload)) → pending_rows rows ≡ [] → count is_unsent rows ≡ 0
  pending_rows-none rows h =
      omega (arith, length-filter is_unsent rows, ap (length {A = Row Payload}) h)

  count-both :
      (rows : List (Row Payload)) → count is_unsent rows ≤ count is_unsent (pending_rows rows)
  count-both [] = omega arith
  count-both (r ∷ rows) = ground (arith, count-both rows)

  oldest_pending-none :
      (rows : List (Row Payload)) → oldest_pending rows ≡ [] → count is_unsent rows ≡ 0
  oldest_pending-none rows h = omega (
    arith,
    count-both rows,
    count-sort older is_unsent (pending_rows rows),
    ap (count is_unsent) h,
  )

  module _ {Data : Type 0} (safe_parse : String → Payload → Option Data) (faults : Faults)
      (producer : String) where
    record Handled (id : ℕ) (w : World Payload Data)
        (p : Result Failure (Unit {0}) × World Payload Data) : Type 0 where
      pub returned : p.0 ≡ ok tt
      pub rows : p.1.rows ≡ map (mark id w.now) w.rows
      pub now : p.1.now ≡ w.now

    mark_row-Handled :
        (id : ℕ) (w : World Payload Data) → Works faults w.now → Handled id w (mark_row faults id w)
    unfolding mark_row
    mark_row-Handled id w ok_now = ground (arith, ok_now.updating id)

    publish_event_lem :
        (id : ℕ) (e : AppEvent Data) (w : World Payload Data)
        → Works faults w.now
        → publish_event faults id e w ≡ (ok tt, record w { published = e ∷ w.published })
    unfolding publish_event
    publish_event_lem id e w h = rw (h.publishing id) refl

    dispatch-Handled :
        (r : Row Payload) (o : Option Data) (w : World Payload Data)
        → Works faults w.now
        → Handled r.id w (dispatch safe_parse faults producer r o w)
    unfolding dispatch ◌>>=◌
    dispatch-Handled r none w h = mark_row-Handled r.id w h
    dispatch-Handled r (some body) w h =
        let e : AppEvent Data = record {
          event_id = w.next_id;
          event_name = r.event_name;
          timestamp = w.now;
          producer = producer;
          body = body;
        } in
        let u : World Payload Data = record w { next_id = suc w.next_id } in
        let v : World Payload Data = record u { published = e ∷ w.published } in
        subst (λ p. Handled r.id w (ok tt, p.1))
          (sym (
            >>=-of-ok (publish_event faults r.id e) (λ _. mark_row faults r.id) u v tt
              (publish_event_lem r.id e u h)))
          (let done = mark_row-Handled r.id v h in
            record { returned = refl; rows = done.rows; now = done.now })

    handle_row-Handled :
        (r : Row Payload) (w : World Payload Data)
        → Works faults w.now
        → Handled r.id w (handle_row safe_parse faults producer r w)
    unfolding handle_row
    handle_row-Handled r w h = elim (Bool-cases (is_valid_event_name event_names r.event_name)) [
      | inl e ↦ rw e (dispatch-Handled r (safe_parse r.event_name r.payload) w h)
      | inr e ↦ rw e (mark_row-Handled r.id w h)
    ]

    abbrev handled : Row Payload → World Payload Data → World Payload Data
    handled r w = (handle_row safe_parse faults producer r w).1

    abbrev batch : List (Row Payload) → World Payload Data → World Payload Data
    batch rs w = (for_each (handle_row safe_parse faults producer) rs w).1

    batch-cons :
        (r : Row Payload) (rs : List (Row Payload)) (w : World Payload Data)
        → Works faults w.now
        → batch (r ∷ rs) w ≡ batch rs (handled r w)
    batch-cons r rs w h =
        ap (λ p. p.1)
          (>>=-of-ok (handle_row safe_parse faults producer r) _ w (handled r w) tt
            (ap (λ a. (a, handled r w)) (handle_row-Handled r w h).returned))

    handled-Works :
        (r : Row Payload) (w : World Payload Data)
        → Works faults w.now
        → Works faults (handled r w).now
    handled-Works r w h = subst (Works faults) (sym (handle_row-Handled r w h).now) h

    -- The rest of a batch opens nothing again.
    batch-le :
        (rs : List (Row Payload)) (w : World Payload Data)
        → Works faults w.now
        → count is_unsent (batch rs w).rows ≤ count is_unsent w.rows
    batch-le [] w h = omega arith
    batch-le (r ∷ rs) w h = omega (
      arith,
      ap (λ v. count is_unsent v.rows) (batch-cons r rs w h),
      batch-le rs (handled r w) (handled-Works r w h),
      ap (count is_unsent) (handle_row-Handled r w h).rows,
      count-mark-le r.id w.now w.rows,
    )

    batch-lt :
        (r : Row Payload) (rs : List (Row Payload)) (w : World Payload Data)
        → Works faults w.now
        → 1 ≤ count (is_open r.id) w.rows
        → suc (count is_unsent (batch (r ∷ rs) w).rows) ≤ count is_unsent w.rows
    batch-lt r rs w h open_row = omega (
      arith,
      ap (λ v. count is_unsent v.rows) (batch-cons r rs w h),
      batch-le rs (handled r w) (handled-Works r w h),
      ap (count is_unsent) (handle_row-Handled r w h).rows,
      count-mark-lt r.id w.now w.rows open_row,
    )

    fetched-lt :
        (qs : List (Row Payload)) (w : World Payload Data)
        → Works faults w.now
        → AreOpen w.rows qs
        → (qs ≡ [] → count is_unsent w.rows ≡ 0)
        → count is_unsent (batch (take pending_fetch_limit qs) w).rows ≤ count is_unsent w.rows - 1
    fetched-lt [] w h opens none_left = omega (arith, none_left refl)
    fetched-lt (q ∷ qs) w h (first, opens) none_left =
        omega (arith, batch-lt q (take 19 qs) w h first)

    poll_by-lt :
        (fetch : List (Row Payload) → List (Row Payload)) (w : World Payload Data)
        → Works faults w.now
        → AreOpen w.rows (fetch w.rows)
        → (fetch w.rows ≡ [] → count is_unsent w.rows ≡ 0)
        → count is_unsent (poll_by safe_parse faults producer fetch w).1.rows
          ≤ count is_unsent w.rows - 1
    unfolding poll_by ◌>>=◌
    poll_by-lt fetch w h opens none_left =
        rw h.fetching (fetched-lt (fetch w.rows) w h opens none_left)

module _ {Payload Data : Type 0} (safe_parse : String → Payload → Option Data)
    (faults : Faults) where
  -- A poll without a failure publishes a row if one is pending.
  poll-lt :
      (k : Worker) (w : World Payload Data)
      → Works faults w.now
      → count is_unsent (poll k safe_parse faults w).1.rows ≤ count is_unsent w.rows - 1
  unfolding poll poll_payments poll_users poll_skills
  poll-lt payments_worker w h =
      poll_by-lt safe_parse faults "payments-service" pending_rows w h (pending_rows-AreOpen w.rows)
        (pending_rows-none w.rows)
  poll-lt users_worker w h =
      poll_by-lt safe_parse faults "user-service" pending_rows w h (pending_rows-AreOpen w.rows)
        (pending_rows-none w.rows)
  poll-lt skills_worker w h =
      poll_by-lt safe_parse faults "skill-service" oldest_pending w h
        (All-sort _ older (pending_rows w.rows) (pending_rows-AreOpen w.rows))
        (oldest_pending-none w.rows)

  -- Polls at the given times.
  abbrev pub polls_at : Worker → List ℕ → World Payload Data → World Payload Data
  polls_at k [] w = w
  polls_at k (t ∷ ts) w = polls_at k ts (poll k safe_parse faults (record w { now = t })).1

  pub polls_at-none :
      (k : Worker) (ts : List ℕ) (w : World Payload Data)
      → All (Works faults) ts
      → count is_unsent w.rows ≤ length ts
      → count is_unsent (polls_at k ts w).rows ≡ 0
  polls_at-none k [] w h few = omega arith
  polls_at-none k (t ∷ ts) w (first, h) few =
      polls_at-none k ts (poll k safe_parse faults (record w { now = t })).1 h
        (omega (arith, poll-lt k (record w { now = t }) first))
