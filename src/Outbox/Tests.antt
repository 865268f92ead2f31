-- ===== src/Outbox/Tests.antt =====
-- An outbox with an event, a row of an unknown name and a payload that is refused.
use skill_stew_api.Prelude.{
  ℕ, ◌≡◌, refl, false, Option, none, some, [], ◌∷◌, String, ◌==◌, All, arith, if◌then◌else◌,
}
use skill_stew_api.Effect.{◌>>=◌}
use skill_stew_api.Outbox.{
  Row, World, payments_worker, Faults, pending, poll, poll_payments, poll_by, mark_row,
  publish_event, dispatch, handle_row, is_valid_event_name,
}
use skill_stew_api.Outbox.Delivery.{HasPublished, start, next, polls, History-HasPublished}
use skill_stew_api.Outbox.Draining.{Works, polls_at}
use skill_stew_api.Outbox.Liveness.{AllSent, polls_at-AllSent}

-- The schema accepts the payloads above 10.
abbrev parse : String → ℕ → Option ℕ
parse name payload = if payload == 5 then none else some payload

abbrev name_of : ℕ → String
name_of id = if id == 2 then "payment.lost" else "payment.failed"

abbrev content_of : ℕ → ℕ
content_of id = if id == 3 then 5 else 40

abbrev row : ℕ → ℕ → Row ℕ
row id time = record {
  id = id;
  event_name = name_of id;
  payload = content_of id;
  status = pending;
  created_at = time;
  processed_at = none;
}

abbrev filled : World ℕ ℕ
filled = record {
  now = 100;
  next_id = 0;
  rows = row 1 30 ∷ row 2 10 ∷ row 3 20 ∷ [];
  published = [];
}

-- The channel is closed at first.
abbrev faults : Faults
faults = record {
  fetch_fails = λ t. false;
  publish_fails = λ id t. t == 100;
  update_fails = λ id t. false;
}

abbrev after : World ℕ ℕ
after = (poll payments_worker parse faults filled).1

sound : HasPublished parse name_of content_of filled
sound = record {
  contents = ((refl, refl), ((refl, refl), ((refl, refl), tt)));
  deliveries = (λ done. cc, (λ done. cc, (λ done. cc, tt)));
}

faults-Works : (t : ℕ) → (t == 100) ≡ false → Works faults t
faults-Works t h = record { fetching = refl; publishing = λ id. h; updating = λ id. refl }

History-HasPublished_example : HasPublished parse name_of content_of after
History-HasPublished_example =
    History-HasPublished parse name_of content_of faults (next start (polls filled)) sound

polls_at-AllSent_example :
    AllSent parse name_of content_of filled
      (polls_at parse faults payments_worker (101 ∷ 102 ∷ 103 ∷ []) filled)
polls_at-AllSent_example =
    polls_at-AllSent parse faults name_of content_of payments_worker (101 ∷ 102 ∷ 103 ∷ []) filled
      sound works (omega arith)
  where
    works : All (Works faults) (101 ∷ 102 ∷ 103 ∷ [])
    works = (faults-Works 101 refl, (faults-Works 102 refl, (faults-Works 103 refl, tt)))

-- The first poll settles what is not an event and leaves the event for the second.
runs :
    (after.published ≡ [])
    × ((poll payments_worker parse faults (record after { now = 105 })).1.published
        ≡ record {
          event_id = 1;
          event_name = "payment.failed";
          timestamp = 105;
          producer = "payments-service";
          body = 40;
        }
          ∷ [])
unfolding poll poll_payments poll_by mark_row publish_event dispatch handle_row is_valid_event_name
    ◌>>=◌
runs = (refl, refl)
