-- ===== src/Skill/Workshops/Publication.antt =====
-- What `publishWorkshop` does, as its caller sees it.
use skill_stew_api.Prelude.{
  ℕ, suc, ◌≡◌, ◌∙◌, refl, sym, ap, subst, Bool, true, false, not, some, List, [], ◌∷◌, ◌++◌, String,
  arith, ◌==◌, length, filter, map, Option, none,
}
use skill_stew_api.Prelude.Table.{lookup, replace, lookup-key}
use skill_stew_api.Effect.{Result, ok, err, gets, ◌>>=◌}
use skill_stew_api.Effect.Rules.{Keeps-query, Keeps-raise_if, Keeps-gets}
use mathlib.Core.Path.{Path}
use skill_stew_api.Effect.Results.{ok_inj}
use skill_stew_api.Effect.Failing.{Undone, Undone-returns, Undone-after}
use skill_stew_api.Effect.Inversion.{
  query-eq-ok, raise_if-eq-ok, gets-eq-ok, >>=-eq-ok, transact-eq-ok, >>=-of-ok, transact-of-ok,
  or_raise-eq-ok,
}
use skill_stew_api.Skill.Text.{is_blank, lacks_words, trim}
use skill_stew_api.Skill.Workshop.{
  Workshop, Session, WorkshopStatus, draft, published, status_is, publish,
}
use skill_stew_api.Skill.World.{World, Error, OutboxEntry, pending, rollback, in_transaction}
use skill_stew_api.Skill.Repos.{workshop_key, save_workshop, insert_entry}
use skill_stew_api.Skill.Cohorts.{banner_url}
use skill_stew_api.Skill.Membership.{given_or}
use skill_stew_api.Skill.Workshops.{
  WorkshopResponse, untitled, validation_errors, is_nil, with_words, publish_work,
  to_workshop_response, publish_workshop,
}
use skill_stew_api.Skill.Workshops.Completeness.{IsComplete, validation_errors-IsComplete}

-- The texts of a list of optional ones that have more in them than white space.
abbrev pub text_of : Option String → String
text_of none = ""
text_of (some s) = s

abbrev pub has_words : String → Bool
has_words s = not (is_blank s)

abbrev pub worded : List (Option String) → List String
worded texts = filter has_words (map text_of texts)

-- The workshop as it is stored: published, under its trimmed title.
abbrev pub shown : Workshop → World → Workshop
shown x w = record x {
  title = trim x.title;
  status = published;
  created_at = x.created_at;
  updated_at = some w.now;
}

-- The entry of the outbox.
abbrev pub entry : Workshop → World → OutboxEntry
entry x w = record {
  id = w.next_id;
  payload = record {
    id = x.id;
    expert_id = x.expert_id;
    title = trim x.title;
    description = x.description;
    target_audience = x.target_audience;
    banner_image_key = x.banner_image_key;
    published_at = w.now;
    session_titles = worded (map (λ s. s.title) x.sessions);
    session_descriptions = worded (map (λ s. s.description) x.sessions);
  };
  status = pending;
  created_at = w.now;
}

abbrev pub publishing : Workshop → World → World
publishing x w = record w {
  next_id = suc w.next_id;
  workshops = replace workshop_key x.id (shown x w) w.workshops;
  outbox = w.outbox ++ entry x w ∷ [];
}

abbrev pub reply : String → Workshop → World → WorkshopResponse
reply cdn x w = record {
  workshop = shown x w;
  banner_image_url = banner_url cdn x.banner_image_key;
  created_at = given_or x.created_at w.now;
  updated_at = w.now;
}

blank_text : is_blank "" ≡ true
unfolding trim
blank_text = refl

with_words-worded : (texts : List (Option String)) → with_words texts ≡ worded texts
with_words-worded [] = refl
with_words-worded (none ∷ rest) = ground (arith, blank_text, with_words-worded rest)
with_words-worded (some s ∷ rest) = ground (arith, with_words-worded rest)

has_words_of : (o : Option String) → lacks_words o ≡ false → has_words (text_of o) ≡ true
has_words_of none h = absurd (ground arith)
has_words_of (some s) h = ground arith

-- Where every session has a title, the event has them all, in their order.
worded_all :
    (sessions : List Session)
    → length (filter untitled sessions) ≡ 0
    → worded (map (λ s. s.title) sessions) ≡ map (λ s. text_of s.title) sessions
worded_all [] h = refl
worded_all (s ∷ rest) h = ground (arith, has_words_of s.title, worded_all rest)

publish_work_lem :
    (x : Workshop) (w : World)
    → lookup workshop_key x.id w.workshops ≡ some x
    → publish_work x w.now w ≡ (ok (shown x w), publishing x w)
unfolding publish_work save_workshop insert_entry publish ◌>>=◌
publish_work_lem x w found = ground (
  arith,
  with_words-worded (map (λ s. s.title) x.sessions),
  with_words-worded (map (λ s. s.description) x.sessions),
)

answered :
    (cdn : String) (x : Workshop) (w : World)
    → to_workshop_response cdn w.now (shown x w) ≡ reply cdn x w
unfolding to_workshop_response
answered cdn x w = refl

status_is_draft : (s : WorkshopStatus) → not (status_is s draft) ≡ false → s ≡ draft
status_is_draft s h = ground arith

returned_inj :
    {A : Type 0} {a b : A} {u v : World}
    → Path (Result Error A × World) (ok a, u) (ok b, v)
    → (a ≡ b) × (u ≡ v)
returned_inj h = (ok_inj _ _ (ap (λ p. p.0) h), ap (λ p. p.1) h)

module _ (cdn : String) (id expert : ℕ) where
  -- What a publication that returns has found and done.
  pub record Published (w : World) (r : WorkshopResponse) (v : World) : Type 0 where
    pub workshop : Workshop
    pub found : lookup workshop_key id w.workshops ≡ some workshop
    pub owner : workshop.expert_id ≡ expert
    pub was_draft : workshop.status ≡ draft
    pub complete : IsComplete workshop
    pub state : v ≡ publishing workshop w
    pub titles :
        (entry workshop w).payload.session_titles ≡ map (λ s. text_of s.title) workshop.sessions
    pub response : r ≡ reply cdn workshop w

  -- A publication that returns was asked for by the expert of a draft with a title, a size, a time
  -- zone and titled sessions; it stores that workshop as published under its trimmed title, puts
  -- one event with its content and the titles of all its sessions in the outbox, and answers with
  -- what it has stored.
  pub publish_workshop-Published :
      (w v : World) (r : WorkshopResponse)
      → publish_workshop cdn id expert w ≡ (ok r, v)
      → Published w r v
  unfolding publish_workshop
  publish_workshop-Published w v r h =
      let (x, found, rest) = query-eq-ok (λ u. lookup workshop_key id u.workshops) _ _ w v r h in
      let (owned, h1) = raise_if-eq-ok (not (x.expert_id == expert)) _ _ w v r rest in
      let (fresh, h2) = raise_if-eq-ok (status_is x.status published) _ _ w v r h1 in
      let (drafted, h3) = raise_if-eq-ok (not (status_is x.status draft)) _ _ w v r h2 in
      let (complete, h4) = raise_if-eq-ok (not (is_nil (validation_errors x))) _ _ w v r h3 in
      let h5 = gets-eq-ok (λ u. u.now) _ w v r h4 in
      let (saved, u, ran, last) = >>=-eq-ok (in_transaction (publish_work x w.now)) _ w v r h5 in
      let worked = transact-eq-ok rollback (publish_work x w.now) w u saved ran in
      let key = lookup-key workshop_key id w.workshops x found in
      let here =
        publish_work_lem x w
          (subst (λ k. lookup workshop_key k w.workshops ≡ some x) (sym key) found) in
      let (as_saved, state) = returned_inj (sym worked ∙ here) in
      let (answer, end) = returned_inj last in
      record {
        workshop = x;
        found = found;
        owner = ground (arith, owned);
        was_draft = status_is_draft x.status drafted;
        complete = validation_errors-IsComplete x (ground (arith, complete));
        state = sym end ∙ state;
        titles =
            worded_all x.sessions
              (validation_errors-IsComplete x (ground (arith, complete))).titles;
        response =
            sym answer
            ∙ ap (to_workshop_response cdn u.now) as_saved
            ∙ ap (λ y. to_workshop_response cdn y.now (shown x w)) state
            ∙ answered cdn x w;
      }

  published_returns :
      (x : Workshop) (w : World)
      → lookup workshop_key x.id w.workshops ≡ some x
      → (in_transaction (publish_work x w.now) >>= λ saved.
            gets (λ u. to_workshop_response cdn u.now saved))
          w
        ≡ (ok (to_workshop_response cdn w.now (shown x w)), publishing x w)
  published_returns x w found =
      >>=-of-ok (in_transaction (publish_work x w.now)) _ w (publishing x w) (shown x w) (
        transact-of-ok rollback (publish_work x w.now) w (publishing x w) (shown x w)
          (publish_work_lem x w found))

  -- A publication that throws has written nothing.
  pub publish_workshop_failed :
      (w v : World) (e : Error) → publish_workshop cdn id expert w ≡ (err e, v) → v ≡ w
  unfolding publish_workshop
  publish_workshop_failed w v e h =
      let run : Undone w (publish_workshop cdn id expert) =
        Undone-after _ _ (Keeps-query _ _) λ x known. Undone-after _ _ (Keeps-raise_if _ _) λ _ _.
          Undone-after _ _ (Keeps-raise_if _ _) λ _ _. Undone-after _ _ (Keeps-raise_if _ _) λ _ _.
            Undone-after _ _ (Keeps-raise_if _ _) λ _ _. Undone-after _ _ (Keeps-gets _) λ t now.
              let found = or_raise-eq-ok (lookup workshop_key id w.workshops) _ w w x known in
              let key = lookup-key workshop_key id w.workshops x found in
              let at_key =
                subst (λ k. lookup workshop_key k w.workshops ≡ some x) (sym key) found in
              let clock : w.now ≡ t = ground arith in
              subst
                (λ y. Undone w (
                  in_transaction (publish_work x y) >>= λ saved.
                  gets (λ u. to_workshop_response cdn u.now saved)))
                clock (Undone-returns _ _ _ (published_returns x w at_key)) in
      run.undone e v h
