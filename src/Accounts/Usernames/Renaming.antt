-- ===== src/Accounts/Usernames/Renaming.antt =====
-- The filter through changes of user names, and what the check says then.
use skill_stew_api.Prelude.{
  ◌≡◌, refl, sym, ap, subst, inl, inr, ℕ, true, not, some, List, [], ◌∷◌, String, All, All-map,
  some_inj,
}
use skill_stew_api.Prelude.Table.{All-replace, lookup}
use skill_stew_api.Effect.{Result, ok, err, modify, ◌>>=◌, ◌>>◌}
use skill_stew_api.Effect.Ending.{kept_by, Ends-if, Ends-found}
use skill_stew_api.Effect.Failing.{query-failed, transact-failed}
use skill_stew_api.Effect.Rules.{
  Keeps, Keeps-bind, Keeps-query, Keeps-transact, Reaches, Reaches-gets, Reaches-if, Reaches-pure,
}
use skill_stew_api.Accounts.World.{AccountEvent, World, Error, not_found, fresh_id, rollback}
use skill_stew_api.Accounts.Repo.{
  is_some, user_key, find_by_username, UserChanges, changed_user, update_user, no_changes,
  announce_event, is_taken_name,
}
use skill_stew_api.Accounts.Usernames.{
  NameServices, Site, rename_work, rename_user, on_store, initialize_filter, is_available, add_name,
  renames, update_username,
}
use skill_stew_api.Accounts.Usernames.Filter.{
  Remembers, IsKnown, IsListed, is_available-listed, initialize_filter-IsListed,
}

abbrev naming : String → UserChanges
naming name = record no_changes { username = some name }

module _ {F : Type 0} (s : NameServices F) (g : F) (name : String)
    (known : s.has g name ≡ true) where
  -- Every user name of the table is in the filter `g`.
  record Knows (w : World) : Type 0 where
    knows : All (IsKnown s g) w.users

  update_user-Knows : (id : ℕ) → Keeps Knows (update_user id (naming name))
  unfolding update_user
  update_user-Knows id = kept_by λ w h.
      Ends-found (lookup user_key id w.users) _ _ (record { ends = h })
        λ old found.
          Ends-if (is_taken_name id (some name) w.users) _ _ (record { ends = h })
            (record {
              ends = record {
                knows =
                    All-replace user_key (IsKnown s g) id (changed_user w.now (naming name) old)
                      w.users (λ n same. subst (λ k. s.has g k ≡ true) (some_inj same) known)
                      h.knows;
              };
            })

  fresh_id-Knows : Keeps Knows fresh_id
  fresh_id-Knows = record { kept = λ w h. record { knows = h.knows } }

  announce_event-Knows : (e : AccountEvent) → Keeps Knows (announce_event e)
  unfolding announce_event
  announce_event-Knows e =
      Keeps-bind fresh_id _ fresh_id-Knows λ id. record { kept = λ w h. record { knows = h.knows } }

  rename_user-Knows : (id : ℕ) → Keeps Knows (rename_user id name)
  unfolding rename_user rename_work
  rename_user-Knows id = Keeps-bind _ _ (Keeps-query _ _) λ u.
      Keeps-transact rollback _
        (Keeps-bind _ _ (update_user-Knows u.id) λ x. announce_event-Knows _)
        λ v w start _. record { knows = start.knows }

-- A renaming that fails leaves the users as they were.
rename_user-failed :
    (id : ℕ) (name : String) (w v : World) (e : Error)
    → rename_user id name w ≡ (err e, v)
    → v.users ≡ w.users
unfolding rename_user
rename_user-failed id name w v e h =
    elim (query-failed (λ u. lookup user_key id u.users) not_found e _ w v h) [
      | inl same ↦ ap (λ u. u.users) same
      | inr (x, h') ↦ ap (λ u. u.users) (transact-failed rollback (rename_work x.id name) e w v h')
    ]

module _ {F : Type 0} (s : NameServices F) (r : Remembers s) where
  renamed-IsListed :
      (id : ℕ) (name : String) (site : Site F) (p : Result Error (Unit {0}) × World)
      → IsListed s site
      → rename_user id name site.store ≡ p
      → IsListed s
          (let y : Result Error (Unit {0}) × Site F =
              let (a, v) = p in
              elim a [
                | ok t ↦ (ok tt, add_name s name (record site { store = v }))
                | err e ↦ (err e, record site { store = v })
              ] in
            y).1
  renamed-IsListed id name site (ok t, v) h same =
      let g = s.add name site.filter in
      let start : Knows s g name (r.added site.filter name) site.store = record {
        knows = All-map (λ u k n e. r.kept site.filter name n (k n e)) site.store.users h.listed;
      } in
      record {
        listed =
            subst (λ q. All (IsKnown s g) q.1.users) same
              ((rename_user-Knows s g name (r.added site.filter name) id).kept site.store
                start).knows;
      }
  renamed-IsListed id name site (err e, v) h same = record {
    listed =
        subst (All (IsKnown s site.filter)) (sym (rename_user-failed id name site.store v e same))
          h.listed;
  }

  rename_step :
      (id : ℕ) (name : String) (site : Site F)
      → IsListed s site
      → Reaches (IsListed s) site (on_store (rename_user id name) >> modify (add_name s name))
  unfolding ◌>>=◌
  rename_step id name site h = record {
    reached = renamed-IsListed id name site (rename_user id name site.store) h refl;
  }

  pub update_username-IsListed :
      (id : ℕ) (raw : String) → Keeps (IsListed s) (update_username s id raw)
  unfolding update_username
  update_username-IsListed id raw = record {
    kept = λ site h.
        (Reaches-gets (is_available s (s.lower raw)) _ (
          Reaches-if (not (is_available s (s.lower raw) site)) _ _ (λ _. Reaches-pure tt h)
            (λ _. rename_step id (s.lower raw) site h))).reached;
  }

  renames-IsListed :
      (calls : List (ℕ × String)) (site : Site F)
      → IsListed s site
      → IsListed s (renames s calls site)
  renames-IsListed [] site h = h
  renames-IsListed ((id, raw) ∷ rest) site h =
      renames-IsListed rest _ ((update_username-IsListed id raw).kept site h)

  -- For a filter that never denies what was added: once it was filled at the start, and after any
  -- changes of user names, the check says that a name is available just if no user has it.
  pub is_available_exact :
      (calls : List (ℕ × String)) (site : Site F) (raw : String)
      → (let now : Site F = renames s calls (initialize_filter s site) in
          is_available s raw now ≡ not (is_some (find_by_username (s.lower raw) now.store.users)))
  is_available_exact calls site raw =
      is_available-listed s raw _ (renames-IsListed calls _ (initialize_filter-IsListed s r site))
