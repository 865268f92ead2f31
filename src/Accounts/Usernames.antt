-- ===== src/Accounts/Usernames.antt =====
-- user/src/application/use-cases/common and internal: user names and the Bloom filter before them.
-- The filter's library and the lower case of text are parameters.
pub mod Filter
pub mod Renaming
use skill_stew_api.Prelude.{
  ℕ, Bool, true, false, not, Option, none, some, List, [], ◌∷◌, String, if◌then◌else◌,
}
use skill_stew_api.Effect.{Result, Run, ok, err, pure, gets, modify, ◌>>=◌, ◌>>◌}
use skill_stew_api.Accounts.World.{User, profile_updated, World, Error, Action, in_transaction}
use skill_stew_api.Accounts.Repo.{
  is_some, find_by_username, get_user, update_user, no_changes, announce_event,
}

pub record NameServices (F : Type 0) : Type 0 where
  pub has : F → String → Bool
  pub add : String → F → F
  pub lower : String → String

-- The tables, and the filter of the process.
pub record Site (F : Type 0) : Type 0 where
  pub store : World
  pub filter : F

abbrev pub names_of : Option String → List String → List String
names_of none ns = ns
names_of (some n) ns = n ∷ ns

-- `getAllUsernames`
abbrev pub get_all_usernames : List User → List String
get_all_usernames [] = []
get_all_usernames (u ∷ us) = names_of u.username (get_all_usernames us)

-- The work of `UpdateUsername` on the tables
unfoldable pub rename_work : ℕ → String → Action (Unit {0})
rename_work id name = do
  updated ← update_user id (record no_changes { username = some name })
  announce_event (
      profile_updated (record {
        id = updated.id;
        username = updated.username;
        name = none;
        languages = none;
        location = none;
        avatar_key = none;
      }))

unfoldable pub rename_user : ℕ → String → Action (Unit {0})
rename_user id name = do u ← get_user id; in_transaction (rename_work u.id name)

abbrev pub on_store : {F A : Type 0} → Action A → Run (Site F) Error A
on_store m s = let (r, w) = m s.store in (r, record s { store = w })

module _ {F : Type 0} (s : NameServices F) where
  abbrev pub add_all : List String → F → F
  add_all [] f = f
  add_all (n ∷ ns) f = add_all ns (s.add n f)

  -- `InitializeUsernameBloomfilter`
  abbrev pub initialize_filter : Site F → Site F
  initialize_filter site = record site {
    filter = add_all (get_all_usernames site.store.users) site.filter;
  }

  -- `CheckUsernameAvailability`
  abbrev pub is_available : String → Site F → Bool
  is_available raw site =
      let name = s.lower raw in
      if not (s.has site.filter name)
      then true
      else not (is_some (find_by_username name site.store.users))

  abbrev pub add_name : String → Site F → Site F
  add_name name site = record site { filter = s.add name site.filter }

  -- `UpdateUsername`: a name that is taken changes nothing.
  unfoldable pub update_username : ℕ → String → Run (Site F) Error (Unit {0})
  update_username id raw = do
    available ← gets (is_available (s.lower raw))
    if not available
        then pure tt
        else (do on_store (rename_user id (s.lower raw)); modify (add_name (s.lower raw)))

  -- Changes of user names, one after another, by the users' ids and the names they ask for
  abbrev pub renames : List (ℕ × String) → Site F → Site F
  renames [] site = site
  renames ((id, raw) ∷ rest) site = renames rest (update_username id raw site).1
