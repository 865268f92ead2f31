-- ===== src/Accounts/Usernames/Filter.antt =====
-- The Bloom filter before the user names answers as the table would.
use text.Mathlib.Text.{◌==◌ as str_eq}
use text.Mathlib.TextEquality.{eq_iff}
use skill_stew_api.Prelude.{
  ◌≡◌, refl, ap, subst, inl, inr, Bool, true, false, not, Option, none, some, List, [], ◌∷◌, String,
  arith, All, Bool-cases, some_inj,
}
use skill_stew_api.Accounts.World.{User}
use skill_stew_api.Accounts.Repo.{is_some, has_username, find_by_username}
use skill_stew_api.Accounts.Usernames.{
  NameServices, Site, names_of, get_all_usernames, add_all, initialize_filter, is_available,
}

-- What the library documents: it never denies what was added, and forgets nothing.
pub record Remembers {F : Type 0} (s : NameServices F) : Type 0 where
  pub added : (f : F) (n : String) → s.has (s.add n f) n ≡ true
  pub kept : (f : F) (m n : String) → s.has f n ≡ true → s.has (s.add m f) n ≡ true

named :
    (o : Option String) (name : String)
    → (let b : Bool = elim o [ none ↦ false | some n ↦ str_eq n name ] in b) ≡ true
    → o ≡ some name
named none name h = absurd (ground arith)
named (some n) name h = ap some ((eq_iff n name).0 h)

module _ {F : Type 0} (s : NameServices F) where
  abbrev pub IsKnown : F → User → Type 0
  IsKnown f u = (n : String) → u.username ≡ some n → s.has f n ≡ true

  -- The filter has the names of all users.
  pub record IsListed (site : Site F) : Type 0 where
    pub listed : All (IsKnown site.filter) site.store.users

  unknown_name :
      (f : F) (name : String) (u : User)
      → IsKnown f u
      → s.has f name ≡ false
      → has_username name u ≡ false
  unknown_name f name u known absent = elim (Bool-cases (has_username name u)) [
    | inl has_it ↦ absurd (ground (arith, known name (named u.username name has_it)))
    | inr other ↦ other
  ]

  find_unknown :
      (f : F) (name : String) (us : List User)
      → All (IsKnown f) us
      → s.has f name ≡ false
      → find_by_username name us ≡ none
  find_unknown f name [] h absent = refl
  find_unknown f name (u ∷ us) (known, h) absent =
      ground (arith, unknown_name f name u known absent, find_unknown f name us h absent)

  pub is_available-listed :
      (raw : String) (site : Site F)
      → IsListed site
      → is_available s raw site ≡ not (is_some (find_by_username (s.lower raw) site.store.users))
  is_available-listed raw site h = elim (Bool-cases (s.has site.filter (s.lower raw))) [
    | inl there ↦ ground arith
    | inr absent ↦
        ground (arith, find_unknown site.filter (s.lower raw) site.store.users h.listed absent)
  ]

  -- The filter is filled when the process starts.
  add_all-keeps :
      (r : Remembers s) (ns : List String) (f : F) (n : String)
      → s.has f n ≡ true
      → s.has (add_all s ns f) n ≡ true
  add_all-keeps r [] f n h = h
  add_all-keeps r (m ∷ ns) f n h = add_all-keeps r ns (s.add m f) n (r.kept f m n h)

  add_all-head :
      (r : Remembers s) (o : Option String) (ns : List String) (f : F) (n : String)
      → o ≡ some n
      → s.has (add_all s (names_of o ns) f) n ≡ true
  add_all-head r none ns f n h = absurd (ground arith)
  add_all-head r (some m) ns f n h =
      add_all-keeps r ns (s.add m f) n
        (subst (λ k. s.has (s.add m f) k ≡ true) (some_inj h) (r.added f m))

  filled_rest :
      (r : Remembers s) (o : Option String) (us : List User) (f : F)
      → ((g : F) → All (IsKnown (add_all s (get_all_usernames us) g)) us)
      → All (IsKnown (add_all s (names_of o (get_all_usernames us)) f)) us
  filled_rest r none us f h = h f
  filled_rest r (some m) us f h = h (s.add m f)

  filled :
      (r : Remembers s) (us : List User) (f : F)
      → All (IsKnown (add_all s (get_all_usernames us) f)) us
  filled r [] f = tt
  filled r (u ∷ us) f = (
    add_all-head r u.username (get_all_usernames us) f,
    filled_rest r u.username us f (filled r us),
  )

  pub initialize_filter-IsListed :
      (r : Remembers s) (site : Site F) → IsListed (initialize_filter s site)
  initialize_filter-IsListed r site = record { listed = filled r site.store.users site.filter }
