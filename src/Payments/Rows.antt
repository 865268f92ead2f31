-- ===== src/Payments/Rows.antt =====
-- The rows of the table `payments` under the statements that update it: which row carries an id
-- afterwards, and how often a test passes.
use skill_stew_api.Prelude.{
  ℕ, ◌≡◌, ◌≢◌, Bool, true, Option, none, some, List, [], ◌∷◌, ◌++◌, map, filter, not, arith, refl,
  ◌==◌, if◌then◌else◌, find, count, inl, inr, Bool-cases,
}
use skill_stew_api.Prelude.Table.{lookup, lookup_other_last}
use skill_stew_api.Payments.World.{Payment}
use skill_stew_api.Payments.Repo.{updated_row, has_membership}

abbrev pub payment_key : Payment → ℕ
payment_key p = p.payment_id

-- No two rows carry the same id: the primary key.
abbrev pub HasUniqueIds : List Payment → Type 0
HasUniqueIds [] = Unit
HasUniqueIds (p ∷ ps) = (lookup payment_key p.payment_id ps ≡ none) × HasUniqueIds ps

find_not_gone :
    (t : Payment → Bool) (ps : List Payment) (a : Payment)
    → find t ps ≡ some a
    → lookup payment_key a.payment_id ps ≢ none
find_not_gone t [] a h = ground arith
find_not_gone t (p ∷ ps) a h = ground (arith, find_not_gone t ps a)

-- A row that a query finds is the row of its id.
pub lookup-find :
    (t : Payment → Bool) (ps : List Payment) (a : Payment)
    → HasUniqueIds ps
    → find t ps ≡ some a
    → lookup payment_key a.payment_id ps ≡ some a
lookup-find t [] a u h = ground arith
lookup-find t (p ∷ ps) a (gone, u) h = ground (arith, lookup-find t ps a u, find_not_gone t ps a)

-- The row under `k` once the row of `b` has been updated to `b`.
abbrev pub row_after : Payment → ℕ → Option Payment → Option Payment
row_after b k none = none
row_after b k (some a) =
    if k == b.payment_id then some (record b { created_at = a.created_at }) else some a

pub row_after_other :
    (b : Payment) (k : ℕ) (o : Option Payment) → k ≢ b.payment_id → row_after b k o ≡ o
row_after_other b k none h = refl
row_after_other b k (some a) h = ground arith

pub lookup-update :
    (b : Payment) (k : ℕ) (ps : List Payment)
    → lookup payment_key k (map (updated_row b) ps) ≡ row_after b k (lookup payment_key k ps)
lookup-update b k [] = refl
lookup-update b k (p ∷ ps) = ground (arith, lookup-update b k ps)

pub update_unique :
    (b : Payment) (ps : List Payment) → HasUniqueIds ps → HasUniqueIds (map (updated_row b) ps)
update_unique b [] u = tt
update_unique b (p ∷ ps) (gone, u) = (
  ground (arith, lookup-update b p.payment_id ps, lookup-update b b.payment_id ps),
  update_unique b ps u,
)

update_absent :
    (b : Payment) (ps : List Payment)
    → lookup payment_key b.payment_id ps ≡ none
    → map (updated_row b) ps ≡ ps
update_absent b [] h = refl
update_absent b (p ∷ ps) h = ground (arith, update_absent b ps)

-- An update that leaves the membership of the row moves no payment to another membership.
pub count-update :
    (b : Payment) (id : ℕ) (ps : List Payment) (a : Payment)
    → HasUniqueIds ps
    → lookup payment_key b.payment_id ps ≡ some a
    → a.membership_id ≡ b.membership_id
    → count (has_membership id) (map (updated_row b) ps) ≡ count (has_membership id) ps
count-update b id [] a u h e = refl
count-update b id (p ∷ ps) a (gone, u) h e =
    ground (arith, count-update b id ps a u, update_absent b ps)

-- A new row under an unused id, and the same row deleted again.
pub append_unique :
    (b : Payment) (ps : List Payment)
    → HasUniqueIds ps
    → lookup payment_key b.payment_id ps ≡ none
    → HasUniqueIds (ps ++ b ∷ [])
append_unique b [] u h = (refl, tt)
append_unique b (p ∷ ps) (gone, u) h = (
  ground (arith, lookup_other_last payment_key p.payment_id b ps),
  append_unique b ps u (ground arith),
)

pub delete_last :
    (b : Payment) (ps : List Payment)
    → lookup payment_key b.payment_id ps ≡ none
    → filter (λ row. not (row.payment_id == b.payment_id)) (ps ++ b ∷ []) ≡ ps
delete_last b [] h = ground arith
delete_last b (p ∷ ps) h = ground (arith, delete_last b ps)

-- A query that finds the row of `b`, and holds of `b`, finds what the update to `b` makes of a row.
pub find-update :
    (test : Payment → Bool) (b : Payment) (ps : List Payment) (a : Payment)
    → ((c : ℕ) → test (record b { created_at = c }) ≡ true)
    → find test ps ≡ some a
    → a.payment_id ≡ b.payment_id
    → (c : ℕ) × (find test (map (updated_row b) ps) ≡ some (record b { created_at = c }))
find-update test b [] a holds found same = absurd (ground arith)
find-update test b (p ∷ ps) a holds found same = elim (Bool-cases (p.payment_id == b.payment_id)) [
  | inl here ↦ (p.created_at, ground (arith, holds p.created_at))
  | inr other ↦ elim (Bool-cases (test p)) [
    | inl passes ↦ absurd (ground arith)
    | inr fails ↦
        let (c, known) = find-update test b ps a holds (ground arith) same in (c, ground arith)
  ]
]

pub find_last :
    (test : Payment → Bool) (b : Payment) (ps : List Payment)
    → find test ps ≡ none
    → test b ≡ true
    → find test (ps ++ b ∷ []) ≡ some b
find_last test b [] h k = ground arith
find_last test b (p ∷ ps) h k = ground (arith, find_last test b ps)
