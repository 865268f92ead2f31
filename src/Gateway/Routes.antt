-- ===== src/Gateway/Routes.antt =====
-- The table of routes: no path belongs to two of its groups.
use Prim.Native.String.{◌++◌ as append}
use Prim.Native.String.append
use text.Mathlib.Text.{◌==◌ as str_eq}
use text.Mathlib.TextEquality.{eq_iff}
use skill_stew_api.Prelude.{
  ◌≤◌, ◌≡◌, refl, sym, subst, inl, inr, Bool, true, false, not, ◌&&◌, ◌||◌, List, [], ◌∷◌, String,
  count, arith, Bool-cases,
}
use skill_stew_api.Gateway.{RouteGroup, route_groups, is_under, starts_with}

both_true : (a b : Bool) → (a && b) ≡ true → (a ≡ true) × (b ≡ true)
both_true a b h = ground (arith, h)

-- Of two prefixes of a text, one is a prefix of the other.
starts_with_both :
    (p q s : String)
    → starts_with p s ≡ true
    → starts_with q s ≡ true
    → (starts_with p q || starts_with q p) ≡ true
unfolding starts_with
starts_with_both String.[] q s h k = refl
starts_with_both (String.◌∷◌ c p) String.[] s h k = refl
starts_with_both (String.◌∷◌ c p) (String.◌∷◌ d q) String.[] h k = ground arith
starts_with_both (String.◌∷◌ c p) (String.◌∷◌ d q) (String.◌∷◌ e s) h k =
    ground (arith, starts_with_both p q s)

starts_with-append : (p s t : String) → starts_with p s ≡ true → starts_with p (append s t) ≡ true
unfolding starts_with
starts_with-append String.[] s t h = refl
starts_with-append (String.◌∷◌ c p) String.[] t h = absurd (ground arith)
starts_with-append (String.◌∷◌ c p) (String.◌∷◌ d s) t h =
    let step : append (String.◌∷◌ d s) t ≡ String.◌∷◌ d (append s t) = append.cons d s t in
    rw step (ground (arith, starts_with-append p s t))

starts_with_self : (s : String) → starts_with s s ≡ true
unfolding starts_with
starts_with_self String.[] = refl
starts_with_self (String.◌∷◌ c s) = ground (arith, starts_with_self s)

abbrev folder : String → String
folder s = append s "/"

is_under-starts_with :
    (path prefix : String)
    → is_under path prefix ≡ true
    → starts_with (folder prefix) (folder path) ≡ true
is_under-starts_with path prefix h = elim (Bool-cases (str_eq path prefix)) [
  | inl e ↦
      subst (λ p. starts_with (folder prefix) (folder p) ≡ true) (sym ((eq_iff path prefix).0 e))
        (starts_with_self (folder prefix))
  | inr e ↦ starts_with-append (folder prefix) path "/" (rw e at h)
]

-- Neither of two prefixes lies under the other.
abbrev are_apart : String → String → Bool
are_apart p q = not (starts_with (folder p) (folder q) || starts_with (folder q) (folder p))

apart_of_all : String → List RouteGroup → Bool
apart_of_all p [] = true
apart_of_all p (g ∷ gs) = are_apart p g.prefix && apart_of_all p gs

all_apart : List RouteGroup → Bool
unfolding apart_of_all
all_apart [] = true
all_apart (g ∷ gs) = apart_of_all g.prefix gs && all_apart gs

apart_lem :
    (path p q : String) → are_apart p q ≡ true → is_under path p ≡ true → is_under path q ≡ false
apart_lem path p q h k = elim (Bool-cases (is_under path q)) [
  | inl e ↦ absurd (
      ground (
        arith,
        h,
        starts_with_both (folder p) (folder q) (folder path) (is_under-starts_with path p k)
            (is_under-starts_with path q e),
      ))
  | inr e ↦ e
]

count-apart_of_all :
    (path p : String) (gs : List RouteGroup)
    → apart_of_all p gs ≡ true
    → is_under path p ≡ true
    → count (λ g. is_under path g.prefix) gs ≡ 0
unfolding apart_of_all
count-apart_of_all path p [] h k = refl
count-apart_of_all path p (g ∷ gs) h k =
    let (first, rest) = both_true (are_apart p g.prefix) (apart_of_all p gs) h in
    rw (apart_lem path p g.prefix first k) (omega (arith, count-apart_of_all path p gs rest k))

count-all_apart :
    (path : String) (gs : List RouteGroup)
    → all_apart gs ≡ true
    → count (λ g. is_under path g.prefix) gs ≤ 1
unfolding all_apart
count-all_apart path [] h = omega arith
count-all_apart path (g ∷ gs) h =
    let (first, rest) = both_true (apart_of_all g.prefix gs) (all_apart gs) h in
    elim (Bool-cases (is_under path g.prefix)) [
      | inl e ↦ rw e (omega (arith, count-apart_of_all path g.prefix gs first e))
      | inr e ↦ rw e (omega (arith, count-all_apart path gs rest))
    ]

route_groups-apart : all_apart route_groups ≡ true
unfolding all_apart starts_with
route_groups-apart = refl

-- At most one group of the table has a path under its prefix, so the order of the groups decides
-- nothing.
pub route_groups_unambiguous :
    (path : String) → count (λ g. is_under path g.prefix) route_groups ≤ 1
route_groups_unambiguous path = count-all_apart path route_groups route_groups-apart
