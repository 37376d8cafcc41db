-- ===== src/Prelude/Strings.antt =====
-- Texts as keys: equality, membership and the order of `sort.Strings`.
use Prim.Native.Nat.{Ordering}
use Prim.Native.String.{String, compare}
use mathlib.Core.Path.{◌≡◌, refl}
use mathlib.Core.Logic.{◌⊎◌}
use mathlib.Core.Bool.{Bool, true, false, ◌||◌}
use mathlib.Core.List.{List, [], ◌∷◌, ◌++◌}
use native.Mathlib.Omega.{arith}
use text.Mathlib.Text.{◌==◌}
use text.Mathlib.TextEquality.{eq_iff}
use code_watch.Prelude.Tests.{if◌then◌else◌}

abbrev pub str_eq : String → String → Bool
str_eq s t = s == t

abbrev pub str_le : String → String → Bool
str_le s t = elim (compare s t) [ Ordering.gt ↦ false | _ ↦ true ]

unfoldable pub contains : String → List String → Bool
contains k [] = false
contains k (x ∷ xs) = str_eq k x || contains k xs

unfoldable pub insert_sorted : String → List String → List String
insert_sorted s [] = s ∷ []
insert_sorted s (x ∷ xs) = if str_le s x then s ∷ x ∷ xs else x ∷ insert_sorted s xs

-- Go's `sort.Strings`.
unfoldable pub sort_strings : List String → List String
unfolding insert_sorted
sort_strings [] = []
sort_strings (x ∷ xs) = insert_sorted x (sort_strings xs)

pub contains-append :
    (k : String) (xs ys : List String) → contains k (xs ++ ys) ≡ (contains k xs || contains k ys)
unfolding contains
contains-append k [] ys = refl
contains-append k (x ∷ xs) ys = ground (arith, contains-append k xs ys)

contains-insert_sorted :
    (k s : String) (xs : List String)
    → contains k (insert_sorted s xs) ≡ (str_eq k s || contains k xs)
unfolding contains insert_sorted
contains-insert_sorted k s [] = refl
contains-insert_sorted k s (x ∷ xs) = ground (arith, contains-insert_sorted k s xs)

-- Sorting keeps the members.
pub contains-sort_strings :
    (k : String) (xs : List String) → contains k (sort_strings xs) ≡ contains k xs
unfolding contains sort_strings
contains-sort_strings k [] = refl
contains-sort_strings k (x ∷ xs) =
    ground (arith, contains-insert_sorted k x (sort_strings xs), contains-sort_strings k xs)

pub str_eq_refl : (s : String) → str_eq s s ≡ true
str_eq_refl s = (eq_iff s s).1 refl

pub String-cases : (s t : String) → (s ≡ t) ⊎ (str_eq s t ≡ false)
String-cases s t = ground (arith, eq_iff s t)
