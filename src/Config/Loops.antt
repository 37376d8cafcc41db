-- ===== src/Config/Loops.antt =====
-- internal/core/config/validator.go: the loop that refuses an empty value and a repeated one.
use code_watch.Prelude.{
  String, Bool, true, false, not, ◌&&◌, Option, none, some, List, [], ◌∷◌, map, if◌then◌else◌,
  is_some, contains, arith, ◌≡◌, refl,
}
use code_watch.Prelude.Unique.{unique_after, all}
use code_watch.Config.Types.{Fault, duplicate}

-- `if blank(x) {…}; if seen[key(x)] {…}; seen[key(x)] = true` for each `x`
unfoldable pub check_each :
    (String → Bool) → (String → String) → Fault → String → List String → List String → Option Fault
unfolding contains
check_each is_blank key empty what seen [] = none
check_each is_blank key empty what seen (x ∷ xs) =
    let rest = check_each is_blank key empty what (key x ∷ seen) xs in
    if is_blank x
    then some empty
    else if contains (key x) seen
    then some (duplicate what x)
    else rest

pub check_each-accepts :
    (is_blank : String → Bool) (key : String → String) (empty : Fault) (what : String)
    (seen xs : List String)
    → not (is_some (check_each is_blank key empty what seen xs))
      ≡ (all (λ x. not (is_blank x)) xs && unique_after seen (map key xs))
unfolding check_each contains
check_each-accepts is_blank key empty what seen [] = refl
check_each-accepts is_blank key empty what seen (x ∷ xs) =
    ground (arith, check_each-accepts is_blank key empty what (key x ∷ seen) xs)

-- No error.
abbrev pub accepted : Option Fault → Bool
accepted o = not (is_some o)

-- A test that ends in an error.
pub accepted-if :
    (c : Bool) (f : Fault) (o : Option Fault)
    → accepted (if c then some f else o) ≡ (not c && accepted o)
accepted-if true f o = refl
accepted-if false f o = refl

-- A last test.
pub accepted-if_last : (c : Bool) (f : Fault) → accepted (if c then some f else none) ≡ not c
accepted-if_last true f = refl
accepted-if_last false f = refl

-- The error if there is one, else what follows.
abbrev pub or_else : Option Fault → Option Fault → Option Fault
or_else none next = next
or_else (some e) next = some e

pub accepted-or_else : (a b : Option Fault) → accepted (or_else a b) ≡ (accepted a && accepted b)
accepted-or_else none b = refl
accepted-or_else (some e) b = refl
