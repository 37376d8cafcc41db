-- ===== src/Query/Spec.antt =====
-- internal/data/query/service.go: what a limit and a condition ask for, independently of the loops.
use text.Mathlib.Text.{find?}
use code_watch.Prelude.{
  ℕ, zero, suc, String, Bool, true, false, not, ◌&&◌, ◌≡◌, refl, ap, Option, none, some, List, [],
  ◌∷◌, arith, length, take, ltb, if◌then◌else◌, is_some, str_eq, Bool-cases, inl, inr, ◌≤◌, sym,
}
use code_watch.Prelude.Int.{ℤ, pos, negsuc, lessℤ}
use code_watch.Prelude.Unique.{all}
use code_watch.Text.{GoText}
use code_watch.Query.Cql.{CqlCondition, CqlGrammar, name_test, compare_cql_int, sameℤ}
use code_watch.Query.{ModuleSummary, ModuleMetrics, limited, matches_condition, matches_conditions}

-- The first elements up to a limit; one of 0 or below is no limit.
abbrev pub within : ℤ → List String → List String
within (negsuc n) xs = xs
within (pos zero) xs = xs
within (pos (suc n)) xs = take (suc n) xs

take_enough : (n : ℕ) (xs : List String) → length xs ≤ n → take n xs ≡ xs
take_enough n [] h = refl
take_enough zero (x ∷ xs) h = absurd (ground (arith, h))
take_enough (suc n) (x ∷ xs) h = ap (◌∷◌ x) (take_enough n xs (ground (arith, h)))

limited_above : (n : ℕ) (xs : List String) → ltb 0 n ≡ true → limited (pos n) xs ≡ take n xs
limited_above n xs h = elim (Bool-cases (ltb n (length xs))) [
  | inl cut ↦ rw (h, cut) refl
  | inr short ↦ rw (h, short) (sym (take_enough n xs (ground (arith, short))))
]

pub limited-within : (limit : ℤ) (xs : List String) → limited limit xs ≡ within limit xs
limited-within (negsuc n) xs = refl
limited-within (pos zero) xs = refl
limited-within (pos (suc n)) xs = limited_above (suc n) xs (ground arith)

-- The entry of a table, the first one for its key.
abbrev pub look_up {ℓ} : {A : Type ℓ} → List (String × A) → String → Option A
look_up [] key = none
look_up ((k, a) ∷ table) key = if str_eq key k then some a else look_up table key

abbrev pub is_true : Option Bool → Bool
is_true none = false
is_true (some b) = b

-- The comparisons of a number with the condition's.
abbrev pub relations : ℕ → ℤ → List (String × Bool)
relations v n =
    (">", lessℤ n (pos v))
    ∷ (">=", not (lessℤ (pos v) n))
    ∷ ("<", lessℤ (pos v) n)
    ∷ ("<=", not (lessℤ n (pos v)))
    ∷ ("=", sameℤ (pos v) n)
    ∷ ("!=", not (sameℤ (pos v) n))
    ∷ []

-- The tests of a name.
abbrev pub name_relations : GoText → CqlGrammar → String → String → List (String × Bool)
name_relations text grammar name s =
    ("contains", is_some (find? (text.lower name) (text.lower s)))
    ∷ ("=", grammar.equal_fold name s)
    ∷ ("!=", not (grammar.equal_fold name s))
    ∷ []

-- The fields that hold numbers.
abbrev pub numbers : ModuleSummary → ModuleMetrics → List (String × ℕ)
numbers row metric =
    ("fan_in", metric.fan_in)
    ∷ ("fan_out", metric.fan_out)
    ∷ ("depth", metric.depth)
    ∷ ("file_count", row.file_count)
    ∷ ("export_count", row.export_count)
    ∷ ("dependency_count", row.dependency_count)
    ∷ ("reverse_dependency_count", row.reverse_dependency_count)
    ∷ []

-- A number's condition needs a number, and an operator of the table.
abbrev pub number_holds : CqlCondition → Option ℕ → Bool
number_holds c none = false
number_holds c (some v) = c.is_int && is_true (look_up (relations v c.int_val) c.op)

-- Whether a condition holds of a row at its metrics.
abbrev pub holds : GoText → CqlGrammar → ModuleSummary → ModuleMetrics → CqlCondition → Bool
holds text grammar row metric c =
    let field = text.lower (text.trim c.field) in
    if str_eq field "name"
    then c.is_str && is_true (look_up (name_relations text grammar row.name c.str_val) c.op)
    else number_holds c (look_up (numbers row metric) field)

compare_cql_int_lem : (v : ℕ) (c : CqlCondition) → compare_cql_int v c ≡ number_holds c (some v)
unfolding compare_cql_int
compare_cql_int_lem v c = ground arith

name_test_lem :
    (text : GoText) (grammar : CqlGrammar) (name : String) (c : CqlCondition)
    → name_test text grammar name c
      ≡ (c.is_str && is_true (look_up (name_relations text grammar name c.str_val) c.op))
unfolding name_test
name_test_lem text grammar name c = ground arith

-- A number's field, or the rest of the table.
field_step :
    (here : Bool) (v : ℕ) (c : CqlCondition) (rest : Bool) (o : Option ℕ)
    → rest ≡ number_holds c o
    → (if here then compare_cql_int v c else rest) ≡ number_holds c (if here then some v else o)
field_step true v c rest o h = compare_cql_int_lem v c
field_step false v c rest o h = h

both :
    (here spec rest others : Bool)
    → here ≡ spec
    → rest ≡ others
    → (if not here then false else rest) ≡ (spec && others)
both here spec rest others h k = ground (arith, h, k)

name_step :
    (here name_ok spec rest number : Bool)
    → name_ok ≡ spec
    → rest ≡ number
    → (if here then name_ok else rest) ≡ (if here then spec else number)
name_step true name_ok spec rest number h k = h
name_step false name_ok spec rest number h k = k

module _ (text : GoText) (grammar : CqlGrammar) where
  matches_condition_lem :
      (row : ModuleSummary) (metric : ModuleMetrics) (c : CqlCondition)
      → matches_condition text grammar row metric c ≡ holds text grammar row metric c
  unfolding matches_condition
  matches_condition_lem row metric c =
      let f = text.lower (text.trim c.field) in
      name_step (str_eq f "name") _ _ _ _ (name_test_lem text grammar row.name c) (
        field_step (str_eq f "fan_in") metric.fan_in c _ _ (
          field_step (str_eq f "fan_out") metric.fan_out c _ _ (
            field_step (str_eq f "depth") metric.depth c _ _ (
              field_step (str_eq f "file_count") row.file_count c _ _ (
                field_step (str_eq f "export_count") row.export_count c _ _ (
                  field_step (str_eq f "dependency_count") row.dependency_count c _ _ (
                    field_step (str_eq f "reverse_dependency_count") row.reverse_dependency_count c
                      false none refl)))))))

  pub matches_conditions-all :
      (row : ModuleSummary) (metric : ModuleMetrics) (cs : List CqlCondition)
      → matches_conditions text grammar row metric cs ≡ all (holds text grammar row metric) cs
  unfolding matches_conditions
  matches_conditions-all row metric [] = refl
  matches_conditions-all row metric (c ∷ cs) =
      both _ _ _ _ (matches_condition_lem row metric c) (matches_conditions-all row metric cs)
