-- ===== src/Query.antt =====
-- internal/data/query/service.go and cql.go: lists of modules by a filter or by conditions.
pub mod Cql
pub mod Spec
pub mod Rows
pub mod Counts
pub mod Trace
pub mod Details
pub mod Trends
pub mod Examples
use text.Mathlib.Text.{find?}
use code_watch.Prelude.{
  ℕ, ◌+◌, String, Bool, true, false, not, ◌&&◌, ◌||◌, Option, none, some, List, [], ◌∷◌, length,
  take, ltb, leb, ◌==◌, if◌then◌else◌, is_some, str_eq, str_le,
}
use code_watch.Prelude.Int.{ℤ, pos, negsuc, lessℤ}
use code_watch.Prelude.Map
use code_watch.Prelude.Map.{Map}
use code_watch.Text.{GoText}
use code_watch.Graph.{Graph, ModuleInfo}
use code_watch.Graph.Links.{ImportEdge}
use code_watch.Query.Cql.{CqlCondition, CqlGrammar, parse_cql, name_test, compare_cql_int}

pub record ModuleSummary : Type 0 where
  pub name : String
  pub file_count : ℕ
  pub export_count : ℕ
  pub dependency_count : ℕ
  pub reverse_dependency_count : ℕ

-- `graph.ModuleMetrics` as far as conditions read it
pub record ModuleMetrics : Type 0 where
  pub depth : ℕ
  pub fan_in : ℕ
  pub fan_out : ℕ

-- A read of a map of counts.
abbrev pub count_of : Map ℕ → String → ℕ
count_of counts m = elim (Map.get counts m) [ none ↦ 0 | some n ↦ n ]

-- `reverseCounts[to]++` for each target of a row
unfoldable pub count_targets : Map ℕ → List String → Map ℕ
count_targets counts [] = counts
count_targets counts (to ∷ tos) = count_targets (Map.put counts to (count_of counts to + 1)) tos

unfoldable pub count_rows : Map ℕ → Map (Map ImportEdge) → Map ℕ
unfolding count_targets
count_rows counts [] = counts
count_rows counts ((from, row) ∷ rows) = count_rows (count_targets counts (Map.keys row)) rows

unfoldable pub reverse_counts : Graph → Map ℕ
unfolding count_rows
reverse_counts g = count_rows [] g.links.imports

unfoldable pub summary : Graph → String → ModuleInfo → ModuleSummary
unfolding reverse_counts
summary g m info = record {
  name = m;
  file_count = length info.files;
  export_count = length info.exports;
  dependency_count = length (Map.inner g.links.imports m);
  reverse_dependency_count = count_of (reverse_counts g) m;
}

-- The body of the loop over the modules, before the rows of the others.
unfoldable pub add_row :
    (ModuleSummary → Bool)
    → Graph
    → String
    → Option ModuleInfo
    → List ModuleSummary
    → List ModuleSummary
unfolding summary
add_row keep g m none rest = rest
add_row keep g m (some info) rest =
    if keep (summary g m info) then summary g m info ∷ rest else rest

-- The loop over the modules, by their names.
unfoldable pub rows_where : (ModuleSummary → Bool) → Graph → List String → List ModuleSummary
unfolding add_row
rows_where keep g [] = []
rows_where keep g (m ∷ ms) = add_row keep g m (Map.get g.modules m) (rows_where keep g ms)

unfoldable pub insert_row : ModuleSummary → List ModuleSummary → List ModuleSummary
insert_row r [] = r ∷ []
insert_row r (s ∷ ss) =
    let rest = insert_row r ss in if str_le r.name s.name then r ∷ s ∷ ss else s ∷ rest

-- `sort.Slice` by name
unfoldable pub sort_rows : List ModuleSummary → List ModuleSummary
unfolding insert_row
sort_rows [] = []
sort_rows (r ∷ rs) = insert_row r (sort_rows rs)

-- `if limit > 0 && len(rows) > limit { return rows[:limit] }`
abbrev pub limited {ℓ} : {A : Type ℓ} → ℤ → List A → List A
limited (pos n) rows = if ltb 0 n && ltb n (length rows) then take n rows else rows
limited (negsuc n) rows = rows

module _ (text : GoText) where
  -- `ListModules` with a context that is not cancelled
  unfoldable pub list_modules : String → ℤ → Graph → List ModuleSummary
  unfolding rows_where sort_rows
  list_modules filter limit g =
      let wanted = text.lower (text.trim filter) in
      limited limit (
        sort_rows (
          rows_where (λ row. str_eq wanted "" || is_some (find? (text.lower row.name) wanted)) g
            (Map.keys g.modules)))

  abbrev pub no_metrics : ModuleMetrics
  no_metrics = record { depth = 0; fan_in = 0; fan_out = 0 }

  abbrev pub metrics_of : Map ModuleMetrics → String → ModuleMetrics
  metrics_of metrics m = elim (Map.get metrics m) [ none ↦ no_metrics | some x ↦ x ]

  -- `matchesSingleCQLCondition`
  unfoldable pub matches_condition :
      CqlGrammar → ModuleSummary → ModuleMetrics → CqlCondition → Bool
  unfolding name_test compare_cql_int
  matches_condition grammar row metric c =
      let field = text.lower (text.trim c.field) in
      if str_eq field "name"
      then name_test text grammar row.name c
      else if str_eq field "fan_in"
      then compare_cql_int metric.fan_in c
      else if str_eq field "fan_out"
      then compare_cql_int metric.fan_out c
      else if str_eq field "depth"
      then compare_cql_int metric.depth c
      else if str_eq field "file_count"
      then compare_cql_int row.file_count c
      else if str_eq field "export_count"
      then compare_cql_int row.export_count c
      else if str_eq field "dependency_count"
      then compare_cql_int row.dependency_count c
      else if str_eq field "reverse_dependency_count"
      then compare_cql_int row.reverse_dependency_count c
      else false

  unfoldable pub matches_conditions :
      CqlGrammar → ModuleSummary → ModuleMetrics → List CqlCondition → Bool
  unfolding matches_condition
  matches_conditions grammar row metric [] = true
  matches_conditions grammar row metric (c ∷ cs) =
      let rest = matches_conditions grammar row metric cs in
      if not (matches_condition grammar row metric c) then false else rest

  -- `ExecuteCQL` with a context that is not cancelled; `none` is an error of the query. The
  -- metrics are those of `ComputeModuleMetrics`.
  unfoldable pub execute_cql :
      CqlGrammar → Map ModuleMetrics → String → ℤ → Graph → Option (List ModuleSummary)
  unfolding parse_cql rows_where sort_rows matches_conditions
  execute_cql grammar metrics raw limit g = elim (parse_cql text grammar raw) [
    | none ↦ none
    | some conditions ↦ some (
        limited limit (
          sort_rows (
            rows_where
              (λ row. matches_conditions grammar row (metrics_of metrics row.name) conditions) g
              (Map.keys g.modules))))
  ]
