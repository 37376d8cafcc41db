-- ===== src/Query/Rows.antt =====
-- internal/data/query/service.go: which rows a query returns, and in which order.
use code_watch.Prelude.{
  ℕ, zero, suc, String, Bool, true, false, ◌&&◌, ◌||◌, ◌≡◌, refl, ap, sym, ◌∙◌, inl, inr, Option,
  none, some, List, [], ◌∷◌, length, take, ltb, if◌then◌else◌, str_eq, str_le, is_some,
  sort_strings, insert_sorted, All, Bool-cases, select,
}
use code_watch.Prelude.Int.{ℤ, pos, negsuc}
use code_watch.Prelude.Map
use code_watch.Prelude.Map.{Map}
use text.Mathlib.Text.{find?}
use code_watch.Text.{GoText}
use code_watch.Prelude.Unique.{all}
use code_watch.Query.Spec.{within, limited-within, holds, matches_conditions-all}
use code_watch.Graph.{Graph, ModuleInfo}
use code_watch.Query.Cql.{CqlCondition, CqlGrammar, parse_cql}
use code_watch.Query.{
  ModuleSummary, ModuleMetrics, summary, add_row, rows_where, insert_row, sort_rows, limited,
  list_modules, metrics_of, matches_conditions, execute_cql,
}

-- The row of a module of the graph.
abbrev pub IsSummary : Graph → ModuleSummary → Type 0
IsSummary g r =
    (info : ModuleInfo) × (Map.get g.modules r.name ≡ some info) × (r ≡ summary g r.name info)

abbrev pub names_of : List ModuleSummary → List String
names_of [] = []
names_of (r ∷ rs) = r.name ∷ names_of rs

-- The test at a module's own row; a name that is no module fails.
abbrev pub passes : (ModuleSummary → Bool) → Graph → String → Option ModuleInfo → Bool
passes keep g m none = false
passes keep g m (some info) = keep (summary g m info)

-- The modules whose rows pass.
abbrev pub passing : (ModuleSummary → Bool) → Graph → List String → List String
passing keep g ms = select (λ m. passes keep g m (Map.get g.modules m)) ms

names_of-insert_row :
    (r : ModuleSummary) (rs : List ModuleSummary)
    → names_of (insert_row r rs) ≡ insert_sorted r.name (names_of rs)
unfolding insert_row insert_sorted
names_of-insert_row r [] = refl
names_of-insert_row r (s ∷ ss) = elim (Bool-cases (str_le r.name s.name)) [
  | inl first ↦ rw (first, insert_row, insert_sorted) refl
  | inr later ↦ rw (later, insert_row, insert_sorted) (ap (◌∷◌ s.name) (names_of-insert_row r ss))
]

names_of-sort_rows :
    (rs : List ModuleSummary) → names_of (sort_rows rs) ≡ sort_strings (names_of rs)
unfolding sort_rows sort_strings
names_of-sort_rows [] = refl
names_of-sort_rows (r ∷ rs) =
    names_of-insert_row r (sort_rows rs) ∙ ap (insert_sorted r.name) (names_of-sort_rows rs)

names_of-add_row :
    (keep : ModuleSummary → Bool) (g : Graph) (m : String) (o : Option ModuleInfo)
    (rest : List ModuleSummary)
    → names_of (add_row keep g m o rest)
      ≡ (if passes keep g m o then m ∷ names_of rest else names_of rest)
unfolding add_row summary
names_of-add_row keep g m none rest = refl
names_of-add_row keep g m (some info) rest = elim (Bool-cases (keep (summary g m info))) [
  | inl kept ↦ rw (kept, add_row) refl
  | inr left_out ↦ rw (left_out, add_row) refl
]

names_of-rows_where :
    (keep : ModuleSummary → Bool) (g : Graph) (ms : List String)
    → names_of (rows_where keep g ms) ≡ passing keep g ms
unfolding rows_where
names_of-rows_where keep g [] = refl
names_of-rows_where keep g (m ∷ ms) =
    names_of-add_row keep g m (Map.get g.modules m) (rows_where keep g ms)
    ∙ ap (λ rest. if passes keep g m (Map.get g.modules m) then m ∷ rest else rest)
        (names_of-rows_where keep g ms)

length-names_of : (rs : List ModuleSummary) → length (names_of rs) ≡ length rs
length-names_of [] = refl
length-names_of (r ∷ rs) = ap suc (length-names_of rs)

names_of-take : (n : ℕ) (rs : List ModuleSummary) → names_of (take n rs) ≡ take n (names_of rs)
names_of-take n [] = refl
names_of-take zero (r ∷ rs) = refl
names_of-take (suc n) (r ∷ rs) = ap (◌∷◌ r.name) (names_of-take n rs)

names_of-if :
    (c : Bool) (a b : List ModuleSummary)
    → names_of (if c then a else b) ≡ (if c then names_of a else names_of b)
names_of-if true a b = refl
names_of-if false a b = refl

names_of-limited :
    (limit : ℤ) (rs : List ModuleSummary)
    → names_of (limited limit rs) ≡ limited limit (names_of rs)
names_of-limited (negsuc n) rs = refl
names_of-limited (pos n) rs =
    names_of-if (ltb 0 n && ltb n (length rs)) (take n rs) rs
    ∙ ap (λ xs. if ltb 0 n && ltb n (length rs) then xs else names_of rs) (names_of-take n rs)
    ∙ ap (λ k. if ltb 0 n && ltb n k then take n (names_of rs) else names_of rs)
        (sym (length-names_of rs))

All-insert_row :
    (P : ModuleSummary → Type 0) (r : ModuleSummary) (rs : List ModuleSummary)
    → P r
    → All P rs
    → All P (insert_row r rs)
unfolding insert_row
All-insert_row P r [] p a = (p, tt)
All-insert_row P r (s ∷ ss) p a = elim (Bool-cases (str_le r.name s.name)) [
  | inl first ↦ rw (first, insert_row) (p, a)
  | inr later ↦ rw (later, insert_row) (a.0, All-insert_row P r ss p a.1)
]

All-sort_rows :
    (P : ModuleSummary → Type 0) (rs : List ModuleSummary) → All P rs → All P (sort_rows rs)
unfolding sort_rows
All-sort_rows P [] a = tt
All-sort_rows P (r ∷ rs) a = All-insert_row P r (sort_rows rs) a.0 (All-sort_rows P rs a.1)

All-take :
    (P : ModuleSummary → Type 0) (n : ℕ) (rs : List ModuleSummary) → All P rs → All P (take n rs)
All-take P n [] a = tt
All-take P zero (r ∷ rs) a = tt
All-take P (suc n) (r ∷ rs) a = (a.0, All-take P n rs a.1)

All-if :
    (P : ModuleSummary → Type 0) (c : Bool) (a b : List ModuleSummary)
    → All P a
    → All P b
    → All P (if c then a else b)
All-if P true a b p q = p
All-if P false a b p q = q

All-limited :
    (P : ModuleSummary → Type 0) (limit : ℤ) (rs : List ModuleSummary)
    → All P rs
    → All P (limited limit rs)
All-limited P (negsuc n) rs a = a
All-limited P (pos n) rs a =
    All-if P (ltb 0 n && ltb n (length rs)) (take n rs) rs (All-take P n rs a) a

All-add_row :
    (keep : ModuleSummary → Bool) (g : Graph) (m : String) (o : Option ModuleInfo)
    (rest : List ModuleSummary)
    → Map.get g.modules m ≡ o
    → All (IsSummary g) rest
    → All (IsSummary g) (add_row keep g m o rest)
unfolding add_row summary
All-add_row keep g m none rest e a = a
All-add_row keep g m (some info) rest e a =
    All-if (IsSummary g) (keep (summary g m info)) (summary g m info ∷ rest) rest
      ((info, e, refl), a) a

All-rows_where :
    (keep : ModuleSummary → Bool) (g : Graph) (ms : List String)
    → All (IsSummary g) (rows_where keep g ms)
unfolding rows_where
All-rows_where keep g [] = tt
All-rows_where keep g (m ∷ ms) =
    All-add_row keep g m (Map.get g.modules m) (rows_where keep g ms) refl
      (All-rows_where keep g ms)

-- The rows are those of the modules that pass, by name in the order of `sort.Strings`, up to the
-- limit.
abbrev pub IsSelection : (ModuleSummary → Bool) → ℤ → Graph → List ModuleSummary → Type 0
IsSelection keep limit g rows =
    (names_of rows ≡ within limit (sort_strings (passing keep g (Map.keys g.modules))))
    × All (IsSummary g) rows

selected :
    (keep : ModuleSummary → Bool) (limit : ℤ) (g : Graph)
    → IsSelection keep limit g (limited limit (sort_rows (rows_where keep g (Map.keys g.modules))))
selected keep limit g =
    let rows = rows_where keep g (Map.keys g.modules) in
    (
      names_of-limited limit (sort_rows rows)
          ∙ ap (limited limit) (
              names_of-sort_rows rows
              ∙ ap sort_strings (names_of-rows_where keep g (Map.keys g.modules)))
          ∙ limited-within limit (sort_strings (passing keep g (Map.keys g.modules))),
      All-limited (IsSummary g) limit (sort_rows rows)
          (All-sort_rows (IsSummary g) rows (All-rows_where keep g (Map.keys g.modules))),
    )

select-same :
    (p q : String → Bool) (ms : List String)
    → ((m : String) → p m ≡ q m)
    → select p ms ≡ select q ms
select-same p q [] h = refl
select-same p q (m ∷ ms) h =
    ap (λ b. if b then m ∷ select p ms else select p ms) (h m)
    ∙ ap (λ rest. if q m then m ∷ rest else rest) (select-same p q ms h)

passes-same :
    (keep spec : ModuleSummary → Bool) (g : Graph) (m : String) (o : Option ModuleInfo)
    → ((row : ModuleSummary) → keep row ≡ spec row)
    → passes keep g m o ≡ passes spec g m o
passes-same keep spec g m none h = refl
passes-same keep spec g m (some info) h = h (summary g m info)

-- The rows by one test are those by an equal one.
selected_by :
    (keep spec : ModuleSummary → Bool)
    → ((row : ModuleSummary) → keep row ≡ spec row)
    → (limit : ℤ) (g : Graph)
    → IsSelection spec limit g (limited limit (sort_rows (rows_where keep g (Map.keys g.modules))))
selected_by keep spec h limit g =
    let (names, summaries) = selected keep limit g in
    (
      names
          ∙ ap (λ ms. within limit (sort_strings ms))
              (select-same (λ m. passes keep g m (Map.get g.modules m))
                (λ m. passes spec g m (Map.get g.modules m)) (Map.keys g.modules)
                (λ m. passes-same keep spec g m (Map.get g.modules m) h)),
      summaries,
    )

module _ (text : GoText) where
  -- `ListModules` returns the rows of exactly the modules whose name in lower case contains the
  -- trimmed filter in lower case, all of them for a blank one, ordered by name and cut to the limit
  -- where that is above 0.
  pub list_modules-IsSelection :
      (filter : String) (limit : ℤ) (g : Graph)
      → IsSelection
          (λ row.
            str_eq (text.lower (text.trim filter)) ""
            || is_some (find? (text.lower row.name) (text.lower (text.trim filter))))
          limit
          g
          (list_modules text filter limit g)
  unfolding list_modules
  list_modules-IsSelection filter limit g =
      selected
        (λ row.
          str_eq (text.lower (text.trim filter)) ""
          || is_some (find? (text.lower row.name) (text.lower (text.trim filter))))
        limit g

  execute_cql-parsed :
      (grammar : CqlGrammar) (metrics : Map ModuleMetrics) (raw : String) (limit : ℤ) (g : Graph)
      (cs : List CqlCondition)
      → parse_cql text grammar raw ≡ some cs
      → execute_cql text grammar metrics raw limit g
        ≡ some (
            limited limit (
              sort_rows (
                rows_where
                  (λ row. matches_conditions text grammar row (metrics_of text metrics row.name) cs)
                  g
                  (Map.keys g.modules))))
  unfolding execute_cql
  execute_cql-parsed grammar metrics raw limit g cs e = rw (e, execute_cql) refl

  -- A query that parses returns the rows of exactly the modules of which every condition holds,
  -- ordered by name and cut to the limit where that is above 0; one that does not parse is an
  -- error. A condition holds of a module's name, or of the count or metric of its field, by the
  -- operator that it names; with another field or operator, or a value of the other kind, it fails.
  pub execute_cql-IsSelection :
      (grammar : CqlGrammar) (metrics : Map ModuleMetrics) (raw : String) (limit : ℤ) (g : Graph)
      → ((parse_cql text grammar raw ≡ none) → execute_cql text grammar metrics raw limit g ≡ none)
        × ((cs : List CqlCondition)
            → parse_cql text grammar raw ≡ some cs
            → (rows : List ModuleSummary) × (execute_cql text grammar metrics raw limit g
                ≡ some rows)
              × IsSelection
                  (λ row. all (holds text grammar row (metrics_of text metrics row.name)) cs)
                  limit
                  g
                  rows)
  unfolding execute_cql
  execute_cql-IsSelection grammar metrics raw limit g = (
    λ e. rw (e, execute_cql) refl,
    λ cs e. (
      limited limit (
          sort_rows (
            rows_where
              (λ row. matches_conditions text grammar row (metrics_of text metrics row.name) cs) g
              (Map.keys g.modules))),
      execute_cql-parsed grammar metrics raw limit g cs e,
      selected_by (λ row. matches_conditions text grammar row (metrics_of text metrics row.name) cs)
          (λ row. all (holds text grammar row (metrics_of text metrics row.name)) cs)
          (λ row. matches_conditions-all text grammar row (metrics_of text metrics row.name) cs)
          limit g,
    ),
  )
