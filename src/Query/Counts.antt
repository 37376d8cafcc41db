-- ===== src/Query/Counts.antt =====
-- internal/data/query/service.go: the counts of the modules that import a module.
use code_watch.Prelude.{
  ℕ, ◌+◌, String, Bool, true, false, ◌||◌, ◌≡◌, ap, ◌∙◌, List, [], ◌∷◌, arith, if◌then◌else◌,
  str_eq, eq_iff, contains,
}
use code_watch.Prelude.Unique.{unique}
use code_watch.Prelude.Map
use code_watch.Prelude.Map.{Map}
use code_watch.Graph.{Graph, ModuleInfo}
use code_watch.Graph.Links.{ImportEdge}
use code_watch.Query.{count_of, count_targets, count_rows, reverse_counts, summary}

abbrev pub one_if : Bool → ℕ
one_if b = if b then 1 else 0

-- The rows that have the module as a target.
abbrev pub importers : String → Map (Map ImportEdge) → ℕ
importers m [] = 0
importers m ((from, row) ∷ rows) = one_if (Map.has row m) + importers m rows

-- No row has a key twice.
abbrev pub Keyed : Map (Map ImportEdge) → Type 0
Keyed [] = Unit
Keyed ((from, row) ∷ rows) = (unique (Map.keys row) ≡ true) × Keyed rows

count_of-put :
    (counts : Map ℕ) (to m : String) (n : ℕ)
    → count_of (Map.put counts to n) m ≡ (if str_eq to m then n else count_of counts m)
count_of-put counts to m n = ground (arith, Map.get-put counts to m n)

step :
    (to m : String) (later again : Bool) (at_to at_m now : ℕ)
    → now ≡ (if str_eq to m then at_to + 1 else at_m)
    → (to ≡ m → at_to ≡ at_m)
    → (to ≡ m → again ≡ later)
    → again ≡ false
    → now + one_if later ≡ at_m + one_if (str_eq m to || later)
step to m later again at_to at_m now e f h n = ground (arith, e, f, h, n, eq_iff to m, eq_iff m to)

together : (a b c d rest : ℕ) → a ≡ b + c → c ≡ d → a + rest ≡ b + (d + rest)
together a b c d rest h k = omega (arith, h, k)

count_of-count_targets :
    (counts : Map ℕ) (tos : List String) (m : String)
    → unique tos ≡ true
    → count_of (count_targets counts tos) m ≡ count_of counts m + one_if (contains m tos)
unfolding count_targets contains unique
count_of-count_targets counts [] m u = ground arith
count_of-count_targets counts (to ∷ tos) m u =
    count_of-count_targets (Map.put counts to (count_of counts to + 1)) tos m (ground (arith, u))
    ∙ step to m (contains m tos) (contains to tos) (count_of counts to) (count_of counts m)
        (count_of (Map.put counts to (count_of counts to + 1)) m)
        (count_of-put counts to m (count_of counts to + 1)) (λ e. ap (count_of counts) e)
        (λ e. ap (λ k. contains k tos) e) (ground (arith, u))

count_of-count_rows :
    (counts : Map ℕ) (rows : Map (Map ImportEdge)) (m : String)
    → Keyed rows
    → count_of (count_rows counts rows) m ≡ count_of counts m + importers m rows
unfolding count_rows
count_of-count_rows counts [] m k = ground arith
count_of-count_rows counts ((from, row) ∷ rows) m k =
    count_of-count_rows (count_targets counts (Map.keys row)) rows m k.1
    ∙ together (count_of (count_targets counts (Map.keys row)) m) (count_of counts m)
        (one_if (contains m (Map.keys row))) (one_if (Map.has row m)) (importers m rows)
        (count_of-count_targets counts (Map.keys row) m k.0) (ap one_if (Map.contains-keys row m))

-- Where no row of imports has a target twice, the reverse dependency count in a module's row is
-- the number of modules that import it.
pub summary-importers :
    (g : Graph) (m : String) (info : ModuleInfo)
    → Keyed g.links.imports
    → (summary g m info).reverse_dependency_count ≡ importers m g.links.imports
unfolding summary reverse_counts Map.get
summary-importers g m info k = count_of-count_rows [] g.links.imports m k ∙ (omega arith)
