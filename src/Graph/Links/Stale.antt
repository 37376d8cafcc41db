-- ===== src/Graph/Links/Stale.antt =====
-- internal/engine/graph/graph.go: the states of `imports` and `importedBy` inside `AddFile` and
-- `removeFileLocked`, from one transposed pair to the next.
use code_watch.Prelude.{
  String, true, ◌&&◌, ◌||◌, ◌≡◌, refl, ◌∙◌, inl, inr, some, List, [], ◌∷◌, arith, str_eq, contains,
  eq_iff, Bool-cases, Option-cases,
}
use code_watch.Prelude.Map
use code_watch.Prelude.Map.{Map}
use code_watch.Model.{Import, File}
use code_watch.Graph.Links.{
  ImportEdge, Links, edge_of, written, link, link_all, drop_importer, drop_importers, drop_stale,
  ensure_row, has_edge, has_importer,
}
use code_watch.Graph.Links.Mirror.{Mirror, cells-link_all, cells-drop_importers, cells-drop_stale}

-- The pair is transposed but for importers that the module `m` had before.
abbrev pub Stale : String → List String → Links → Type 0
Stale m old l =
    (a b : String) → has_importer l b a ≡ (has_edge l a b || (str_eq m a && contains b old))

abbrev pub reset : String → Links → Links
reset m l = record l { imports = Map.put l.imports m [] }

pub reset-Stale :
    (m : String) (l : Links) → Mirror l → Stale m (Map.keys (Map.inner l.imports m)) (reset m l)
reset-Stale m l mirror a b = ground (
  arith,
  mirror a b,
  Map.cell-put_empty l.imports m a b,
  Map.contains-keys (Map.inner l.imports m) b,
  eq_iff m a,
)

pub link_all-Stale :
    (m : String) (old : List String) (f : File) (l l' : Links) (imps : List Import)
    → Stale m old l
    → link_all f l imps ≡ some l'
    → Stale m old l'
link_all-Stale m old f l l' imps stale h a b =
    ground (arith, cells-link_all f l l' imps a b h, stale a b)

pub link_all-Mirror :
    (f : File) (l l' : Links) (imps : List Import)
    → Mirror l
    → link_all f l imps ≡ some l'
    → Mirror l'
link_all-Mirror f l l' imps mirror h a b =
    ground (arith, cells-link_all f l l' imps a b h, mirror a b)

pub drop_stale-Mirror :
    (m : String) (old : List String) (l : Links) → Stale m old l → Mirror (drop_stale m l old)
drop_stale-Mirror m old l stale a b =
    ground (arith, cells-drop_stale m l old a b, stale a b, eq_iff m a)

pub imports-drop_importers :
    (m : String) (l : Links) (tos : List String) → (drop_importers m l tos).imports ≡ l.imports
unfolding drop_importers drop_importer
imports-drop_importers m l [] = refl
imports-drop_importers m l (to ∷ tos) =
    imports-drop_importers m (drop_importer m l to) tos ∙ ground arith

pub imports-drop_stale :
    (m : String) (l : Links) (tos : List String) → (drop_stale m l tos).imports ≡ l.imports
unfolding drop_stale drop_importer
imports-drop_stale m l [] = refl
imports-drop_stale m l (to ∷ tos) = elim (Bool-cases (has_edge l m to)) [
  | inl kept ↦ rw (kept, drop_stale) (imports-drop_stale m l tos)
  | inr gone ↦
      rw (gone, drop_stale) (imports-drop_stale m (drop_importer m l to) tos ∙ ground arith)
]

-- The pair after the last file of `m` is gone.
abbrev pub without_row : String → Links → Links
without_row m l =
    let l' = drop_importers m l (Map.keys (Map.inner l.imports m)) in
    record l' { imports = Map.delete l'.imports m }

pub without_row-Mirror : (m : String) (l : Links) → Mirror l → Mirror (without_row m l)
without_row-Mirror m l mirror a b =
    let old = Map.keys (Map.inner l.imports m) in
    ground (
      arith,
      cells-drop_importers m l old a b,
      Map.cell-delete_row (drop_importers m l old).imports m a b,
      Map.contains-keys (Map.inner l.imports m) b,
      mirror a b,
      eq_iff m a,
    )

pub ensure_row-Mirror : (m : String) (l : Links) → Mirror l → Mirror (ensure_row m l)
unfolding ensure_row
ensure_row-Mirror m l mirror a b = ground (
  arith,
  mirror a b,
  Map.cell-put_empty l.imports m a b,
  Map.get-empty {V = ImportEdge} b,
  eq_iff m a,
)

pub has-ensure_row :
    (m n : String) (l : Links)
    → Map.has (ensure_row m l).imports n ≡ (str_eq m n || Map.has l.imports n)
unfolding ensure_row
has-ensure_row m n l = ground (arith, Map.get-put l.imports m n [], eq_iff m n)

-- No write panics if the module's row is there, and no row comes or goes.
pub link_total :
    (f : File) (l : Links) (imp : Import)
    → Map.has l.imports f.module_name ≡ true
    → (l' : Links) × (link f l imp ≡ some l')
      × ((n : String) → Map.has l'.imports n ≡ Map.has l.imports n)
unfolding link
link_total f l imp h = elim (Option-cases (Map.get l.imports f.module_name)) [
  | inl missing ↦ absurd (ground (arith, missing))
  | inr (row, e) ↦ (
    written f l imp row,
    rw (e, link),
    λ n. ground (
      arith,
      Map.get-put l.imports f.module_name n (Map.put row imp.module_name (edge_of f imp)),
      eq_iff f.module_name n,
    ),
  )
]

pub link_all_total :
    (f : File) (l : Links) (imps : List Import)
    → Map.has l.imports f.module_name ≡ true
    → (l' : Links) × (link_all f l imps ≡ some l')
      × ((n : String) → Map.has l'.imports n ≡ Map.has l.imports n)
unfolding link_all
link_all_total f l [] h = (l, refl, λ n. refl)
link_all_total f l (imp ∷ imps) h =
    let (l₁, e₁, rows₁) = link_total f l imp h in
    let (l₂, e₂, rows₂) = link_all_total f l₁ imps (rows₁ f.module_name ∙ h) in
    (l₂, rw (e₁, link_all) e₂, λ n. rows₂ n ∙ rows₁ n)
