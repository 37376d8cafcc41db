-- ===== src/Graph/Links/Mirror.antt =====
-- internal/engine/graph/graph.go: `importedBy` next to the transpose of `imports`.
use code_watch.Prelude.{
  String, Bool, true, not, ◌&&◌, ◌||◌, ◌≡◌, inl, inr, some, List, [], ◌∷◌, arith, str_eq, contains,
  eq_iff, Bool-cases, Option-cases, map,
}
use code_watch.Prelude.Map
use code_watch.Prelude.Map.{Map}
use code_watch.Model.{Import, File}
use code_watch.Graph.Links.{
  Links, edge_of, link, link_all, drop_importer, drop_importers, drop_stale, has_edge, has_importer,
}

-- A module imports another exactly if it is recorded as its importer.
abbrev pub Mirror : Links → Type 0
Mirror l = (from to : String) → has_importer l to from ≡ has_edge l from to

abbrev pub targets : List Import → List String
targets = map (λ imp. imp.module_name)

-- What one write adds.
pub cells-link :
    (f : File) (l l' : Links) (imp : Import) (a b : String)
    → link f l imp ≡ some l'
    → (has_edge l' a b ≡ ((str_eq f.module_name a && str_eq imp.module_name b) || has_edge l a b))
      × (has_importer l' b a
          ≡ ((str_eq imp.module_name b && str_eq f.module_name a) || has_importer l b a))
unfolding link
cells-link f l l' imp a b h = ground (
  arith,
  Map.cell-put l.imports f.module_name imp.module_name a b (edge_of f imp),
  Map.cell-put l.imported_by imp.module_name f.module_name b a true,
)

abbrev pub adds : File → List Import → String → String → Bool
adds f imps a b = str_eq f.module_name a && contains b (targets imps)

-- What the writes of a file's imports add.
pub cells-link_all :
    (f : File) (l l' : Links) (imps : List Import) (a b : String)
    → link_all f l imps ≡ some l'
    → (has_edge l' a b ≡ (adds f imps a b || has_edge l a b))
      × (has_importer l' b a ≡ (adds f imps a b || has_importer l b a))
unfolding link_all contains
cells-link_all f l l' [] a b h = ground arith
cells-link_all f l l' (imp ∷ imps) a b h = elim (Option-cases (link f l imp)) [
  | inl panics ↦ absurd (ground (arith, panics))
  | inr (m, e) ↦ ground (
    arith,
    cells-link f l m imp a b e,
    cells-link_all f m l' imps a b (rw (e, link_all) at h),
    eq_iff imp.module_name b,
    eq_iff b imp.module_name,
  )
]

-- What one removal takes away.
pub cells-drop_importer :
    (from to : String) (l : Links) (a b : String)
    → (has_edge (drop_importer from l to) a b ≡ has_edge l a b)
      × (has_importer (drop_importer from l to) b a
          ≡ (not (str_eq to b && str_eq from a) && has_importer l b a))
unfolding drop_importer
cells-drop_importer from to l a b =
    ground
      (arith, Map.cell-delete l.imported_by to from b a, eq_iff to b, Map.get-empty {V = Bool} a)

pub cells-drop_importers :
    (from : String) (l : Links) (tos : List String) (a b : String)
    → (has_edge (drop_importers from l tos) a b ≡ has_edge l a b)
      × (has_importer (drop_importers from l tos) b a
          ≡ (not (str_eq from a && contains b tos) && has_importer l b a))
unfolding drop_importers contains
cells-drop_importers from l [] a b = ground arith
cells-drop_importers from l (to ∷ tos) a b = ground (
  arith,
  cells-drop_importer from to l a b,
  cells-drop_importers from (drop_importer from l to) tos a b,
  eq_iff to b,
  eq_iff b to,
)

pub cells-drop_stale :
    (from : String) (l : Links) (tos : List String) (a b : String)
    → (has_edge (drop_stale from l tos) a b ≡ has_edge l a b)
      × (has_importer (drop_stale from l tos) b a ≡ (
          not (str_eq from a && contains b tos && not (has_edge l from b)) && has_importer l b a))
unfolding drop_stale contains
cells-drop_stale from l [] a b = ground arith
cells-drop_stale from l (to ∷ tos) a b = elim (Bool-cases (has_edge l from to)) [
  | inl kept ↦
      rw (kept, drop_stale)
        (ground (arith, cells-drop_stale from l tos a b, eq_iff to b, eq_iff b to))
  | inr stale ↦
      rw (stale, drop_stale)
        (ground (
          arith,
          cells-drop_importer from to l a b,
          cells-drop_importer from to l from b,
          cells-drop_stale from (drop_importer from l to) tos a b,
          eq_iff to b,
          eq_iff b to,
          eq_iff from a,
        ))
]
