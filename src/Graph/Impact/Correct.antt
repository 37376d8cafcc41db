-- ===== src/Graph/Impact/Correct.antt =====
-- internal/engine/graph/impact.go: the report, and the modules that depend on the target.
use mathlib.Core.Path.{subst}
use code_watch.Prelude.{
  ◌+◌, String, Bool, true, false, not, ◌&&◌, ◌||◌, ◌≡◌, refl, sym, ap, ◌∙◌, inl, inr, ◌⊎◌, ◌↔◌,
  none, some, List, [], ◌∷◌, arith, str_eq, contains, contains-append, eq_iff, length, Option-cases,
  sort_strings, contains-sort_strings,
}
use code_watch.Prelude.Map
use code_watch.Prelude.Map.{Map}
use code_watch.Graph.{Graph}
use code_watch.Graph.Links.{has_importer}
use code_watch.Graph.Impact.{
  Wave, importers_of, row_names, ImpactReport, unless_direct, anyone, transitive_search,
  analyze_module, report_of, report, target_not_found, analyze_impact, first_file,
}
use code_watch.Graph.Impact.Reach.{
  Reach, start, through, IsWave, begin-IsWave, spread-IsWave, Reach-seen, unseen-length,
}

pub contains-row_names :
    (rows : Map (Map Bool)) (a b : String)
    → contains b (Map.keys (Map.inner rows a)) ≡ true
    → contains b (row_names rows) ≡ true
unfolding row_names Map.get Map.keys contains
contains-row_names [] a b h = cc
contains-row_names ((m, row) ∷ rows) a b h =
    ground (arith, contains-row_names rows a b, contains-append b (Map.keys row) (row_names rows))

importers_of_iff :
    (g : Graph) (a b : String) → contains b (importers_of g a) ≡ has_importer g.links a b
importers_of_iff g a b = Map.contains-keys (Map.inner g.links.imported_by a) b

-- The modules that import the target, themselves or through others.
pub data Dependent (g : Graph) (target : String) : String → Type 0 where
  direct : {m : String} → has_importer g.links target m ≡ true → Dependent g target m
  indirect :
      {m n : String} → Dependent g target m → has_importer g.links m n ≡ true → Dependent g target n

pub record IsImpact (g : Graph) (target : String) (r : ImpactReport) : Type 0 where
  pub names : r.target_module ≡ target
  pub directly : (m : String) → contains m r.direct_importers ≡ has_importer g.links target m
  pub transitively :
      (m : String)
      → (contains m r.transitive_importers ≡ true)
        ↔ (Dependent g target m × (has_importer g.links target m ≡ false))

module _ (g : Graph) (target : String) where
  abbrev starts : List String
  starts = sort_strings (importers_of g target)

  starts_iff : (m : String) → contains m starts ≡ has_importer g.links target m
  starts_iff m = contains-sort_strings m (importers_of g target) ∙ importers_of_iff g target m

  Reach-Dependent : {m : String} → Reach (importers_of g) anyone starts m → Dependent g target m
  Reach-Dependent (start {m = m} h) = direct (sym (starts_iff m) ∙ h)
  Reach-Dependent (through {m = m} {n = n} r a h) =
      indirect (Reach-Dependent r) (sym (importers_of_iff g m n) ∙ h)

  Dependent-Reach : {m : String} → Dependent g target m → Reach (importers_of g) anyone starts m
  Dependent-Reach (direct {m = m} h) = start (starts_iff m ∙ h)
  Dependent-Reach (indirect {m = m} {n = n} d h) =
      through (Dependent-Reach d) (ground arith) (importers_of_iff g m n ∙ h)

  abbrev newly : String → String → Bool
  newly m f = str_eq f m && not (contains m starts)

  contains-unless_direct :
      (m f : String) (found : List String)
      → contains f (unless_direct starts m found) ≡ (contains f found || newly m f)
  unfolding unless_direct contains
  contains-unless_direct m f found = ground (arith, contains-append f found (m ∷ []))

  transitive_search-IsWave :
      (w : Wave) × (transitive_search starts g ≡ some w)
      × IsWave
          (importers_of g)
          anyone
          starts
          (unless_direct starts)
          newly
          contains-unless_direct
          []
          ""
          []
          w
      × (w.queue ≡ [])
  unfolding transitive_search
  transitive_search-IsWave =
      let us = row_names g.links.imported_by in
      spread-IsWave (importers_of g) anyone starts (unless_direct starts) newly
        contains-unless_direct [] us (λ m n. contains-row_names g.links.imported_by m n)
        (length starts + length us) (record { queue = starts; seen = starts; found = [] })
        (omega (arith, unseen-length us starts))
        (begin-IsWave (importers_of g) anyone starts (unless_direct starts) newly
          contains-unless_direct [])

  listed :
      (w : Wave)
      → IsWave
          (importers_of g)
          anyone
          starts
          (unless_direct starts)
          newly
          contains-unless_direct
          []
          ""
          []
          w
      → (m : String) → contains m (sort_strings w.found) ≡ true
      → Dependent g target m × (has_importer g.links target m ≡ false)
  unfolding contains
  listed w i m h = elim (i.source m (sym (contains-sort_strings m w.found) ∙ h)) [
    | inl a ↦ cc
    | inr (n, seen, off, gives) ↦
        let same : n ≡ m = ground (arith, eq_iff m n) in
        (
          subst (Dependent g target) same (Reach-Dependent (i.sound n seen)),
          sym (starts_iff m) ∙ ap (λ z. contains z starts) (sym same) ∙ off,
        )
  ]

  unlisted :
      (w : Wave)
      → IsWave
          (importers_of g)
          anyone
          starts
          (unless_direct starts)
          newly
          contains-unless_direct
          []
          ""
          []
          w
      → w.queue ≡ []
      → (m : String) → Dependent g target m × (has_importer g.links target m ≡ false)
      → contains m (sort_strings w.found) ≡ true
  unlisted w i empty m (d, off) =
      contains-sort_strings m w.found
      ∙ i.gained m m
          (Reach-seen (importers_of g) anyone starts (unless_direct starts) newly
            contains-unless_direct [] w i empty (Dependent-Reach d))
          (starts_iff m ∙ off) (ground (arith, starts_iff m, eq_iff m m))

  analyze_module-IsImpact :
      (path : String)
      → (r : ImpactReport) × (analyze_module target path g ≡ some r) × IsImpact g target r
  unfolding analyze_module
  analyze_module-IsImpact path =
      let (w, e, i, empty) = transitive_search-IsWave in
      (
        report_of target path g w.found,
        rw (e, analyze_module) refl,
        record {
          names = refl;
          directly = starts_iff;
          transitively = λ m. (listed w i m, unlisted w i empty m);
        },
      )

-- The module that a path names: that of the file, or the module of this name if there is no such
-- file.
abbrev pub IsTarget : Graph → String → String → Type 0
IsTarget g path m =
    (Map.get g.file_to_module path ≡ some m)
    ⊎ ((Map.get g.file_to_module path ≡ none) × (m ≡ path) × (Map.has g.modules path ≡ true))

-- `AnalyzeImpact` always returns: with an error exactly if the path is neither a file nor a module
-- of the graph, and otherwise with the report of the module it names, whose direct importers are
-- the modules that import it and whose transitive importers are the other modules that import it
-- through some of them.
pub analyze_impact_correct :
    (path : String) (g : Graph)
    → ((analyze_impact path g ≡ target_not_found path)
        × (Map.get g.file_to_module path ≡ none)
        × (Map.get g.modules path ≡ none))
      ⊎ ((m : String) × (r : ImpactReport) × IsTarget g path m
          × (analyze_impact path g ≡ report r)
          × IsImpact g m r)
unfolding analyze_impact
analyze_impact_correct path g = elim (Option-cases (Map.get g.file_to_module path)) [
  | inr (m, file) ↦
      let (r, e, good) = analyze_module-IsImpact g m path in
      inr (m, r, inl file, rw (file, e, analyze_impact) refl, good)
  | inl no_file ↦ elim (Option-cases (Map.get g.modules path)) [
    | inl no_module ↦ inl (rw (no_file, no_module, analyze_impact) refl, no_file, no_module)
    | inr (info, here) ↦
        let (r, e, good) = analyze_module-IsImpact g path (first_file info) in
        inr (
          path,
          r,
          inr (no_file, refl, rw here refl),
          rw (no_file, here, e, analyze_impact) refl,
          good,
        )
  ]
]
