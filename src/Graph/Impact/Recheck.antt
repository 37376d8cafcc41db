-- ===== src/Graph/Impact/Recheck.antt =====
-- internal/engine/graph/detect.go: what `InvalidateTransitive` lists.
use code_watch.Prelude.{
  suc, String, Bool, true, false, ◌||◌, ◌≡◌, refl, inl, inr, ◌⊎◌, ◌↔◌, none, some, List, [], ◌∷◌,
  arith, str_eq, contains, contains-append, eq_iff, length, Option-cases,
}
use code_watch.Prelude.Map
use code_watch.Graph.{Graph}
use code_watch.Graph.Update.{list_path}
use code_watch.Graph.Impact.{
  Wave, importers_of, row_names, list_paths, files_of, recheck, invalidate_transitive,
}
use code_watch.Graph.Impact.Reach.{
  Reach, IsWave, begin-IsWave, spread-IsWave, Reach-seen, unseen-length,
}
use code_watch.Graph.Impact.Correct.{contains-row_names}

contains-list_path :
    (f p : String) (fs : List String) → contains f (list_path p fs) ≡ (contains f fs || str_eq f p)
unfolding list_path contains
contains-list_path f p fs = ground (arith, contains-append f fs (p ∷ []), eq_iff f p)

contains-list_paths :
    (f : String) (ps fs : List String)
    → contains f (list_paths ps fs) ≡ (contains f fs || contains f ps)
unfolding list_paths contains
contains-list_paths f [] fs = ground arith
contains-list_paths f (p ∷ ps) fs =
    ground (arith, contains-list_paths f ps (list_path p fs), contains-list_path f p fs)

-- The target and the modules on a chain of importers from it; a chain goes on only from a module
-- of the graph.
abbrev pub Affected : Graph → String → String → Type 0
Affected g m = Reach (importers_of g) (Map.has g.modules) (m ∷ [])

-- What is listed for a file of module `m`.
abbrev pub IsRecheck : Graph → String → String → List String → Type 0
IsRecheck g path m files =
    (f : String)
    → (contains f files ≡ true) ↔ (
        (f ≡ path)
        ⊎ ((n : String) × Affected g m n
            × (str_eq n m ≡ false)
            × (contains f (files_of g n) ≡ true)))

module _ (g : Graph) (path m : String) where
  abbrev gives : String → String → Bool
  gives n f = contains f (files_of g n)

  contains-recheck :
      (n f : String) (found : List String)
      → contains f (recheck g n found) ≡ (contains f found || gives n f)
  unfolding recheck
  contains-recheck n f found = contains-list_paths f (files_of g n) found

  abbrev IsRun : Wave → Type 0
  IsRun =
      IsWave (importers_of g) (Map.has g.modules) (m ∷ []) (recheck g) gives contains-recheck
        (path ∷ []) "" []

  run-IsRecheck : (w : Wave) → IsRun w → w.queue ≡ [] → IsRecheck g path m w.found
  unfolding contains
  run-IsRecheck w i empty f = (
    λ h. elim (i.source f h) [
      | inl e ↦ inl (ground (arith, eq_iff f path))
      | inr (n, seen, off, listed) ↦ inr (n, i.sound n seen, ground arith, listed)
    ],
    λ h. elim h [
      | inl e ↦ i.keeps f (ground (arith, eq_iff f path))
      | inr (n, reach, off, listed) ↦
          i.gained n f
            (Reach-seen (importers_of g) (Map.has g.modules) (m ∷ []) (recheck g) gives
              contains-recheck (path ∷ []) w i empty reach)
            (ground arith) listed
    ],
  )

-- `InvalidateTransitive` always returns: nothing for an unknown file, and otherwise the file and
-- every file of the other modules on a chain of importers from its module, and no other file.
pub invalidate_transitive_correct :
    (path : String) (g : Graph)
    → (files : List String) × (invalidate_transitive path g ≡ some files)
      × (((Map.get g.file_to_module path ≡ none) × (files ≡ []))
          ⊎ ((m : String) × (Map.get g.file_to_module path ≡ some m) × IsRecheck g path m files))
unfolding invalidate_transitive
invalidate_transitive_correct path g = elim (Option-cases (Map.get g.file_to_module path)) [
  | inl unknown ↦ ([], rw (unknown, invalidate_transitive) refl, inl (unknown, refl))
  | inr (m, e) ↦
      let us = row_names g.links.imported_by in
      let (w, out, i, empty) =
        spread-IsWave (importers_of g) (Map.has g.modules) (m ∷ []) (recheck g) (gives g path m)
          (contains-recheck g path m) (path ∷ []) us
          (λ a b. contains-row_names g.links.imported_by a b) (suc (length us))
          (record { queue = m ∷ []; seen = m ∷ []; found = path ∷ [] })
          (omega (arith, unseen-length us (m ∷ [])))
          (begin-IsWave (importers_of g) (Map.has g.modules) (m ∷ []) (recheck g) (gives g path m)
            (contains-recheck g path m) (path ∷ [])) in
      (
        w.found,
        rw (e, out, invalidate_transitive) refl,
        inr (m, e, run-IsRecheck g path m w i empty),
      )
]
