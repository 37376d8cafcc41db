-- ===== src/Config/Output.antt =====
-- internal/core/config/validator.go: the check of the outputs.
use Prim.Native.String.{◌++◌}
use code_watch.Prelude.{
  String, true, false, not, ◌&&◌, Option, none, some, List, [], ◌∷◌, if◌then◌else◌, is_some, str_eq,
  contains, arith, ◌≡◌, refl, sym, ◌∙◌, ap, map, eq_iff, inl, inr, Bool-cases, Option-cases,
}
use code_watch.Prelude.Int.{pos, lessℤ}
use code_watch.Prelude.Map
use code_watch.Prelude.Map.{Map}
use code_watch.Prelude.Unique.{unique, unique_after, unique_after-empty}
use code_watch.Text.{GoText, GoPath, blank}
use code_watch.Config.Types.{
  Output, MarkdownInjection, Fault, empty_value, out_of_range, not_one_of, duplicate, conflict,
}
use code_watch.Config.Loops.{check_each, check_each-accepts, accepted, or_else}

middle_two :
    (a b c d : Option Fault) → or_else a (or_else b (or_else c d)) ≡ none → (b ≡ none) × (c ≡ none)
middle_two a b c d h = ground (arith, h)

module _ (text : GoText) (path : GoPath) where
  -- The calls of `checkConflict` one after the other, with `outputs`, from a path to its output.
  unfoldable pub check_conflicts : Map String → List (String × String) → Option Fault
  check_conflicts outputs [] = none
  check_conflicts outputs ((p, name) ∷ rest) =
      let clean = path.clean p in
      let free = check_conflicts (Map.put outputs clean name) rest in
      let skipped = check_conflicts outputs rest in
      if str_eq p ""
      then skipped
      else elim (Map.get outputs clean) [ none ↦ free | some owner ↦ some (conflict owner name) ]

  -- The six files that the outputs are written to, with the names of their settings.
  abbrev pub output_files : Output → List (String × String)
  output_files o =
      (o.dot, "output.dot")
      ∷ (o.tsv, "output.tsv")
      ∷ (o.mermaid, "output.mermaid")
      ∷ (o.plant_uml, "output.plantuml")
      ∷ (o.markdown, "output.markdown")
      ∷ (o.sarif, "output.sarif")
      ∷ []

  abbrev pub injection_key : MarkdownInjection → String
  injection_key i =
      text.trim i.file ++ ("|" ++ (text.trim i.marker ++ ("|" ++ text.lower (text.trim i.format))))

  -- The loop over the injections, with the keys seen so far.
  unfoldable pub check_injections : List String → List MarkdownInjection → Option Fault
  unfolding contains
  check_injections seen [] = none
  check_injections seen (i ∷ is) =
      let format = text.lower (text.trim i.format) in
      let key = injection_key i in
      let rest = check_injections (key ∷ seen) is in
      if blank text i.file
      then some (empty_value "file")
      else if blank text i.marker
      then some (empty_value "marker")
      else if not (str_eq format "mermaid") && not (str_eq format "plantuml")
      then some (not_one_of "format")
      else if contains key seen
      then some (duplicate "markdown injection target" key)
      else rest

  unfoldable pub check_report : Output → Option Fault
  check_report o =
      let verbosity = text.lower (text.trim o.verbosity) in
      if blank text o.diagrams_dir
      then some (empty_value "output.paths.diagrams_dir")
      else if not (str_eq verbosity "summary")
          && (not (str_eq verbosity "standard") && not (str_eq verbosity "detailed"))
      then some (not_one_of "output.report.verbosity")
      else if lessℤ o.max_depth (pos 1)
      then some (out_of_range "max_depth")
      else none

  unfoldable pub validate_output : Output → Option Fault
  unfolding check_each check_conflicts check_injections check_report
  validate_output o = or_else (check_report o) (
      or_else
        (check_each (blank text) text.trim (empty_value "entry_points") "flow entry point" []
          o.entry_points)
        (or_else (check_conflicts [] (output_files o)) (check_injections [] o.update_markdown)))

  -- The files that are set, cleaned.
  abbrev pub set_files : List (String × String) → List String
  set_files [] = []
  set_files ((p, name) ∷ rest) =
      if str_eq p "" then set_files rest else path.clean p ∷ set_files rest

  -- The keys of the map are those seen.
  abbrev Tracks : Map String → List String → Type 0
  Tracks outputs seen = (k : String) → contains k seen ≡ Map.has outputs k

  Tracks-put :
      (outputs : Map String) (seen : List String) (k name : String)
      → Tracks outputs seen
      → Tracks (Map.put outputs k name) (k ∷ seen)
  unfolding contains
  Tracks-put outputs seen k name t j =
      ground (arith, t j, Map.get-put outputs k j name, eq_iff j k, eq_iff k j)

  check_conflicts-unique_after :
      (outputs : Map String) (seen : List String) (files : List (String × String))
      → Tracks outputs seen
      → check_conflicts outputs files ≡ none
      → unique_after seen (set_files files) ≡ true
  unfolding check_conflicts contains
  check_conflicts-unique_after outputs seen [] t h = refl
  check_conflicts-unique_after outputs seen ((p, name) ∷ rest) t h =
      elim (Bool-cases (str_eq p "")) [
        | inl unset ↦
            rw unset (check_conflicts-unique_after outputs seen rest t (ground (arith, h, unset)))
        | inr set ↦ elim (Option-cases (Map.get outputs (path.clean p))) [
          | inr (owner, e) ↦ absurd (ground (arith, h, set, e))
          | inl free ↦
              let others =
                check_conflicts-unique_after (Map.put outputs (path.clean p) name)
                  (path.clean p ∷ seen) rest (Tracks-put outputs seen (path.clean p) name t)
                  (ground (arith, h, set, free)) in
              let first : contains (path.clean p) seen ≡ false =
                t (path.clean p) ∙ ap is_some free in
              rw (set, first) others
        ]
      ]

  -- Where the outputs are accepted, no two of the six files that are set are the same path once
  -- cleaned, and no two entry points of the flow diagrams are the same text once trimmed.
  pub validate_output-unique :
      (o : Output)
      → validate_output o ≡ none
      → (unique (set_files (output_files o)) ≡ true)
        × (unique (map text.trim o.entry_points) ≡ true)
  unfolding validate_output Map.get
  validate_output-unique o h =
      let (entries, files) =
        middle_two (check_report o)
          (check_each (blank text) text.trim (empty_value "entry_points") "flow entry point" []
            o.entry_points)
          (check_conflicts [] (output_files o)) (check_injections [] o.update_markdown) h in
      (
        sym (unique_after-empty (set_files (output_files o)))
            ∙ check_conflicts-unique_after [] [] (output_files o) (λ k. refl) files,
        ground (
          arith,
          ap accepted entries,
          check_each-accepts (blank text) text.trim (empty_value "entry_points") "flow entry point"
              [] o.entry_points,
          unique_after-empty (map text.trim o.entry_points),
        ),
      )
