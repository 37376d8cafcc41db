-- ===== src/Unused/Scan.antt =====
-- internal/engine/resolver/unused_imports.go: the scan of a file's imports, and of files.
use mathlib.Core.List.{◌++◌}
use code_watch.Prelude.{String, not, Option, none, some, List, [], ◌∷◌, if◌then◌else◌, contains}
use code_watch.Model.{File, Import}
use code_watch.Graph.{Graph}
use code_watch.Graph.Files.{get_file}
use code_watch.Unused.Names.{Splits}
use code_watch.Unused.{UnusedImport, supports_unused_import, reference_names, unused_in_import}

-- The loop of `findUnusedInFile` over the imports.
unfoldable pub unused_in_imports :
    Splits → List String → File → List String → List Import → List UnusedImport
unfolding unused_in_import
unused_in_imports splits excluded f refs [] = []
unused_in_imports splits excluded f refs (imp ∷ imps) =
    unused_in_import splits excluded f refs imp ++ unused_in_imports splits excluded f refs imps

-- `findUnusedInFile`
unfoldable pub find_unused_in_file : Splits → List String → File → List UnusedImport
unfolding unused_in_imports
find_unused_in_file splits excluded f =
    if not (supports_unused_import f.language)
    then []
    else unused_in_imports splits excluded f (reference_names f.references) f.imports

-- The file's entries before those of the other paths.
unfoldable pub scan_file :
    Splits → List String → Option File → List UnusedImport → List UnusedImport
unfolding find_unused_in_file
scan_file splits excluded none rest = rest
scan_file splits excluded (some f) rest = find_unused_in_file splits excluded f ++ rest

-- `FindUnusedImports`, with the paths seen so far; a read of a file may change the graph's cache.
unfoldable pub find_unused_imports :
    Splits
    → List String
    → Option (String → Option File)
    → List String
    → List String
    → Graph
    → List UnusedImport
unfolding contains get_file scan_file
find_unused_imports splits excluded loader seen [] g = []
find_unused_imports splits excluded loader seen (path ∷ paths) g =
    let again = find_unused_imports splits excluded loader seen paths g in
    let read = get_file loader path g in
    let rest = find_unused_imports splits excluded loader (path ∷ seen) paths read.1 in
    if contains path seen then again else scan_file splits excluded read.0 rest
