-- ===== src/Unused/Examples.antt =====
-- The scan of a file, and the theorem at it.
use code_watch.Prelude.{contains, ◌&&◌, ◌≡◌, [], ◌∷◌}
use code_watch.Model.{File, Location, default}
use code_watch.Unused.Names.{Splits}
use code_watch.Unused.Scan.{find_unused_in_file}
use code_watch.Unused.Spec.{languages}
use code_watch.Unused.Correct.{reported, some_import, reported-find_unused_in_file}

abbrev whole : Splits
whole = record { last_part = λ sep s. s; without_extension = λ s. s }

abbrev here : Location
here = record { file = "a.py"; line = 1; column = 1 }

-- `from os import path, sep`, of which only `path` is used
abbrev script : File
script = record {
  path = "a.py";
  language = "python";
  module_name = "a";
  imports =
      record { module_name = "os"; alias = ""; items = "path" ∷ "sep" ∷ []; location = here } ∷ [];
  definitions = [];
  references = record { name = "path.join"; location = here; context = default } ∷ [];
  local_symbols = [];
}

reported-find_unused_in_file_example :
    reported "os" "" "sep" (find_unused_in_file whole [] script) ≡ (
      contains script.language languages
      && some_import whole [] script "os" "" "sep" script.imports)
reported-find_unused_in_file_example = reported-find_unused_in_file whole [] script "os" "" "sep"
