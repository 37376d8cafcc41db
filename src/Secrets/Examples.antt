-- ===== src/Secrets/Examples.antt =====
-- Runs of the secret scanner's line ranges, and the theorems at them.
use code_watch.Prelude.{ℕ, ◌<◌, ◌≡◌, ◌&&◌, [], ◌∷◌, List, leb}
use code_watch.Secrets.Ranges.{LineRange, normalize_ranges}
use code_watch.Secrets.Position.{build_line_index, line_col, walk, line_col-build_line_index}
use code_watch.Secrets.Merged.{Apart, covered, asked, normalize_ranges_correct}

abbrev three_ranges : List LineRange
three_ranges =
    record { start = 9; end = 4 }
    ∷ record { start = 2; end = 3 }
    ∷ record { start = 40; end = 50 }
    ∷ []

normalize_ranges_correct_example :
    Apart 20 1 (normalize_ranges three_ranges 20)
    × ((line : ℕ)
        → 0 < line
        → covered line (normalize_ranges three_ranges 20)
          ≡ (leb line 20 && asked line three_ranges))
normalize_ranges_correct_example = normalize_ranges_correct three_ranges 20

-- Byte 3 of "a", newline, "bc" is "c".
line_col-build_line_index_example :
    line_col (build_line_index (97 ∷ 10 ∷ 98 ∷ 99 ∷ [])) 3 ≡ walk 1 1 3 (97 ∷ 10 ∷ 98 ∷ 99 ∷ [])
line_col-build_line_index_example = line_col-build_line_index (97 ∷ 10 ∷ 98 ∷ 99 ∷ []) 3
