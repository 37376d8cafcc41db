-- ===== src/Secrets/Ranges.antt =====
-- internal/engine/secrets/detector.go: `normalizeRanges` and `buildScanSegments`. A negative line
-- number is read like 0 by every test of the source, so the numbers are natural.
use code_watch.Prelude.{
  ℕ, ◌+◌, ◌-◌, String, Bool, Option, none, some, List, [], ◌∷◌, ltb, leb, ◌==◌, if◌then◌else◌,
  length, take, drop,
}

pub record LineRange : Type 0 where
  pub start : ℕ
  pub end : ℕ

-- The defaults for a missing start and a missing end.
unfoldable pub first_line : LineRange → ℕ
first_line r = if r.start == 0 then 1 else r.start

unfoldable pub last_line : LineRange → ℕ
unfolding first_line
last_line r = if r.end == 0 then first_line r else r.end

-- `if end < start { start, end = end, start }`
unfoldable pub in_order : ℕ → ℕ → LineRange
in_order start end = record {
  start = if ltb end start then end else start;
  end = if ltb end start then start else end;
}

-- The cut at the last line; `none` is `continue`.
unfoldable pub cut_at : ℕ → LineRange → Option LineRange
cut_at total_lines r =
    if ltb total_lines r.start
    then none
    else some (record r { end = if ltb total_lines r.end then total_lines else r.end })

-- The body of the first loop.
unfoldable pub clamp_range : ℕ → LineRange → Option LineRange
unfolding first_line last_line in_order cut_at
clamp_range total_lines r = cut_at total_lines (in_order (first_line r) (last_line r))

unfoldable pub clamp_ranges : ℕ → List LineRange → List LineRange
unfolding clamp_range
clamp_ranges total_lines [] = []
clamp_ranges total_lines (r ∷ rs) =
    let rest = clamp_ranges total_lines rs in
    elim (clamp_range total_lines r) [ none ↦ rest | some c ↦ c ∷ rest ]

-- The order of `sort.Slice`: by start, then by end.
unfoldable pub before : LineRange → LineRange → Bool
before a b = if a.start == b.start then ltb a.end b.end else ltb a.start b.start

unfoldable pub insert_range : LineRange → List LineRange → List LineRange
unfolding before
insert_range r [] = r ∷ []
insert_range r (s ∷ ss) = if before s r then s ∷ insert_range r ss else r ∷ s ∷ ss

unfoldable pub sort_ranges : List LineRange → List LineRange
unfolding insert_range
sort_ranges [] = []
sort_ranges (r ∷ rs) = insert_range r (sort_ranges rs)

-- `if curr.End > last.End { last.End = curr.End }`
unfoldable pub extend : LineRange → LineRange → LineRange
extend last c = if ltb last.end c.end then record last { end = c.end } else last

-- The second loop; `last` is the last range of `merged`.
unfoldable pub merge_from : LineRange → List LineRange → List LineRange
unfolding extend
merge_from last [] = last ∷ []
merge_from last (c ∷ cs) =
    let joined = merge_from (extend last c) cs in
    let apart = last ∷ merge_from c cs in if leb c.start (last.end + 1) then joined else apart

unfoldable pub merge_ranges : List LineRange → List LineRange
unfolding merge_from
merge_ranges [] = []
merge_ranges (r ∷ rs) = merge_from r rs

-- `normalizeRanges`
unfoldable pub normalize_ranges : List LineRange → ℕ → List LineRange
unfolding clamp_ranges sort_ranges merge_ranges
normalize_ranges ranges total_lines =
    if total_lines == 0 then [] else merge_ranges (sort_ranges (clamp_ranges total_lines ranges))

pub record Segment : Type 0 where
  pub lines : List String
  pub line_offset : ℕ

unfoldable pub segments_of : List String → List LineRange → List Segment
segments_of lines [] = []
segments_of lines (r ∷ rs) =
    let start = r.start - 1 in
    let end = if ltb (length lines) r.end then length lines else r.end in
    let rest = segments_of lines rs in
    if leb (length lines) start
    then rest
    else if leb end start
    then rest
    else record { lines = take (end - start) (drop start lines); line_offset = start } ∷ rest

-- `buildScanSegments` on the lines of the text (`strings.Split` at the newlines); a segment's text
-- is its lines, joined by newlines.
unfoldable pub build_scan_segments : List String → List LineRange → List Segment
unfolding normalize_ranges segments_of
build_scan_segments lines [] = record { lines = lines; line_offset = 0 } ∷ []
build_scan_segments lines (r ∷ rs) = segments_of lines (normalize_ranges (r ∷ rs) (length lines))
