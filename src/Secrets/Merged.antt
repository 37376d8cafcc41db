-- ===== src/Secrets/Merged.antt =====
-- internal/engine/secrets/detector.go: the lines that the normalized ranges cover.
use code_watch.Prelude.{
  ℕ, zero, suc, ◌+◌, ◌<◌, ◌≤◌, ◌≡◌, refl, ap, ◌∙◌, Bool, true, false, ◌&&◌, ◌||◌, Option, none,
  some, List, [], ◌∷◌, leb, ◌==◌, arith, Bool-cases, Option-cases, inl, inr,
}
use code_watch.Secrets.Ranges.{
  LineRange, first_line, last_line, in_order, cut_at, clamp_range, clamp_ranges, before,
  insert_range, sort_ranges, extend, merge_from, merge_ranges, normalize_ranges,
}

abbrev pub inside : ℕ → LineRange → Bool
inside line r = leb r.start line && leb line r.end

abbrev pub covered : ℕ → List LineRange → Bool
covered line [] = false
covered line (r ∷ rs) = inside line r || covered line rs

-- The lines that a range asks for: those between its ends, in whichever order they stand.
abbrev pub asks : ℕ → LineRange → Bool
asks line r =
    (leb (first_line r) line && leb line (last_line r))
    || (leb (last_line r) line && leb line (first_line r))

abbrev pub asked : ℕ → List LineRange → Bool
asked line [] = false
asked line (r ∷ rs) = asks line r || asked line rs

-- Ranges of lines 1 to `total` in ascending order, with at least one line between two of them.
abbrev pub Apart : ℕ → ℕ → List LineRange → Type 0
Apart total from [] = Unit
Apart total from (r ∷ rs) =
    (from ≤ r.start) × (r.start ≤ r.end) × (r.end ≤ total) × Apart total (r.end + 2) rs

inside-in_order :
    (line a b : ℕ)
    → inside line (in_order a b) ≡ ((leb a line && leb line b) || (leb b line && leb line a))
unfolding in_order
inside-in_order line a b = ground arith

abbrev inside? : ℕ → Option LineRange → Bool
inside? line none = false
inside? line (some r) = inside line r

inside-cut_at :
    (total line : ℕ) (r : LineRange)
    → inside? line (cut_at total r) ≡ (leb line total && inside line r)
unfolding cut_at
inside-cut_at total line r = ground arith

covered-clamp_ranges :
    (total line : ℕ) (rs : List LineRange)
    → covered line (clamp_ranges total rs) ≡ (leb line total && asked line rs)
unfolding clamp_ranges
covered-clamp_ranges total line [] = ground arith
covered-clamp_ranges total line (r ∷ rs) = ground (
  arith,
  covered-clamp_ranges total line rs,
  inside-cut_at total line (in_order (first_line r) (last_line r)),
  inside-in_order line (first_line r) (last_line r),
)

covered-insert_range :
    (line : ℕ) (r : LineRange) (rs : List LineRange)
    → covered line (insert_range r rs) ≡ (inside line r || covered line rs)
unfolding insert_range
covered-insert_range line r [] = refl
covered-insert_range line r (s ∷ ss) = elim (Bool-cases (before s r)) [
  | inl e ↦ rw (e, insert_range) (ground (arith, covered-insert_range line r ss))
  | inr e ↦ rw (e, insert_range)
]

covered-sort_ranges :
    (line : ℕ) (rs : List LineRange) → covered line (sort_ranges rs) ≡ covered line rs
unfolding sort_ranges
covered-sort_ranges line [] = refl
covered-sort_ranges line (r ∷ rs) =
    covered-insert_range line r (sort_ranges rs)
    ∙ ap (λ b. inside line r || b) (covered-sort_ranges line rs)

-- Ranges of lines up to `total`, by ascending start from `from` on.
abbrev Sorted : ℕ → ℕ → List LineRange → Type 0
Sorted total from [] = Unit
Sorted total from (r ∷ rs) =
    (from ≤ r.start) × (r.start ≤ r.end) × (r.end ≤ total) × Sorted total r.start rs

Sorted-mono : (total a b : ℕ) (rs : List LineRange) → b ≤ a → Sorted total a rs → Sorted total b rs
Sorted-mono total a b [] h s = tt
Sorted-mono total a b (r ∷ rs) h s = (omega arith, s.1, s.2, s.3)

insert_range-Sorted :
    (total from : ℕ) (r : LineRange) (rs : List LineRange)
    → from ≤ r.start
    → r.start ≤ r.end
    → r.end ≤ total
    → Sorted total from rs
    → Sorted total from (insert_range r rs)
unfolding insert_range
insert_range-Sorted total from r [] a b c s = (a, b, c, tt)
insert_range-Sorted total from r (x ∷ xs) a b c s = elim (Bool-cases (before x r)) [
  | inl e ↦
      rw (e, insert_range)
        (
          s.0,
          s.1,
          s.2,
          insert_range-Sorted total x.start r xs (unfold before in ground arith) b c s.3,
        )
  | inr e ↦ rw (e, insert_range) (a, b, c, (unfold before in ground arith, s.1, s.2, s.3))
]

extend-IsProper :
    (total : ℕ) (last c : LineRange)
    → last.start ≤ last.end
    → last.end ≤ total
    → c.end ≤ total
    → ((extend last c).start ≡ last.start)
      × (last.end ≤ (extend last c).end)
      × ((extend last c).end ≤ total)
unfolding extend
extend-IsProper total last c h k l = ground arith

inside-extend :
    (line : ℕ) (last c : LineRange)
    → last.start ≤ last.end
    → last.start ≤ c.start
    → c.start ≤ c.end
    → c.start ≤ last.end + 1
    → inside line (extend last c) ≡ (inside line last || inside line c)
unfolding extend
inside-extend line last c a b d e = ground arith

leb→le : (a b : ℕ) → leb a b ≡ true → a ≤ b
leb→le a b h = ground arith

-- Merging loses no line and adds none.
covered-merge_from :
    (total line : ℕ) (last : LineRange) (cs : List LineRange)
    → last.start ≤ last.end
    → last.end ≤ total
    → Sorted total last.start cs
    → covered line (merge_from last cs) ≡ (inside line last || covered line cs)
unfolding merge_from
covered-merge_from total line last [] h k s = refl
covered-merge_from total line last (c ∷ cs) h k s = elim (Bool-cases (leb c.start (last.end + 1))) [
  | inl touch ↦
      let (start, longer, fits) = extend-IsProper total last c h k s.2 in
      let sorted = Sorted-mono total c.start (extend last c).start cs (omega (arith, s.0)) s.3 in
      rw (touch, merge_from)
        (covered-merge_from total line (extend last c) cs (omega arith) fits sorted
          ∙ ground
              (arith, inside-extend line last c h s.0 s.1 (leb→le c.start (last.end + 1) touch)))
  | inr apart ↦
      rw (apart, merge_from)
        (ap (λ b. inside line last || b) (covered-merge_from total line c cs s.1 s.2 s.3))
]

merge_from-Apart :
    (total from : ℕ) (last : LineRange) (cs : List LineRange)
    → from ≤ last.start
    → last.start ≤ last.end
    → last.end ≤ total
    → Sorted total last.start cs
    → Apart total from (merge_from last cs)
unfolding merge_from
merge_from-Apart total from last [] f h k s = (f, h, k, tt)
merge_from-Apart total from last (c ∷ cs) f h k s = elim (Bool-cases (leb c.start (last.end + 1))) [
  | inl touch ↦
      let (start, longer, fits) = extend-IsProper total last c h k s.2 in
      let sorted = Sorted-mono total c.start (extend last c).start cs (omega (arith, s.0)) s.3 in
      rw (touch, merge_from)
        (merge_from-Apart total from (extend last c) cs (omega arith) (omega arith) fits sorted)
  | inr apart ↦
      rw (apart, merge_from)
        (f, h, k, merge_from-Apart total (last.end + 2) c cs (ground arith) s.1 s.2 s.3)
]

clamp_range-bounds :
    (total : ℕ) (r c : LineRange)
    → clamp_range total r ≡ some c
    → (1 ≤ c.start) × (c.start ≤ c.end) × (c.end ≤ total)
unfolding clamp_range
clamp_range-bounds total r c h = ground arith

sort_clamped-Sorted :
    (total : ℕ) (rs : List LineRange) → Sorted total 1 (sort_ranges (clamp_ranges total rs))
unfolding clamp_ranges sort_ranges
sort_clamped-Sorted total [] = tt
sort_clamped-Sorted total (r ∷ rs) = elim (Option-cases (clamp_range total r)) [
  | inl skipped ↦ rw (skipped, clamp_ranges) (sort_clamped-Sorted total rs)
  | inr (c, e) ↦
      let (a, b, d) = clamp_range-bounds total r c e in
      rw (e, clamp_ranges)
        (insert_range-Sorted total 1 c (sort_ranges (clamp_ranges total rs)) a b d
          (sort_clamped-Sorted total rs))
]

merge_ranges_lem :
    (total : ℕ) (rs : List LineRange)
    → Sorted total 1 rs
    → Apart total 1 (merge_ranges rs)
      × ((line : ℕ) → covered line (merge_ranges rs) ≡ covered line rs)
unfolding merge_ranges
merge_ranges_lem total [] s = (tt, λ line. refl)
merge_ranges_lem total (r ∷ rs) s = (
  merge_from-Apart total 1 r rs s.0 s.1 s.2 s.3,
  λ line. covered-merge_from total line r rs s.1 s.2 s.3,
)

-- The normalized ranges lie within lines 1 to `total`, ascend with at least one line between two
-- of them, and cover exactly the lines from 1 to `total` that some range asks for.
pub normalize_ranges_correct :
    (rs : List LineRange) (total : ℕ)
    → Apart total 1 (normalize_ranges rs total)
      × ((line : ℕ)
          → 0 < line
          → covered line (normalize_ranges rs total) ≡ (leb line total && asked line rs))
unfolding normalize_ranges
normalize_ranges_correct rs zero = (tt, λ line pos. ground arith)
normalize_ranges_correct rs (suc n) =
    let some_lines : (suc n == 0) ≡ false = ground arith in
    let sorted = sort_ranges (clamp_ranges (suc n) rs) in
    let (apart, same) = merge_ranges_lem (suc n) sorted (sort_clamped-Sorted (suc n) rs) in
    rw (some_lines, normalize_ranges)
      (
        apart,
        λ line pos.
            same line
            ∙ covered-sort_ranges line (clamp_ranges (suc n) rs)
            ∙ covered-clamp_ranges (suc n) line rs,
      )
