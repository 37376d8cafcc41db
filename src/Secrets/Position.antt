-- ===== src/Secrets/Position.antt =====
-- internal/engine/secrets/detector.go: the line and column of a byte, from an index of the line
-- starts. The offsets that the detector asks for are not negative; 10 is the newline.
use code_watch.Prelude.{
  ℕ, zero, suc, ◌+◌, ◌-◌, ◌≤◌, ◌≡◌, refl, ap, ◌∙◌, inl, inr, List, [], ◌∷◌, ltb, ◌==◌,
  if◌then◌else◌, arith, false, Bool-cases,
}

-- The loop of `buildLineIndex`, at byte `i`.
unfoldable pub starts_from : ℕ → List ℕ → List ℕ
starts_from i [] = []
starts_from i (b ∷ bs) =
    let rest = starts_from (i + 1) bs in if b == 10 then (i + 1) ∷ rest else rest

-- `buildLineIndex`
unfoldable pub build_line_index : List ℕ → List ℕ
unfolding starts_from
build_line_index content = 0 ∷ starts_from 0 content

-- `sort.Search`: the first index whose start lies behind the offset; the starts ascend.
unfoldable pub search_start : ℕ → List ℕ → ℕ
search_start offset [] = 0
search_start offset (s ∷ ss) =
    let rest = search_start offset ss in if ltb offset s then 0 else suc rest

-- `i.starts[line]`
unfoldable pub start_at : ℕ → List ℕ → ℕ
start_at line [] = 0
start_at zero (s ∷ ss) = s
start_at (suc line) (s ∷ ss) = start_at line ss

-- `lineCol`; the column is at least 1 as it stands.
unfoldable pub line_col : List ℕ → ℕ → ℕ × ℕ
unfolding search_start start_at
line_col starts offset =
    let line = search_start offset starts - 1 in (line + 1, offset - start_at line starts + 1)

-- The line and column after walking `n` bytes from a given place; past the end the column goes on.
abbrev pub walk : ℕ → ℕ → ℕ → List ℕ → ℕ × ℕ
walk line col n [] = (line, col + n)
walk line col zero (b ∷ bs) = (line, col)
walk line col (suc n) (b ∷ bs) =
    if b == 10 then walk (line + 1) 1 n bs else walk line (col + 1) n bs

search_none : (offset i : ℕ) (bs : List ℕ) → offset ≤ i → search_start offset (starts_from i bs) ≡ 0
unfolding starts_from search_start
search_none offset i [] h = refl
search_none offset i (b ∷ bs) h = ground (arith, search_none offset (i + 1) bs)

-- The line before byte `i` starts at `s`, and is line `base`.
abbrev place : ℕ → ℕ → ℕ → List ℕ → ℕ × ℕ
place base offset s ss =
    (base + search_start offset ss, offset - start_at (search_start offset ss) (s ∷ ss) + 1)

pair_eq : {a b c d : ℕ} → a ≡ c → b ≡ d → ◌≡◌ {A = ℕ × ℕ} (a, b) (c, d)
pair_eq {b = b} {c = c} e f = ap (λ x. (x, b)) e ∙ ap (λ y. (c, y)) f

-- A start at or before the offset counts.
place-step :
    (base offset s t : ℕ) (ss : List ℕ)
    → t ≤ offset
    → place base offset s (t ∷ ss) ≡ place (base + 1) offset t ss
unfolding search_start start_at
place-step base offset s t ss h =
    let behind : ltb offset t ≡ false = ground arith in
    rw (behind, search_start) (pair_eq (omega arith) refl)

place-walk :
    (base i s n : ℕ) (bs : List ℕ)
    → s ≤ i
    → place base (i + n) s (starts_from i bs) ≡ walk base (i - s + 1) n bs
unfolding starts_from search_start start_at
place-walk base i s n [] h = pair_eq (omega arith) (omega arith)
place-walk base i s zero (b ∷ bs) h =
    ap (λ k. (base + k, i + 0 - start_at k (s ∷ starts_from i (b ∷ bs)) + 1))
      (search_none (i + 0) i (b ∷ bs) (omega arith))
    ∙ pair_eq (omega arith) (omega arith)
place-walk base i s (suc n) (b ∷ bs) h =
    let further : i + suc n ≡ i + 1 + n = omega arith in
    elim (Bool-cases (b == 10)) [
      | inl e ↦
          rw (e, starts_from)
            (place-step base (i + suc n) s (i + 1) (starts_from (i + 1) bs) (omega arith)
              ∙ ap (λ o. place (base + 1) o (i + 1) (starts_from (i + 1) bs)) further
              ∙ place-walk (base + 1) (i + 1) (i + 1) n bs (omega arith)
              ∙ ap (λ c. walk (base + 1) c n bs) (omega arith))
      | inr e ↦
          rw (e, starts_from)
            (ap (λ o. place base o s (starts_from (i + 1) bs)) further
              ∙ place-walk base (i + 1) s n bs (omega arith)
              ∙ ap (λ c. walk base c n bs) (omega arith))
    ]

-- The line and column that the index gives an offset are those of a walk over the content's bytes
-- from line 1, column 1, where a newline starts the next line and any other byte is one column.
pub line_col-build_line_index :
    (content : List ℕ) (offset : ℕ)
    → line_col (build_line_index content) offset ≡ walk 1 1 offset content
unfolding line_col build_line_index search_start start_at
line_col-build_line_index content offset =
    let ss = starts_from 0 content in
    let k = search_start offset ss in
    let from_start : ltb offset 0 ≡ false = ground arith in
    let line : suc k - 1 ≡ k = omega arith in
    rw (from_start, search_start)
      (ap (λ j. (j + 1, offset - start_at j (0 ∷ ss) + 1)) line
        ∙ pair_eq (omega arith) refl
        ∙ ap (λ o. place 1 o 0 ss) (omega arith)
        ∙ place-walk 1 0 0 offset content (omega arith)
        ∙ ap (λ c. walk 1 c offset content) (omega arith))
