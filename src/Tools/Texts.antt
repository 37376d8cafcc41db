-- ===== src/Tools/Texts.antt =====
-- internal/mcp/validate/args.go: how lists of texts in arguments are brought into one form.
use code_watch.Prelude.{
  ℕ, suc, ◌+◌, ◌-◌, String, Bool, not, ◌&&◌, ◌||◌, List, [], ◌∷◌, take, if◌then◌else◌, ltb, leb,
  str_eq, contains, arith, ◌≡◌, refl, sym, ◌∙◌, ap, inl, inr, Bool-cases,
}
use code_watch.Text.{GoText, blank}

module _ (text : GoText) where
  -- The loop of `normalizeStrings`, with the length of `out` and the texts in `seen`.
  unfoldable pub normalize_from : ℕ → ℕ → List String → List String → List String
  unfolding contains
  normalize_from max_count count seen [] = []
  normalize_from max_count count seen (v ∷ vs) =
      let trimmed = text.trim v in
      let skipped = normalize_from max_count count seen vs in
      let taken = normalize_from max_count (count + 1) (trimmed ∷ seen) vs in
      if str_eq trimmed ""
      then skipped
      else if contains trimmed seen
      then skipped
      else if ltb 0 max_count && leb max_count count
      then []
      else trimmed ∷ taken

  unfoldable pub normalize_strings : List String → ℕ → List String
  unfolding normalize_from
  normalize_strings values max_count = normalize_from max_count 0 [] values

  abbrev pub known_format : String → Bool
  known_format f =
      str_eq f "dot"
      || (str_eq f "tsv" || (str_eq f "mermaid" || (str_eq f "plantuml" || str_eq f "markdown")))

  -- The loop of `normalizeFormats`, with the formats in `seen`.
  unfoldable pub normalize_formats : List String → List String → List String
  unfolding contains
  normalize_formats seen [] = []
  normalize_formats seen (v ∷ vs) =
      let trimmed = text.lower (text.trim v) in
      let skipped = normalize_formats seen vs in
      let taken = normalize_formats (trimmed ∷ seen) vs in
      if str_eq trimmed ""
      then skipped
      else if known_format trimmed
      then (if not (contains trimmed seen) then trimmed ∷ taken else skipped)
      else skipped

  -- The values that are not blank, trimmed.
  abbrev pub trimmed_values : List String → List String
  trimmed_values [] = []
  trimmed_values (v ∷ vs) =
      if blank text v then trimmed_values vs else text.trim v ∷ trimmed_values vs

-- The texts that are none of those seen, each at its first place.
abbrev pub first_places : List String → List String → List String
unfolding contains
first_places seen [] = []
first_places seen (x ∷ xs) =
    if contains x seen then first_places seen xs else x ∷ first_places (x ∷ seen) xs

-- A cut to `max_count` texts of which `count` are used up; 0 does not cut.
abbrev pub cut : ℕ → ℕ → List String → List String
cut max_count count xs = if ltb 0 max_count then take (max_count - count) xs else xs

cut-cons :
    (max_count count : ℕ) (x : String) (xs : List String)
    → cut max_count count (x ∷ xs)
      ≡ (if ltb 0 max_count && leb max_count count then [] else x ∷ cut max_count (count + 1) xs)
cut-cons max_count count x xs = elim (Bool-cases (ltb 0 max_count)) [
  | inl limited ↦ elim (Bool-cases (leb max_count count)) [
    | inl full ↦
        let none_left : max_count - count ≡ 0 = ground arith in rw (limited, full, none_left) refl
    | inr more ↦
        let one_less : max_count - count ≡ suc (max_count - (count + 1)) = ground arith in
        rw (limited, more, one_less) refl
  ]
  | inr unlimited ↦ rw unlimited refl
]

module _ (text : GoText) where
  normalize_from_lem :
      (max_count count : ℕ) (seen vs : List String)
      → normalize_from text max_count count seen vs
        ≡ cut max_count count (first_places seen (trimmed_values text vs))
  unfolding normalize_from contains
  normalize_from_lem max_count count seen [] = ground arith
  normalize_from_lem max_count count seen (v ∷ vs) = elim (Bool-cases (blank text v)) [
    | inl skipped ↦ rw skipped (normalize_from_lem max_count count seen vs)
    | inr kept ↦ elim (Bool-cases (contains (text.trim v) seen)) [
      | inl again ↦ rw (kept, again) (normalize_from_lem max_count count seen vs)
      | inr first ↦
          rw (kept, first)
            (ap (λ rest. if ltb 0 max_count && leb max_count count then [] else text.trim v ∷ rest)
                (normalize_from_lem max_count (count + 1) (text.trim v ∷ seen) vs)
              ∙ sym (
                  cut-cons max_count count (text.trim v)
                    (first_places (text.trim v ∷ seen) (trimmed_values text vs))))
    ]
  ]

  -- The list is that of the values that are not blank, trimmed, each at its first place, cut to
  -- the given number of texts where that is not 0.
  pub normalize_strings_correct :
      (values : List String) (max_count : ℕ)
      → normalize_strings text values max_count
        ≡ cut max_count 0 (first_places [] (trimmed_values text values))
  unfolding normalize_strings
  normalize_strings_correct values max_count = normalize_from_lem max_count 0 [] values
