-- ===== src/Packages/Counts.antt =====
-- internal/engine/architecture/rules.go and evaluator.go: which files of a module a rule counts.
use text.Mathlib.Text.{starts_with}
use code_watch.Prelude.{
  ℕ, suc, String, Bool, true, false, not, ◌&&◌, ◌||◌, ◌≡◌, refl, ap, sym, ◌∙◌, inl, inr, List, [],
  ◌∷◌, arith, length, if◌then◌else◌, sort_strings, insert_sorted, str_le, select, Bool-cases,
}
use code_watch.Text.{GoText}
use code_watch.Graph.{ModuleInfo}
use code_watch.Layers.Paths.{PathText}
use code_watch.Packages.{
  Rule, ends_with, match_patterns, is_test_file, excludes_file, count_kept, count_files,
}

swapped :
    (p f : Bool) (n here inner path_first f_last whole : ℕ)
    → here ≡ (if f then suc inner else inner)
    → inner ≡ path_first
    → path_first ≡ (if p then suc n else n)
    → whole ≡ (if p then suc f_last else f_last)
    → f_last ≡ (if f then suc n else n)
    → here ≡ whole
swapped p f n here inner path_first f_last whole a b c d e = ground (arith, a, b, c, d, e)

module _ (text : GoText) (paths : PathText) (base : String → String) where
  -- The name of a test of Go or Python, in lower case.
  abbrev pub test_name : String → Bool
  test_name name =
      ends_with name "_test.go"
      || (ends_with name "_test.py" || (starts_with name "test_" && ends_with name ".py"))

  -- A file that the rule does not exclude.
  abbrev pub is_kept : Rule → String → Bool
  is_kept r path =
      not (r.exclude_tests && test_name (text.lower (base path)))
      && not (match_patterns text paths base r.exclude_files path (base path))

  is_kept_lem :
      (r : Rule) (path : String) → not (excludes_file text paths base r path) ≡ is_kept r path
  unfolding excludes_file is_test_file
  is_kept_lem r path = ground arith

  one_more :
      (r : Rule) (path : String) (files : List String)
      → count_kept text paths base r (path ∷ files) ≡ (
          if is_kept r path
          then suc (count_kept text paths base r files)
          else count_kept text paths base r files)
  unfolding count_kept
  one_more r path files = ground (arith, is_kept_lem r path)

  count_kept-insert_sorted :
      (r : Rule) (path : String) (files : List String)
      → count_kept text paths base r (insert_sorted path files)
        ≡ count_kept text paths base r (path ∷ files)
  unfolding insert_sorted
  count_kept-insert_sorted r path [] = refl
  count_kept-insert_sorted r path (f ∷ fs) = elim (Bool-cases (str_le path f)) [
    | inl first ↦ rw (first, insert_sorted) refl
    | inr later ↦
        rw (later, insert_sorted)
          (swapped (is_kept r path) (is_kept r f) (count_kept text paths base r fs) _ _ _ _ _
            (one_more r f (insert_sorted path fs)) (count_kept-insert_sorted r path fs)
            (one_more r path fs) (one_more r path (f ∷ fs)) (one_more r f fs))
  ]

  count_kept-sort_strings :
      (r : Rule) (files : List String)
      → count_kept text paths base r (sort_strings files) ≡ count_kept text paths base r files
  unfolding sort_strings
  count_kept-sort_strings r [] = refl
  count_kept-sort_strings r (f ∷ fs) =
      count_kept-insert_sorted r f (sort_strings fs)
      ∙ one_more r f (sort_strings fs)
      ∙ ap (λ n. if is_kept r f then suc n else n) (count_kept-sort_strings r fs)
      ∙ sym (one_more r f fs)

  length-select_if :
      (c : Bool) (x : String) (xs : List String)
      → length (if c then x ∷ xs else xs) ≡ (if c then suc (length xs) else length xs)
  length-select_if true x xs = refl
  length-select_if false x xs = refl

  count_kept-length :
      (r : Rule) (files : List String)
      → count_kept text paths base r files ≡ length (select (is_kept r) files)
  unfolding count_kept
  count_kept-length r [] = refl
  count_kept-length r (f ∷ fs) =
      one_more r f fs
      ∙ ap (λ n. if is_kept r f then suc n else n) (count_kept-length r fs)
      ∙ sym (length-select_if (is_kept r f) f (select (is_kept r) fs))

  -- A module's count is the number of its files that the rule does not exclude.
  pub count_files-length :
      (r : Rule) (info : ModuleInfo)
      → count_files text paths base info r ≡ length (select (is_kept r) info.files)
  unfolding count_files
  count_files-length r info = count_kept-sort_strings r info.files ∙ count_kept-length r info.files
