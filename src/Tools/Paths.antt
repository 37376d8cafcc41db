-- ===== src/Tools/Paths.antt =====
-- internal/mcp/validate/args.go: paths in arguments are kept within the project's root.
use mathlib.Core.Path.{subst}
use code_watch.Prelude.{
  ℕ, zero, suc, ◌≤◌, take, String, Bool, true, false, not, ◌&&◌, ◌||◌, Option, none, some, List, [],
  ◌∷◌, map, length, if◌then◌else◌, leb, str_eq, arith, ◌≡◌, refl, sym, ◌∙◌, ap, inl, inr,
  Bool-cases, Option-cases, All, ◌⊎◌,
}
use code_watch.Prelude.Unique.{all}
use code_watch.Text.{GoText, GoPath}
use code_watch.Layers.Paths.{PathText, has_path_prefix}
use code_watch.Tools.Texts.{
  normalize_strings, normalize_strings_correct, first_places, trimmed_values,
}

-- `contracts.ErrorCode`, the two that the arguments' checks return
pub data ErrorCode : Type 0 where
  invalid_argument : ErrorCode
  internal : ErrorCode

pub record ToolError : Type 0 where
  pub code : ErrorCode
  pub message : String

abbrev pub refuse : String → ToolError
refuse m = record { code = invalid_argument; message = m }

abbrev pub no_abs : ToolError
no_abs = record { code = internal; message = "failed to resolve project root" }

abbrev pub max_path_count : ℕ
max_path_count = 64

module _ (text : GoText) (path : GoPath) (globs : PathText) where
  -- `filepath.Clean` of the path, made absolute under the root
  unfoldable pub clean_under : String → String → String
  clean_under abs_root p = path.clean (if path.is_abs p then p else path.join abs_root p)

  -- The loop over the paths: an error, or the paths.
  unfoldable pub sanitize_each : String → List String → ToolError ⊎ List String
  unfolding clean_under has_path_prefix
  sanitize_each abs_root [] = inr []
  sanitize_each abs_root (p ∷ ps) =
      let rest = sanitize_each abs_root ps in
      let clean_path = clean_under abs_root p in
      if not (has_path_prefix globs clean_path abs_root)
      then inl (refuse "path escapes project root")
      else elim rest [ inl e ↦ inl e | inr out ↦ inr (clean_path ∷ out) ]

  unfoldable pub sanitize_paths : List String → String → ToolError ⊎ List String
  unfolding normalize_strings sanitize_each
  sanitize_paths paths root =
      if str_eq root ""
      then inr (normalize_strings text paths max_path_count)
      else elim (path.abs root) [
        | none ↦ inl no_abs
        | some abs_root ↦ sanitize_each abs_root (normalize_strings text paths max_path_count)
      ]

length-take : (n : ℕ) (xs : List String) → length (take n xs) ≤ n
length-take n [] = omega arith
length-take zero (x ∷ xs) = omega arith
length-take (suc n) (x ∷ xs) = omega (arith, length-take n xs)

normalize_strings-IsBounded :
    (text : GoText) (values : List String)
    → length (normalize_strings text values max_path_count) ≤ max_path_count
normalize_strings-IsBounded text values =
    let xs = first_places [] (trimmed_values text values) in
    omega
      (arith, ap length (normalize_strings_correct text values max_path_count), length-take 64 xs)

module _ (text : GoText) (path : GoPath) (globs : PathText) where
  -- The given paths, cleaned under the root.
  abbrev pub cleaned : String → List String → List String
  cleaned abs_root ps = map (λ p. clean_under text path globs abs_root p) ps

  abbrev pub InRoot : String → List String → Type 0
  InRoot abs_root ps = All (λ p. has_path_prefix globs p abs_root ≡ true) ps

  abbrev Outcome : String → List String → Type 0
  Outcome abs_root ps =
      ((sanitize_each text path globs abs_root ps ≡ inr (cleaned abs_root ps))
        × InRoot abs_root (cleaned abs_root ps))
      ⊎ ((e : ToolError) × (sanitize_each text path globs abs_root ps ≡ inl e))

  sanitize_each-cases : (abs_root : String) (ps : List String) → Outcome abs_root ps
  unfolding sanitize_each
  sanitize_each-cases abs_root [] = inl (refl, tt)
  sanitize_each-cases abs_root (p ∷ ps) =
      elim (Bool-cases (has_path_prefix globs (clean_under text path globs abs_root p) abs_root)) [
        | inr outside ↦ inr (refuse "path escapes project root", rw (outside, sanitize_each) refl)
        | inl inside ↦ elim (sanitize_each-cases abs_root ps) [
          | inl (e, rooted) ↦ inl (rw (inside, e, sanitize_each) refl, (inside, rooted))
          | inr (err, e) ↦ inr (err, rw (inside, e, sanitize_each) refl)
        ]
      ]

  length-cleaned : (abs_root : String) (ps : List String) → length (cleaned abs_root ps) ≡ length ps
  length-cleaned abs_root [] = refl
  length-cleaned abs_root (p ∷ ps) = ap suc (length-cleaned abs_root ps)

  sanitize_each-InRoot :
      (abs_root : String) (ps out : List String)
      → sanitize_each text path globs abs_root ps ≡ inr out
      → (length out ≡ length ps) × InRoot abs_root out
  sanitize_each-InRoot abs_root ps out h = elim (sanitize_each-cases abs_root ps) [
    | inr (err, e) ↦ absurd (ground (arith, h, e))
    | inl (e, rooted) ↦
        let same : cleaned abs_root ps ≡ out = ground (arith, h, e) in
        (
          sym (ap length same) ∙ length-cleaned abs_root ps,
          subst (λ qs. InRoot abs_root qs) same rooted,
        )
  ]

  unrooted :
      (paths : List String) (root : String)
      → str_eq root "" ≡ true
      → sanitize_paths text path globs paths root
        ≡ inr (normalize_strings text paths max_path_count)
  unfolding sanitize_paths
  unrooted paths root e = rw (e, sanitize_paths) refl

  no_absolute :
      (paths : List String) (root : String)
      → str_eq root "" ≡ false
      → path.abs root ≡ none
      → sanitize_paths text path globs paths root ≡ inl no_abs
  unfolding sanitize_paths
  no_absolute paths root e f = rw (e, f, sanitize_paths) refl

  rooted_at :
      (paths : List String) (root r : String)
      → str_eq root "" ≡ false
      → path.abs root ≡ some r
      → sanitize_paths text path globs paths root
        ≡ sanitize_each text path globs r (normalize_strings text paths max_path_count)
  unfolding sanitize_paths
  rooted_at paths root r e f = rw (e, f, sanitize_paths) refl

  sanitize_paths-InRoot :
      (paths : List String) (root : String) (out : List String)
      → sanitize_paths text path globs paths root ≡ inr out
      → (length out ≤ max_path_count)
        × ((abs_root : String)
            → str_eq root "" ≡ false
            → path.abs root ≡ some abs_root
            → InRoot abs_root out)
  sanitize_paths-InRoot paths root out h = elim (Bool-cases (str_eq root "")) [
    | inl no_root ↦
        let same : normalize_strings text paths max_path_count ≡ out =
          ground (arith, h, unrooted paths root no_root) in
        (
          omega (arith, ap length same, normalize_strings-IsBounded text paths),
          λ r e f. absurd (ground (arith, e, no_root)),
        )
    | inr given ↦ elim (Option-cases (path.abs root)) [
      | inl fails ↦ absurd (ground (arith, h, no_absolute paths root given fails))
      | inr (r, e) ↦
          let ps = normalize_strings text paths max_path_count in
          let (len, rooted) =
            sanitize_each-InRoot r ps out (sym (rooted_at paths root r given e) ∙ h) in
          (
            omega (arith, len, normalize_strings-IsBounded text paths),
            λ q f g.
                let same : r ≡ q = ground (arith, e, g) in subst (λ a. InRoot a out) same rooted,
          )
    ]
  ]

  -- Whether a path lies in the root, where there is one.
  abbrev pub within_of : Option String → String → Bool
  within_of none p = false
  within_of (some abs_root) p = has_path_prefix globs p abs_root

  abbrev pub within : String → String → Bool
  within root p = str_eq root "" || within_of (path.abs root) p

  all-within :
      (root r : String) (ps : List String)
      → path.abs root ≡ some r
      → InRoot r ps
      → all (within root) ps ≡ true
  all-within root r [] e h = refl
  all-within root r (p ∷ ps) e h =
      let first : within root p ≡ true = ground (arith, ap (λ o. within_of o p) e, h.0) in
      ground (arith, first, all-within root r ps e h.1)

  all_free :
      (root : String) (ps : List String) → str_eq root "" ≡ true → all (within root) ps ≡ true
  all_free root [] e = refl
  all_free root (p ∷ ps) e = ground (arith, e, all_free root ps e)

  -- The paths that are let through number 64 at most and lie in the root, where there is one.
  pub sanitize_paths-within :
      (paths : List String) (root : String) (out : List String)
      → sanitize_paths text path globs paths root ≡ inr out
      → (leb (length out) max_path_count && all (within root) out) ≡ true
  sanitize_paths-within paths root out h =
      let (few, rooted) = sanitize_paths-InRoot paths root out h in
      elim (Bool-cases (str_eq root "")) [
        | inl free ↦ ground (arith, few, all_free root out free)
        | inr given ↦ elim (Option-cases (path.abs root)) [
          | inl fails ↦ absurd (ground (arith, h, no_absolute paths root given fails))
          | inr (r, e) ↦ ground (arith, few, all-within root r out e (rooted r given e))
        ]
      ]
