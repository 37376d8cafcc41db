-- ===== src/Config/Wildcards.antt =====
-- internal/core/config/helpers/validators.go: whether two path patterns can match the same path.
use Prim.Native.Char.{Char}
use Prim.Native.String.{String, [], ◌∷◌, ◌++◌}
use text.Mathlib.Text.{starts_with}
use code_watch.Prelude.{Bool, true, false, not, ◌&&◌, ◌||◌, if◌then◌else◌, str_eq}
use code_watch.Text.{GoPath}

abbrev pub one_of : String → Char → Bool
one_of [] c = false
one_of (d ∷ ds) c = str_eq (c ∷ []) (d ∷ []) || one_of ds c

-- `strings.ContainsAny(pattern, "*?[]{}")`
unfoldable pub has_wildcard : String → Bool
has_wildcard [] = false
has_wildcard (c ∷ cs) = one_of "*?[]{}" c || has_wildcard cs

-- The path separator is that of Unix.
unfoldable pub is_path_overlap : String → String → Bool
is_path_overlap a b =
    if str_eq a b
    then true
    else if starts_with a (b ++ "/")
    then true
    else if starts_with b (a ++ "/")
    then true
    else false

unfoldable pub wildcard_prefix : String → String
wildcard_prefix [] = []
wildcard_prefix (c ∷ cs) =
    let rest = wildcard_prefix cs in if one_of "*?[]{}" c then [] else c ∷ rest

-- The loop over the characters, with `inSet`.
unfoldable pub wildcard_sample : Bool → String → String
wildcard_sample in_set [] = []
wildcard_sample in_set (c ∷ cs) =
    let inside = wildcard_sample true cs in
    let outside = wildcard_sample false cs in
    if one_of "[" c
    then "x" ++ inside
    else if one_of "]" c
    then outside
    else if in_set
    then inside
    else if one_of "*?{}," c
    then "x" ++ outside
    else c ∷ outside

unfoldable pub wildcard_patterns_overlap : GoPath → String → String → Bool
unfolding wildcard_prefix wildcard_sample
wildcard_patterns_overlap path a b =
    let a_prefix = wildcard_prefix a in
    let b_prefix = wildcard_prefix b in
    let a_sample = wildcard_sample false a in
    let b_sample = wildcard_sample false b in
    (str_eq a b || (starts_with a b || starts_with b a))
    || ((not (str_eq a_prefix "")
          && (not (str_eq b_prefix "")
              && (starts_with a_prefix b_prefix || starts_with b_prefix a_prefix)))
        || ((not (str_eq a_sample "") && path.matches b a_sample)
            || (not (str_eq b_sample "") && path.matches a b_sample)))
