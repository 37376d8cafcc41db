-- ===== src/Layers/Paths.antt =====
-- internal/shared/util/util.go: how paths and patterns are compared.
use Prim.Native.String.{◌++◌, len, slice}
use text.Mathlib.Text.{starts_with}
use code_watch.Prelude.{String, Bool, true, ◌||◌, Option, if◌then◌else◌, str_eq}

-- The standard library's text functions and the glob library, whose `compile` may fail.
pub record PathText : Type 0 where
  -- `path.Clean(strings.TrimSpace(strings.ReplaceAll(s, "\\", "/")))`
  pub clean : String → String
  -- `strings.ContainsAny(pattern, "*?[]{}")`
  pub wildcard : String → Bool
  pub compile : String → Option (String → Bool)

-- `NormalizePatternPath` of internal/shared/util/util.go
unfoldable pub normalize : PathText → String → String
normalize text s =
    let clean = text.clean s in
    if str_eq clean "."
    then ""
    else if starts_with clean "./"
    then slice clean 2 (len clean)
    else clean

-- `HasPathPrefix` of internal/shared/util/util.go
unfoldable pub has_path_prefix : PathText → String → String → Bool
unfolding normalize
has_path_prefix text path prefix =
    let p = normalize text path in
    let q = normalize text prefix in
    if str_eq p "" || str_eq q ""
    then str_eq p q
    else if str_eq p q
    then true
    else starts_with p (q ++ "/")
