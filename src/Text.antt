-- ===== src/Text.antt =====
-- The standard library's functions on texts that the code calls.
use code_watch.Prelude.{String, Bool, Option, str_eq}

pub record GoText : Type 0 where
  -- `strings.TrimSpace`
  pub trim : String → String
  -- `strings.ToLower`
  pub lower : String → String
  -- `strings.ContainsAny(s, " \t\n")`
  pub has_space : String → Bool

-- `strings.TrimSpace(s) == ""`
abbrev pub blank : GoText → String → Bool
blank text s = str_eq (text.trim s) ""

-- The functions on paths of `path/filepath` that the code calls.
pub record GoPath : Type 0 where
  -- `filepath.Clean`
  pub clean : String → String
  -- `filepath.Match` of a pattern and a name, false as well where it returns an error
  pub matches : String → String → Bool
  -- `filepath.IsAbs`
  pub is_abs : String → Bool
  -- `filepath.Join`
  pub join : String → String → String
  -- `filepath.Abs`, `none` where it fails
  pub abs : String → Option String
