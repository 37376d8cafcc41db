-- ===== src/Query/Cql.antt =====
-- internal/data/query/cql.go: the conditions of a query.
use text.Mathlib.Text.{find?}
use code_watch.Prelude.{
  ℕ, String, Bool, true, false, not, ◌&&◌, Option, none, some, List, [], ◌∷◌, if◌then◌else◌,
  is_some, str_eq,
}
use code_watch.Prelude.Int.{ℤ, pos, lessℤ}
use code_watch.Text.{GoText}

pub record CqlCondition : Type 0 where
  pub field : String
  pub op : String
  pub int_val : ℤ
  pub str_val : String
  pub is_int : Bool
  pub is_str : Bool

-- The five regular expressions by their groups, and the functions of the standard library.
pub record CqlGrammar : Type 0 where
  -- the group behind WHERE, "" without one
  pub select : String → Option String
  pub split_and : String → List String
  pub numeric : String → Option (String × String × String)
  pub contains_cond : String → Option (String × String)
  pub string_cond : String → Option (String × String × String)
  -- `strconv.Atoi`
  pub atoi : String → Option ℤ
  -- `strings.EqualFold`
  pub equal_fold : String → String → Bool

module _ (text : GoText) (grammar : CqlGrammar) where
  abbrev pub numeric_condition : String × String × String → Option CqlCondition
  numeric_condition (field, op, value) = elim (grammar.atoi (text.trim value)) [
    | none ↦ none
    | some n ↦ some (record {
      field = text.lower (text.trim field);
      op = text.trim op;
      int_val = n;
      str_val = "";
      is_int = true;
      is_str = false;
    })
  ]

  abbrev pub text_condition : String → String → String → CqlCondition
  text_condition field op value = record {
    field = text.lower (text.trim field);
    op = op;
    int_val = pos 0;
    str_val = text.trim value;
    is_int = false;
    is_str = true;
  }

  abbrev pub string_condition : Option (String × String × String) → Option CqlCondition
  string_condition none = none
  string_condition (some (field, op, value)) = some (text_condition field (text.trim op) value)

  abbrev pub contains_condition :
      Option (String × String) → Option CqlCondition → Option CqlCondition
  contains_condition none next = next
  contains_condition (some (field, value)) next = some (text_condition field "contains" value)

  -- `none` is an error.
  unfoldable pub parse_cql_condition : String → Option CqlCondition
  parse_cql_condition raw = elim (grammar.numeric raw) [
    | some groups ↦ numeric_condition groups
    | none ↦
        contains_condition (grammar.contains_cond raw) (string_condition (grammar.string_cond raw))
  ]

  abbrev pub prepend : Option CqlCondition → Option (List CqlCondition) → Option (List CqlCondition)
  prepend none rest = none
  prepend (some c) none = none
  prepend (some c) (some cs) = some (c ∷ cs)

  unfoldable pub parse_conditions : List String → Option (List CqlCondition)
  unfolding parse_cql_condition
  parse_conditions [] = some []
  parse_conditions (p ∷ ps) = prepend (parse_cql_condition p) (parse_conditions ps)

  -- `ParseCQL`, whose target is always "modules"; `none` is an error.
  unfoldable pub parse_cql : String → Option (List CqlCondition)
  unfolding parse_conditions
  parse_cql raw = elim (grammar.select (text.trim raw)) [
    | none ↦ none
    | some group ↦
        let conditions = text.trim group in
        if str_eq conditions "" then some [] else parse_conditions (grammar.split_and conditions)
  ]

  -- The case of `matchesSingleCQLCondition` for the field `name`.
  unfoldable pub name_test : String → CqlCondition → Bool
  name_test name c =
      if not c.is_str
      then false
      else if str_eq c.op "contains"
      then is_some (find? (text.lower name) (text.lower c.str_val))
      else if str_eq c.op "="
      then grammar.equal_fold name c.str_val
      else if str_eq c.op "!="
      then not (grammar.equal_fold name c.str_val)
      else false

abbrev pub sameℤ : ℤ → ℤ → Bool
sameℤ a b = not (lessℤ a b) && not (lessℤ b a)

-- `compareCQLInt`
unfoldable pub compare_cql_int : ℕ → CqlCondition → Bool
compare_cql_int value c =
    if not c.is_int
    then false
    else if str_eq c.op ">"
    then lessℤ c.int_val (pos value)
    else if str_eq c.op ">="
    then not (lessℤ (pos value) c.int_val)
    else if str_eq c.op "<"
    then lessℤ (pos value) c.int_val
    else if str_eq c.op "<="
    then not (lessℤ c.int_val (pos value))
    else if str_eq c.op "="
    then sameℤ (pos value) c.int_val
    else if str_eq c.op "!="
    then not (sameℤ (pos value) c.int_val)
    else false
