-- ===== src/Model.antt =====
-- The parsed files of internal/engine/parser/types.go. Counts and lines are never negative there.
-- Fields that no modelled function reads (raw text, scopes, signatures, time) are left out.
use code_watch.Prelude.{ℕ, String, Bool, List}

pub record Location : Type 0 where
  pub file : String
  pub line : ℕ
  pub column : ℕ

pub data DefinitionKind : Type 0 where
  function class method variable constant type interface : DefinitionKind

pub record Import : Type 0 where
  pub module_name : String
  pub alias : String
  pub items : List String
  pub location : Location

pub record Definition : Type 0 where
  pub name : String
  pub full_name : String
  pub kind : DefinitionKind
  pub location : Location
  pub exported : Bool
  pub visibility : String
  pub branch_count : ℕ
  pub parameter_count : ℕ
  pub nesting_depth : ℕ
  pub loc : ℕ
  pub complexity_score : ℕ

-- `Context` of a reference: one of the four constants.
pub data RefContext : Type 0 where
  default ffi process service : RefContext

pub record Reference : Type 0 where
  pub name : String
  pub location : Location
  pub context : RefContext

pub record File : Type 0 where
  pub path : String
  pub language : String
  pub module_name : String
  pub imports : List Import
  pub definitions : List Definition
  pub references : List Reference
  pub local_symbols : List String
