-- ===== src/Contract/Model.antt =====
-- continuo_python_runtime/contract/model.py
use continuo_python_runtime.Base.{ℕ, String, ◌<>◌, Bool, Option, List, [], ◌∷◌}
use continuo_python_runtime.Contract.Value.{Entries}

abbrev pub criticalities : List String
criticalities = "REGULATORY" ∷ "CORE" ∷ "SECONDARY" ∷ []

abbrev pub extra_columns_policies : List String
extra_columns_policies = "raise" ∷ "warn" ∷ []

abbrev pub default_kind : String
default_kind = "python-node"

abbrev pub mode_types : List String
mode_types = "append" ∷ "upsert" ∷ "replace" ∷ []

abbrev pub default_mode_type : String
default_mode_type = "replace"

abbrev pub contract_version : ℕ
contract_version = 1

pub record Column : Type 0 where
  pub name : String
  pub type : String
  pub nullable : Bool

pub record Node : Type 0 where
  pub schema : String
  pub table : String
  pub owner : String
  pub schedule : String
  pub criticality : String
  pub script : String
  pub reads : List (String × String)
  pub output_columns : List Column
  pub description : String
  pub extra_columns : String
  pub config : Entries
  pub content_hash : Option String
  pub kind : String
  pub secret_ref : String
  pub mode_type : String
  pub primary_key : List String
  pub timeout_minutes : Option ℕ

unfoldable pub relation : Node → String
relation n = n.schema <> "." <> n.table
