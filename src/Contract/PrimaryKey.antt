-- ===== src/Contract/PrimaryKey.antt =====
-- `_validate_primary_key` of continuo_python_runtime/contract/loader.py. `str.lower` is a parameter.
pub mod Laws
use continuo_python_runtime.Base.{
  String, ◌==◌, Bool, true, false, not, Option, none, some, List, [], ◌∷◌, Exception,
  contract_error, Result, ok, err, ◌>>=◌, ◌>>◌, require, elem, is_some, if◌then◌else◌,
}
use continuo_python_runtime.Base.Text.{codes, is_blank}
use continuo_python_runtime.Contract.Value.{Value, Heap, Entries, as_list, get}
use continuo_python_runtime.Contract.Model.{Column}
use continuo_python_runtime.Contract.Types.{SqlType, parse_sql_type}
use continuo_python_runtime.Contract.Types.Grammar.{text_eq}
use continuo_python_runtime.Contract.Kinds.{non_empty_string}

-- `{column.name: column for column in columns}.get(name)`: of two columns the later counts.
unfoldable pub by_name : String → List Column → Option Column
by_name name [] = none
by_name name (c ∷ cs) = elim (by_name name cs) [
  | some d ↦ some d
  | none ↦ if c.name == name then some c else none
]

module _ (lower : String → String) (columns : List Column) (label : String) where
  unfoldable pub check_key_column : Option Column → Result (Unit {0})
  check_key_column none = err (contract_error label "'primary_key' column is not in output_columns")
  check_key_column (some column) = do
    require (not column.nullable)
        (contract_error label "'primary_key' column must be declared nullable: false")
    t ← parse_sql_type (codes column.type)
    require (not (text_eq t.base (codes "DOUBLE_PRECISION")))
        (contract_error label "'primary_key' column is floating-point")

  -- The loop over the key's entries; `seen` holds the folded names.
  unfoldable pub check_key : List String → List Value → Result (List String)
  unfolding by_name
  check_key seen [] = ok []
  check_key seen (entry ∷ rest) = do
    name ←
        non_empty_string entry
          (contract_error label "'primary_key' entry must be a non-empty string")
    require (not (elem (lower name) seen))
        (contract_error label "'primary_key' names a column more than once")
    check_key_column (by_name name columns)
    names ← check_key (lower name ∷ seen) rest
    ok (name ∷ names)

  abbrev not_a_list : Exception
  not_a_list = contract_error label "'primary_key' must be a non-empty list of output column names"

  abbrev check_items : Option (List Value) → Result (List String)
  check_items none = err not_a_list
  check_items (some []) = err not_a_list
  check_items (some (v ∷ vs)) = check_key [] (v ∷ vs)

  unfoldable pub key_of : Heap → Option Value → Result (List String)
  key_of h none = err (contract_error label "'primary_key' is required when mode_type is upsert")
  key_of h (some raw_key) = check_items (as_list h raw_key)

  unfoldable pub validate_primary_key : Heap → Entries → String → Result (List String)
  unfolding get
  validate_primary_key h raw mode_type =
      if mode_type == "upsert"
      then key_of h (get "primary_key" raw)
      else if is_some (get "primary_key" raw)
      then err (contract_error label "'primary_key' is only allowed when mode_type is upsert")
      else ok []
