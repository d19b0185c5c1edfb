-- ===== src/Contract/Columns.antt =====
-- The `output_columns` loop of `parse_node`, in continuo_python_runtime/contract/loader.py.
pub mod Laws
use continuo_python_runtime.Base.{
  String, ◌==◌, Bool, true, not, Option, none, some, List, [], ◌∷◌, map, Exception, contract_error,
  other_error, Result, ok, err, ◌>>=◌, ◌>>◌, require, elem, keep, any, is_empty, if◌then◌else◌,
}
use continuo_python_runtime.Base.Text.{codes, is_blank}
use continuo_python_runtime.Contract.Value.{
  Value, null, bool, Heap, Entries, as_dict, as_list, as_str, as_bool, is_key, get, get_or,
  sortable,
}
use continuo_python_runtime.Contract.Model.{Column}
use continuo_python_runtime.Contract.Types.{SqlType, parse_sql_type}
use continuo_python_runtime.Contract.Kinds.{non_empty_string}

abbrev pub keys : Entries → List Value
keys = map (λ (k, _). k)

-- `set(raw) - allowed`
abbrev pub unknown_keys : List String → Entries → List Value
unknown_keys allowed raw = keep (λ k. not (any (λ a. is_key a k) allowed)) (keys raw)

-- `raise ContractError(... sorted(unknown))`: `sorted` itself may raise.
unfoldable pub refuse_unknown : String → List Value → Result (Unit {0})
unfolding sortable
refuse_unknown label unknown =
    if is_empty unknown
    then ok tt
    else if sortable unknown
    then err (contract_error label "unknown key(s)")
    else err (other_error "TypeError")

abbrev pub allowed_output_column_keys : List String
allowed_output_column_keys = "name" ∷ "type" ∷ "nullable" ∷ []

-- `except ContractError as e: raise ContractError(label ...)`
abbrev pub relabel {ℓ} : {A : Type ℓ} → String → Result A → Result A
relabel label (ok a) = ok a
relabel label (err (contract_error l text)) = err (contract_error label text)
relabel label (err e) = err e

module _ (h : Heap) (label : String) where
  unfoldable pub column_type : Value → Result String
  column_type v = elim (as_str v) [
    | none ↦ err (contract_error label "output column has unsupported 'type'")
    | some t ↦ relabel label (parse_sql_type (codes t)) >>= λ _. ok t
  ]

  unfoldable pub column_nullable : Value → Result Bool
  column_nullable v = elim (as_bool v) [
    | none ↦ err (contract_error label "output column has non-boolean 'nullable'")
    | some b ↦ ok b
  ]

  unfoldable pub parse_column : Option Entries → Result Column
  unfolding get
  parse_column none = err (contract_error label "each 'output_columns' entry must be a mapping")
  parse_column (some entry) = do
    refuse_unknown label (unknown_keys allowed_output_column_keys entry)
    name ←
        non_empty_string (get_or "name" null entry)
          (contract_error label "output column missing non-empty 'name'")
    type ← column_type (get_or "type" null entry)
    nullable ← column_nullable (get_or "nullable" (bool true) entry)
    ok (record { name = name; type = type; nullable = nullable })

  -- The loop; `seen` holds the names of the columns before.
  unfoldable pub parse_columns : List String → List Value → Result (List Column)
  parse_columns seen [] = ok []
  parse_columns seen (entry ∷ rest) = do
    column ← parse_column (as_dict h entry)
    require (not (elem column.name seen))
        (contract_error label "duplicate column in output_columns")
    columns ← parse_columns (column.name ∷ seen) rest
    ok (column ∷ columns)

  abbrev no_columns : Exception
  no_columns = contract_error label "'output_columns' must be a non-empty list"

  abbrev columns_of : Option (List Value) → Result (List Column)
  columns_of none = err no_columns
  columns_of (some []) = err no_columns
  columns_of (some (v ∷ vs)) = parse_columns [] (v ∷ vs)

  unfoldable pub output_columns : Entries → Result (List Column)
  unfolding get
  output_columns raw = columns_of (as_list h (get_or "output_columns" null raw))
