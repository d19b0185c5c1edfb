-- ===== src/Engine.antt =====
-- contract/continuo_engine_contract/{port,keys}.py: what a warehouse adapter offers. pyarrow's tables
-- are the record `Arrow`, the warehouse (and all else an adapter touches) is a state of any type.
pub mod ConfigKeys
pub mod Keys
pub mod Upsert
pub mod Discovery
use continuo_python_runtime.Base.{
  ℕ, String, Bool, ◌||◌, not, List, value_error, duplicate_key_error, Result, ok, err, ◌>>◌,
  require, is_empty, all, any, elem, ltb, eqb, if◌then◌else◌,
}
use continuo_python_runtime.Steps.{Effect}
use continuo_python_runtime.Contract.Value.{Entries}
use continuo_python_runtime.Contract.Model.{Column}

pub record LiveColumn : Type 0 where
  pub name : String
  pub nullable : Bool

-- What `ensure_unique_key` asks of a `pyarrow.Table`: its size, its columns, whether a column is of a
-- floating type, and the size of its grouping by columns.
pub record Arrow (T : Type 0) : Type 0 where
  pub num_rows : T → ℕ
  pub column_names : T → List String
  pub is_floating : T → String → Bool
  pub count_groups : T → List String → ℕ

module _ {T : Type 0} (arrow : Arrow T) where
  unfoldable pub ensure_unique_key : T → List String → Result (Unit {0})
  ensure_unique_key rows key = do
    require (not (is_empty key)) (value_error "primary_key must name at least one column")
    require (all (λ name. elem name (arrow.column_names rows)) key)
        (value_error "primary key column(s) are not in the data's columns")
    require (not (any (arrow.is_floating rows) key))
        (value_error "primary key column(s) are floating-point")
    require (ltb (arrow.num_rows rows) 2 || eqb (arrow.count_groups rows key) (arrow.num_rows rows))
        (duplicate_key_error "primary key is not unique in the rows to write; nothing was written")

-- A schema and a table.
abbrev pub Target : Type 0
Target = String × String

pub record Adapter (W T : Type 0) : Type 0 where
  pub has_validate_config : Bool
  pub validate_config : Entries → List String → Effect W (Unit {0})
  pub is_append_capable : Bool
  pub is_upsert_capable : Bool
  pub ensure_table : Target → List Column → Entries → List String → Effect W (Unit {0})
  pub table_columns : Target → Effect W (List LiveColumn)
  pub fetch : String → Effect W T
  pub load : Target → T → Effect W (Unit {0})
  pub append : Target → T → Effect W (Unit {0})
  pub upsert_rows : Target → T → List String → Effect W (Unit {0})
  pub close : Effect W (Unit {0})

abbrev pub after : {W : Type 0} → Result (Unit {0}) → Effect W (Unit {0}) → Effect W (Unit {0})
after (err e) next w = (err e, w)
after (ok u) next w = next w

-- `UpsertCapable.upsert`: the template method around the adapter's `_upsert`.
unfoldable pub upsert :
    {W T : Type 0} → Arrow T → Adapter W T → Target → T → List String → Effect W (Unit {0})
upsert arrow adapter target rows key =
    after (ensure_unique_key arrow rows key) (adapter.upsert_rows target rows key)
