-- ===== src/Duckdb/Warehouse/Statements.antt =====
-- The statements that `LakeWarehouse` of continuo_duckdb_adapter/application/warehouse.py executes
-- inside a transaction: those that ddl.py renders of names that are quoted, of columns and layouts
-- that were validated, and of a read that passed the single-read gate.
use continuo_python_runtime.Base.{String, ◌≡◌, some, List, ok}
use continuo_python_runtime.Base.Sorting.{Text}
use continuo_python_runtime.Base.Text.{codes}
use continuo_python_runtime.Contract.Value.{Value, Heap}
use continuo_python_runtime.Contract.Sql.{SqlParser, ensure_single_read}
use continuo_python_runtime.Engine.{Target}
use continuo_python_runtime.Duckdb.Domain.{ColumnDefinition, column_definitions, column_types}
use continuo_python_runtime.Duckdb.Layout.{TableLayout, from_config}
use continuo_python_runtime.Duckdb.Ddl.Tables.{
  drop_table_if_exists, create_table, create_empty_table_as, create_empty_clone, set_partitioned_by,
  set_sorted_by, delete_all, insert_select, merge_from,
}
use continuo_python_runtime.Duckdb.Session.Gateway.{catalog_alias}
use continuo_python_runtime.Duckdb.Warehouse.{bare_read}

module _ (sqlglot : SqlParser) (lower : String → String) (h : Heap) where
  pub data IsStatement : Text → Type 0 where
    drops : (t : Target) → IsStatement (drop_table_if_exists catalog_alias t)
    deletes : (t : Target) → IsStatement (delete_all catalog_alias t)
    creates :
        (t : Target) (raw : List Value) (defs : List ColumnDefinition)
        → column_definitions h raw ≡ ok defs
        → IsStatement (create_table catalog_alias t defs)
    creates_as :
        (t : Target) (sql : String)
        → ensure_single_read sqlglot sql (some "duckdb") ≡ ok tt
        → IsStatement (create_empty_table_as catalog_alias t (bare_read (codes sql)))
    clones : (t source : Target) → IsStatement (create_empty_clone catalog_alias t source)
    partitions :
        (t : Target) (defs : List ColumnDefinition) (config : Value) (layout : TableLayout)
        → from_config lower h (column_types defs) config ≡ ok layout
        → IsStatement (set_partitioned_by catalog_alias t layout.partition_keys)
    sorts :
        (t : Target) (defs : List ColumnDefinition) (config : Value) (layout : TableLayout)
        → from_config lower h (column_types defs) config ≡ ok layout
        → IsStatement (set_sorted_by catalog_alias t layout.sort_keys)
    inserts :
        (t : Target) (names : List String) (view : String)
        → IsStatement (insert_select catalog_alias t names view)
    merges :
        (t : Target) (columns key : List String) (view : String) (sql : Text)
        → merge_from catalog_alias t columns key view ≡ ok sql
        → IsStatement sql
