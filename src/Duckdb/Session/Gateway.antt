-- ===== src/Duckdb/Session/Gateway.antt =====
-- `DuckLakeSession` of adapters/duckdb/continuo_duckdb_adapter/infrastructure/session.py: the operations
-- of application/ports.py. A table keeps the texts of its schema and its name.
use continuo_python_runtime.Base.{
  String, ◌<>◌, Bool, true, false, ◌&&◌, List, [], ◌∷◌, any, keep, map, is_empty,
}
use continuo_python_runtime.Base.Sorting.{Text}
use continuo_python_runtime.Base.Text.{codes}
use continuo_python_runtime.Engine.{LiveColumn, Target}
use continuo_python_runtime.Duckdb.Layout.{TableLayout}
use continuo_python_runtime.Duckdb.Ddl.{same_identifier}
use continuo_python_runtime.Duckdb.Ddl.Tables.{
  set_partitioned_by, set_sorted_by, insert_select, merge_from, explain_read,
}
use continuo_python_runtime.Duckdb.Session.{
  Action, Connection, ◌>>=◌, ◌>>◌, return, lift, finally, suppress, guarded, run, run_with,
  rollback, begin_read_only, translate,
}

abbrev pub catalog_alias : String
catalog_alias = "lake"

-- `TABLE_EXISTS_QUERY`
abbrev pub table_exists_query : Text
table_exists_query =
    codes
      "SELECT schema_name, table_name FROM duckdb_tables() WHERE lower(database_name) = lower(?) AND lower(schema_name) = lower(?) AND lower(table_name) = lower(?)"

-- `COLUMNS_QUERY`
abbrev pub columns_query : Text
columns_query =
    codes
      "SELECT schema_name, table_name, column_name, is_nullable FROM duckdb_columns() WHERE lower(database_name) = lower(?) AND lower(schema_name) = lower(?) AND lower(table_name) = lower(?) ORDER BY column_index"

-- Whether a row of the catalog is about the table.
abbrev pub is_about : Target → String × String → Bool
is_about (schema, table) (s, t) = same_identifier s schema && same_identifier t table

abbrev live_column : String × String × String × Bool → LiveColumn
live_column (schema, table, name, nullable) = record { name = name; nullable = nullable }

module _ {W T : Type 0} (con : Connection W T) (secrets : List Text) (names : T → List String) where
  abbrev pub statement : Text → Action W (Unit {0})
  statement = run con secrets

  unfoldable pub table_exists : Target → Action W Bool
  unfolding run_with same_identifier translate
  table_exists (schema, table) =
      guarded con secrets true (
        run_with con secrets table_exists_query (catalog_alias ∷ schema ∷ table ∷ [])
        >> con.fetch_tables)
      >>= λ rows. return (any (is_about (schema, table)) rows)

  unfoldable pub columns : Target → Action W (List LiveColumn)
  unfolding run_with same_identifier translate
  columns (schema, table) =
      guarded con secrets true (
        run_with con secrets columns_query (catalog_alias ∷ schema ∷ table ∷ [])
        >> con.fetch_columns)
      >>= λ rows.
          return (
            map live_column (keep (λ (s, t, name, nullable). is_about (schema, table) (s, t)) rows))

  abbrev pub unless_empty : Bool → Text → Action W (Unit {0})
  unless_empty true sql = return tt
  unless_empty false sql = statement sql

  unfoldable pub apply_layout : Target → TableLayout → Action W (Unit {0})
  unfolding run set_partitioned_by set_sorted_by
  apply_layout table layout =
      unless_empty (is_empty layout.partition_keys)
        (set_partitioned_by catalog_alias table layout.partition_keys)
      >> unless_empty (is_empty layout.sort_keys)
          (set_sorted_by catalog_alias table layout.sort_keys)

  -- `explain_read`
  unfoldable pub bind_checked : Text → Action W (Unit {0})
  unfolding run rollback explain_read
  bind_checked sql =
      statement begin_read_only >> finally (statement (explain_read sql)) (rollback con secrets)

  unfoldable pub fetch_arrow : Text → Action W T
  unfolding translate
  fetch_arrow sql = guarded con secrets false (con.execute sql >> con.to_arrow)

  -- A view of the rows under a fresh name, for the time of a statement on it.
  abbrev pub with_view : String → T → (String → Action W (Unit {0})) → Action W (Unit {0})
  with_view prefix rows step w =
      let view = prefix <> con.hex w in
      (guarded con secrets true (con.register view rows)
          >> finally (step view) (suppress (con.unregister view)))
        w

  unfoldable pub insert_arrow : Target → T → Action W (Unit {0})
  unfolding run insert_select translate
  insert_arrow table rows =
      with_view "__continuo_load_" rows
        (λ view. statement (insert_select catalog_alias table (names rows) view))

  unfoldable pub merge_arrow : Target → T → List String → Action W (Unit {0})
  unfolding run merge_from translate
  merge_arrow table rows key =
      with_view "__continuo_merge_" rows
        (λ view. lift (merge_from catalog_alias table (names rows) key view) >>= statement)
