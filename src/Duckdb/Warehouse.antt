-- ===== src/Duckdb/Warehouse.antt =====
-- `LakeWarehouse` of adapters/duckdb/continuo_duckdb_adapter/application/warehouse.py.
pub mod Statements
pub mod Atomic
pub mod Guards
use continuo_python_runtime.Base.{
  ℕ, String, ◌==◌, Bool, true, false, ◌&&◌, not, Option, some, List, [], ◌∷◌, is_empty, distinct,
  eqb, value_error, other_error, Result, ok, err, require, if◌then◌else◌,
}
use continuo_python_runtime.Base.Sorting.{Text}
use continuo_python_runtime.Base.Text.{codes}
use continuo_python_runtime.Contract.Value.{Value, Heap}
use continuo_python_runtime.Contract.Sql.{SqlParser, ensure_single_read}
use continuo_python_runtime.Contract.Types.Grammar.{strip}
use continuo_python_runtime.Engine.{Arrow, LiveColumn, Target}
use continuo_python_runtime.Duckdb.Domain.{
  ColumnDefinition, named, qualified, column_definitions, column_types,
}
use continuo_python_runtime.Duckdb.Layout.{TableLayout, from_config, is_empty_layout}
use continuo_python_runtime.Duckdb.Retrying.{Ending, done, conflicted, retrying}
use continuo_python_runtime.Duckdb.Retrying as Retrying
use continuo_python_runtime.Duckdb.Ddl.Tables.{
  create_schema_if_not_exists, drop_schema_cascade, drop_table_if_exists, create_table,
  create_empty_table_as, create_empty_clone, delete_all,
}
use continuo_python_runtime.Duckdb.Session.{
  Failure, conflict, engine, failed, Answer, returned, raised, Action, Connection, ◌>>=◌, ◌>>◌,
  return, lift, run, transaction,
}
use continuo_python_runtime.Duckdb.Session.Gateway.{
  catalog_alias, table_exists, columns, apply_layout, bind_checked, fetch_arrow, insert_arrow,
  merge_arrow,
}

-- `s.rstrip(";")`
unfoldable pub drop_last_semicolons : Text → Text
drop_last_semicolons [] = []
drop_last_semicolons (c ∷ s) =
    let rest = drop_last_semicolons s in if eqb c b';' && is_empty rest then [] else c ∷ rest

-- `_bare_read`
unfoldable pub bare_read : Text → Text
unfolding strip drop_last_semicolons
bare_read sql = strip (drop_last_semicolons (strip sql))

abbrev ending_of : Failure → Ending Failure
ending_of (conflict m) = conflicted (conflict m)
ending_of (engine e) = Retrying.raised (engine e)
ending_of (failed e) = Retrying.raised (failed e)

abbrev as_ending : {W : Type 0} → Answer (Unit {0}) × W → Ending Failure × W
as_ending (returned u, w) = (done, w)
as_ending (raised e, w) = (ending_of e, w)

abbrev as_answer : {W : Type 0} → Ending Failure × W → Answer (Unit {0}) × W
as_answer (done, w) = (returned tt, w)
as_answer (conflicted e, w) = (raised e, w)
as_answer (Retrying.raised e, w) = (raised e, w)

module _ {W T : Type 0} (con : Connection W T) (secrets : List Text) where
  -- `_retrying` of an operation of the gateway; `sleep` lets others work on the lake.
  unfoldable pub retried : (ℕ → W → W) → Action W (Unit {0}) → Action W (Unit {0})
  unfolding retrying
  retried sleep operation w = as_answer (retrying (λ v. as_ending (operation v)) sleep w)

  unfoldable pub ensure_schema : (ℕ → W → W) → String → Action W (Unit {0})
  unfolding retried run create_schema_if_not_exists
  ensure_schema sleep schema = lift (named (some schema)) >>= λ target.
      retried sleep (run con secrets (create_schema_if_not_exists catalog_alias target))

  unfoldable pub drop_schema : String → Action W (Unit {0})
  unfolding run drop_schema_cascade
  drop_schema schema = lift (named (some schema)) >>= λ target.
      run con secrets (drop_schema_cascade catalog_alias target)

  module _ (arrow : Arrow T) where
    abbrev names : T → List String
    names = arrow.column_names

    abbrev transacted : Action W (Unit {0}) → Action W (Unit {0})
    transacted = transaction con secrets

    abbrev pub layout_applied : Target → TableLayout → Action W (Unit {0})
    layout_applied target layout =
        if is_empty_layout layout then return tt else apply_layout con secrets names target layout

    module _ (sqlglot : SqlParser) where
      unfoldable pub build_empty_from_sql : String → String → String → Action W (Unit {0})
      unfolding ensure_single_read bare_read qualified transaction run drop_table_if_exists
          create_empty_table_as
      build_empty_from_sql schema table compiled_sql =
          lift (ensure_single_read sqlglot compiled_sql (some "duckdb"))
          >> (lift (qualified schema table) >>= λ target. transacted (
              run con secrets (drop_table_if_exists catalog_alias target)
              >> run con secrets
                  (create_empty_table_as catalog_alias target (bare_read (codes compiled_sql)))))

      unfoldable pub check_binds : String → Action W (Unit {0})
      unfolding ensure_single_read bare_read bind_checked
      check_binds sql =
          lift (ensure_single_read sqlglot sql (some "duckdb"))
          >> bind_checked con secrets names (bare_read (codes sql))

    unfoldable pub clone_empty_from_prod : String → String → String → Action W (Unit {0})
    unfolding qualified transaction run drop_table_if_exists create_empty_clone
    clone_empty_from_prod candidate_schema prod_schema table =
        lift (qualified candidate_schema table) >>= λ target.
        lift (qualified prod_schema table) >>= λ source. transacted (
          run con secrets (drop_table_if_exists catalog_alias target)
          >> run con secrets (create_empty_clone catalog_alias target source))

    unfoldable pub fetch : String → Action W T
    unfolding fetch_arrow
    fetch sql = fetch_arrow con secrets names (codes sql) >>= λ rows.
        if distinct (names rows)
        then return rows
        else lift (err (value_error "duplicate column name(s) in SELECT result"))

    unfoldable pub table_columns : String → String → Action W (List LiveColumn)
    unfolding qualified columns
    table_columns schema table = lift (qualified schema table) >>= λ target.
        columns con secrets names target >>= λ found.
        if is_empty found then lift (err (other_error "table does not exist")) else return found

    unfoldable pub load : String → String → T → Action W (Unit {0})
    unfolding qualified transaction run delete_all insert_arrow
    load schema table rows = lift (qualified schema table) >>= λ target. transacted (
        run con secrets (delete_all catalog_alias target)
        >> (if eqb (arrow.num_rows rows) 0
            then return tt
            else insert_arrow con secrets names target rows))

    unfoldable pub append : String → String → T → Action W (Unit {0})
    unfolding qualified transaction insert_arrow
    append schema table rows =
        if eqb (arrow.num_rows rows) 0
        then return tt
        else lift (qualified schema table) >>= λ target.
            transacted (insert_arrow con secrets names target rows)

    -- `_upsert`
    unfoldable pub upsert_rows : String → String → T → List String → Action W (Unit {0})
    unfolding qualified transaction merge_arrow
    upsert_rows schema table rows key =
        if eqb (arrow.num_rows rows) 0
        then return tt
        else lift (qualified schema table) >>= λ target.
            transacted (merge_arrow con secrets names target rows key)

    abbrev pub created : Target → List ColumnDefinition → TableLayout → Action W (Unit {0})
    created target defs layout =
        run con secrets (create_table catalog_alias target defs) >> layout_applied target layout

    -- `_create_if_absent`
    unfoldable pub create_if_absent :
        Target → List ColumnDefinition → TableLayout → Action W (Unit {0})
    unfolding transaction run table_exists create_table apply_layout
    create_if_absent target defs layout = transacted (
        table_exists con secrets names target >>= λ exists.
        if exists then return tt else created target defs layout)

    module _ (lower : String → String) (h : Heap) where
      unfoldable pub build_empty_from_columns :
          String → String → List Value → Value → Action W (Unit {0})
      unfolding column_definitions from_config qualified transaction run drop_table_if_exists
          create_table apply_layout
      build_empty_from_columns schema table raw config = lift (column_definitions h raw) >>= λ defs.
          lift (from_config lower h (column_types defs) config) >>= λ layout.
          lift (qualified schema table) >>= λ target. transacted (
            run con secrets (drop_table_if_exists catalog_alias target)
            >> created target defs layout)

      unfoldable pub ensure_table :
          (ℕ → W → W) → String → String → List Value → Value → Action W (Unit {0})
      unfolding column_definitions from_config qualified ensure_schema retried create_if_absent
      ensure_table sleep schema table raw config = lift (column_definitions h raw) >>= λ defs.
          lift (from_config lower h (column_types defs) config) >>= λ layout.
          ensure_schema sleep schema
          >> (lift (qualified schema table) >>= λ target.
              retried sleep (create_if_absent target defs layout))
