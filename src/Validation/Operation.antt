-- ===== src/Validation/Operation.antt =====
-- The `try` block of `main` in continuo_python_runtime/validation/runner.py: the operation itself.
use continuo_python_runtime.Base.{
  String, ◌==◌, Option, none, some, List, [], ◌∷◌, Result, ok, if◌then◌else◌,
}
use continuo_python_runtime.Contract.Value.{Value, str, Heap}
use continuo_python_runtime.Contract.CsvSource.{parse_csv_uri}
use continuo_python_runtime.Steps.{◌>>=◌, ◌>>◌, pure, call}
use continuo_python_runtime.Validation.Header.{iterate, check_header_line}
use continuo_python_runtime.Validation.{
  header_read, schema_ensured, schema_dropped, built_from_sql, binds_checked, built_from_columns,
  cloned, Step, ValidationAdapter, Services, Spec, Plan, ensure_schema, drop_schema, build_from_sql,
  check_binds, build_from_columns, clone_from_prod,
}

-- `spec.get("reads", [])`, iterated.
abbrev pub reads_of : Heap → Option Value → Result (List Value)
reads_of h none = ok []
reads_of h (some reads) = iterate h reads

module _ {W : Type 0} (services : Services W) (h : Heap) (adapter : ValidationAdapter W) where
  -- The check of the csv source's header.
  unfoldable pub check_csv : String → Value → Step W (Unit {0})
  check_csv csv_source columns = do
    uri ← pure (parse_csv_uri (str csv_source))
    line ← call (header_read csv_source) (services.fetch_header_line uri)
    pure (check_header_line services h columns line)

  unfoldable pub check_all_binds : List Value → Step W (Unit {0})
  check_all_binds [] = pure (ok tt)
  check_all_binds (read ∷ rest) = do
    call (binds_checked read) (adapter.check_binds read)
    check_all_binds rest

  abbrev pub check_source : Spec → Step W (Unit {0})
  check_source spec =
      if spec.csv_source == "" then pure (ok tt) else check_csv spec.csv_source spec.columns

  -- The operation on a node's table, once the schema is there.
  unfoldable pub node_operation : String → Plan → Step W (Unit {0})
  node_operation schema ensure_schema = pure (ok tt)
  node_operation schema drop_schema = pure (ok tt)
  node_operation schema (build_from_sql table sql) =
      call (built_from_sql (schema, table) sql) (adapter.build_empty_from_sql (schema, table) sql)
  node_operation schema (check_binds table sql) =
      call (binds_checked (str sql)) (adapter.check_binds (str sql))
  node_operation schema (build_from_columns table spec) = do
    check_source spec
    reads ← pure (reads_of h spec.reads)
    check_all_binds reads
    call (built_from_columns (schema, table))
        (adapter.build_empty_from_columns (schema, table) spec.columns spec.config)
  node_operation schema (clone_from_prod table prod_schema) =
      call (cloned (schema, table) prod_schema)
        (adapter.clone_empty_from_prod (schema, table) prod_schema)

  -- For `ensure_schema` nothing follows the schema.
  unfoldable pub operate : String → Plan → Step W (Unit {0})
  operate schema drop_schema = call (schema_dropped schema) (adapter.drop_schema schema)
  operate schema plan = do
    call (schema_ensured schema) (adapter.ensure_schema schema)
    node_operation schema plan
