-- ===== src/Duckdb/Ddl/Tables.antt =====
-- `DdlRenderer` of adapters/duckdb/continuo_duckdb_adapter/infrastructure/ddl.py, with the alias of the
-- catalog as a parameter.
use continuo_python_runtime.Base.{
  ℕ, String, Bool, true, false, not, Option, none, some, List, [], ◌∷◌, map, keep, elem, is_empty,
  ◌==◌, if◌then◌else◌, Result, ok, err, value_error,
}
use continuo_python_runtime.Base.Sorting.{Text}
use continuo_python_runtime.Base.Text.{codes}
use continuo_python_runtime.Engine.{Target}
use continuo_python_runtime.Duckdb.Domain.{ColumnDefinition}
use continuo_python_runtime.Duckdb.Layout.{PartitionKey, SortKey}
use continuo_python_runtime.Duckdb.Ddl.{◌<+>◌, enclose, quote_identifier, join_texts, decimal}

abbrev pub commas : List Text → Text
commas = join_texts (codes ", ")

abbrev pub column_list : List String → Text
column_list names = commas (map quote_identifier names)

abbrev column_text : ColumnDefinition → Text
column_text c =
    quote_identifier c.name
    <+> codes " "
    <+> codes c.type
    <+> (if c.nullable then [] else codes " NOT NULL")

abbrev buckets_text : Option ℕ → Text
buckets_text none = codes "None"
buckets_text (some n) = decimal n

-- `_partition`
unfoldable pub partition_text : PartitionKey → Text
unfolding enclose decimal
partition_text key =
    if key.transform == "identity"
    then quote_identifier key.column
    else if key.transform == "bucket"
    then codes "bucket("
      <+> buckets_text key.buckets
      <+> codes ", "
      <+> quote_identifier key.column
      <+> codes ")"
    else codes key.transform <+> codes "(" <+> quote_identifier key.column <+> codes ")"

abbrev nulls_text : Option Bool → Text
nulls_text none = []
nulls_text (some true) = codes " NULLS FIRST"
nulls_text (some false) = codes " NULLS LAST"

-- `_sort`
unfoldable pub sort_text : SortKey → Text
unfolding enclose
sort_text key =
    quote_identifier key.column
    <+> codes " "
    <+> codes (if key.descending then "DESC" else "ASC")
    <+> nulls_text key.nulls_first

module _ (catalog : String) where
  abbrev pub schema_ref : String → Text
  schema_ref schema = quote_identifier catalog <+> codes "." <+> quote_identifier schema

  abbrev pub table_ref : Target → Text
  table_ref (schema, table) = schema_ref schema <+> codes "." <+> quote_identifier table

  unfoldable pub create_schema_if_not_exists : String → Text
  create_schema_if_not_exists schema = codes "CREATE SCHEMA IF NOT EXISTS " <+> schema_ref schema

  unfoldable pub drop_schema_cascade : String → Text
  drop_schema_cascade schema =
      codes "DROP SCHEMA IF EXISTS " <+> schema_ref schema <+> codes " CASCADE"

  unfoldable pub drop_table_if_exists : Target → Text
  drop_table_if_exists table = codes "DROP TABLE IF EXISTS " <+> table_ref table

  -- `create_table`, which is always called without `if_not_exists`.
  unfoldable pub create_table : Target → List ColumnDefinition → Text
  create_table table columns =
      codes "CREATE TABLE "
      <+> table_ref table
      <+> codes " ("
      <+> commas (map column_text columns)
      <+> codes ")"

  unfoldable pub create_empty_table_as : Target → Text → Text
  create_empty_table_as table select_sql =
      codes "CREATE TABLE "
      <+> table_ref table
      <+> codes " AS (\n"
      <+> select_sql
      <+> codes "\n) WITH NO DATA"

  unfoldable pub create_empty_clone : Target → Target → Text
  create_empty_clone target source =
      codes "CREATE TABLE "
      <+> table_ref target
      <+> codes " AS SELECT * FROM "
      <+> table_ref source
      <+> codes " WHERE false"

  unfoldable pub set_partitioned_by : Target → List PartitionKey → Text
  unfolding partition_text
  set_partitioned_by table keys =
      codes "ALTER TABLE "
      <+> table_ref table
      <+> codes " SET PARTITIONED BY ("
      <+> commas (map partition_text keys)
      <+> codes ")"

  unfoldable pub set_sorted_by : Target → List SortKey → Text
  unfolding sort_text
  set_sorted_by table keys =
      codes "ALTER TABLE "
      <+> table_ref table
      <+> codes " SET SORTED BY ("
      <+> commas (map sort_text keys)
      <+> codes ")"

  unfoldable pub delete_all : Target → Text
  delete_all table = codes "DELETE FROM " <+> table_ref table

  unfoldable pub insert_select : Target → List String → String → Text
  insert_select table column_names source =
      codes "INSERT INTO "
      <+> table_ref table
      <+> codes " ("
      <+> column_list column_names
      <+> codes ") SELECT "
      <+> column_list column_names
      <+> codes " FROM "
      <+> quote_identifier source

  abbrev pub updates : List String → List String → List String
  updates column_names key = keep (λ name. not (elem name key)) column_names

  abbrev matched : List String → Text
  matched [] = []
  matched (name ∷ names) =
      codes " WHEN MATCHED THEN UPDATE SET "
      <+> commas
          (map (λ n. quote_identifier n <+> codes " = s." <+> quote_identifier n) (name ∷ names))

  abbrev merge_text : Target → List String → List String → String → Text
  merge_text table column_names key source =
      codes "MERGE INTO "
      <+> table_ref table
      <+> codes " AS t USING "
      <+> quote_identifier source
      <+> codes " AS s ON ("
      <+> join_texts (codes " AND ") (
          map (λ n. codes "t." <+> quote_identifier n <+> codes " = s." <+> quote_identifier n) key)
      <+> codes ")"
      <+> matched (updates column_names key)
      <+> codes " WHEN NOT MATCHED THEN INSERT ("
      <+> column_list column_names
      <+> codes ") VALUES ("
      <+> commas (map (λ n. codes "s." <+> quote_identifier n) column_names)
      <+> codes ")"

  unfoldable pub merge_from : Target → List String → List String → String → Result Text
  merge_from table column_names key source =
      if is_empty key
      then err (value_error "merge_from needs a non-empty key")
      else ok (merge_text table column_names key source)

unfoldable pub explain_read : Text → Text
explain_read sql = codes "EXPLAIN SELECT * FROM (\n" <+> sql <+> codes "\n) AS __check_binds__"
