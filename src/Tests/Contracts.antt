-- ===== src/Tests/Contracts.antt =====
-- The loader on a directory with one contract file, and its parts.
use continuo_python_runtime.Contract.SecretRef.{
  secret_ref_max_len, name_rest, is_name, matches_secret_ref, validate_secret_ref,
}
use continuo_python_runtime.Contract.SecretRef.Laws.{IsSecretName, validate_secret_ref_iff}
use continuo_python_runtime.Base.{
  length, ◌≤◌, ℕ, zero, suc, ◌<◌, String, ◌≡◌, refl, ◌↔◌, ◌≢◌, true, false, none, some, List, [],
  ◌∷◌, map, arith, ok, ◌>>=◌, All, distinct,
}
use continuo_python_runtime.Base.Text.{codes, is_space, is_blank}
use continuo_python_runtime.Contract.Value.{
  bool, str, ref, Heap, Object, mapping, sequence, Entries, get, sortable,
}
use continuo_python_runtime.Contract.Model.{Column, Node, relation}
use continuo_python_runtime.Contract.Sql.{
  SqlParser, select, statements, present, single_read, ensure_single_read,
}
use continuo_python_runtime.Contract.Types.{
  is_one_line, parse_sql_type, canonical, call_form, number, to_int, without_last, numeric,
  numeric_args, with_args,
}
use continuo_python_runtime.Contract.Types.Grammar.{
  strip, upper_code, text_eq, span, drop_spaces, drop_last_spaces, drop_prefix, skip_ascii_spaces,
  two_numbers, one_number, matches_type, validate_column_type, upper,
}
use continuo_python_runtime.Contract.Types.Grammar.Shape.{IsType}
use continuo_python_runtime.Contract.Types.Grammar.Laws.{matches_type_iff}
use continuo_python_runtime.Contract.Types.Laws.{IsMapped, parse_sql_type-IsMapped}
use continuo_python_runtime.Contract.Kinds.{
  rules_for, validate_reads, validate_sql_reads, check_all_reads, check_read,
}
use continuo_python_runtime.Contract.PrimaryKey.{
  by_name, check_key_column, check_key, key_of, validate_primary_key,
}
use continuo_python_runtime.Contract.Config.{
  check_entries, check_items, check_object, check_value, validate_config,
}
use continuo_python_runtime.Contract.Config.Json.{IsClosed, IsJson, ObjectIn}
use continuo_python_runtime.Contract.Config.Laws.{
  Answers, validate_config-Answers, validate_config_iff,
}
use continuo_python_runtime.Contract.Columns.{
  refuse_unknown, column_type, column_nullable, parse_column, parse_columns, output_columns,
}
use continuo_python_runtime.Contract.Fields.{
  node_label, required_string, script_of, choice, criticality_of, extra_columns_of, secret_ref_of,
  timeout_of, mode_type_of, description_of, content_hash_of,
}
use continuo_python_runtime.Contract.Loader.{
  document, File, source_of, parse_mapping, parse_node, add_node, add_nodes, raw_nodes, load_files,
  check_dialect, load_contract_dir,
}
use continuo_python_runtime.Contract.Loader.WellFormed.{IsWellFormed, parse_node-IsWellFormed}
use continuo_python_runtime.Contract.Loader.Directory.{load_contract_dir-lem}

abbrev pub sqlglot : SqlParser
sqlglot = record { parse = λ _ _. statements (some select ∷ []); is_dialect = λ _. true }

abbrev pub lower : String → String
lower s = s

abbrev node_entries : Entries
node_entries =
    (str "schema", str "sales")
    ∷ (str "table", str "orders")
    ∷ (str "owner", str "data")
    ∷ (str "schedule", str "daily")
    ∷ (str "criticality", str "CORE")
    ∷ (str "script", str "scripts/orders.py")
    ∷ (str "reads", ref 3)
    ∷ (str "output_columns", ref 4)
    ∷ (str "mode_type", str "upsert")
    ∷ (str "primary_key", ref 6)
    ∷ (str "config", ref 7)
    ∷ []

abbrev objects : List Object
objects =
    mapping ((str "nodes", ref 1) ∷ [])
    ∷ sequence (ref 2 ∷ [])
    ∷ mapping node_entries
    ∷ mapping ((str "orders", str "select id from raw.orders") ∷ [])
    ∷ sequence (ref 5 ∷ [])
    ∷ mapping (
        (str "name", str "id")
        ∷ (str "type", str "NUMERIC(10, 2)")
        ∷ (str "nullable", bool false)
        ∷ [])
    ∷ sequence (str "id" ∷ [])
    ∷ mapping ((str "indexes", ref 8) ∷ (str "also", ref 8) ∷ [])
    ∷ sequence (str "id" ∷ [])
    ∷ []

abbrev pub nth : ℕ → List Object → Object
nth n [] = sequence []
nth zero (o ∷ os) = o
nth (suc n) (o ∷ os) = nth n os

abbrev pub heap : Heap
heap = record { size = 9; object = λ i. nth i objects }

abbrev id_column : Column
id_column = record { name = "id"; type = "NUMERIC(10, 2)"; nullable = false }

abbrev pub orders : Node
orders = record {
  schema = "sales";
  table = "orders";
  owner = "data";
  schedule = "daily";
  criticality = "CORE";
  script = "scripts/orders.py";
  reads = ("orders", "select id from raw.orders") ∷ [];
  output_columns = id_column ∷ [];
  description = "";
  extra_columns = "raise";
  config = (str "indexes", ref 8) ∷ (str "also", ref 8) ∷ [];
  content_hash = none;
  kind = "python-node";
  secret_ref = "";
  mode_type = "upsert";
  primary_key = "id" ∷ [];
  timeout_minutes = none;
}

orders_parse : parse_node sqlglot lower heap none true (ref 2) "orders.yml" ≡ ok orders
unfolding ◌>>=◌ parse_node parse_mapping node_label get sortable refuse_unknown rules_for
    required_string is_blank is_space script_of choice criticality_of extra_columns_of secret_ref_of
    timeout_of mode_type_of description_of content_hash_of validate_reads validate_sql_reads
    check_all_reads check_read ensure_single_read present single_read column_type column_nullable
    parse_column parse_columns output_columns by_name check_key_column check_key key_of
    validate_primary_key check_entries check_items check_object check_value validate_config
    parse_sql_type canonical call_form number to_int without_last numeric numeric_args with_args
    strip upper_code text_eq span drop_spaces drop_last_spaces drop_prefix skip_ascii_spaces
    two_numbers one_number matches_type validate_column_type
orders_parse = refl

parse_node-IsWellFormed_example : IsWellFormed sqlglot lower none true orders
parse_node-IsWellFormed_example =
    parse_node-IsWellFormed sqlglot lower heap none true (ref 2) "orders.yml" orders orders_parse

abbrev pub files : List File
files = record { name = "orders.yml"; loaded = document (ref 0) } ∷ []

pub files_load : load_contract_dir sqlglot lower heap none true files ≡ ok (orders ∷ [])
unfolding ◌>>=◌ load_contract_dir load_files raw_nodes add_nodes add_node source_of relation
    check_dialect parse_node parse_mapping node_label get sortable refuse_unknown rules_for
    required_string is_blank is_space script_of choice criticality_of extra_columns_of secret_ref_of
    timeout_of mode_type_of description_of content_hash_of validate_reads validate_sql_reads
    check_all_reads check_read ensure_single_read present single_read column_type column_nullable
    parse_column parse_columns output_columns by_name check_key_column check_key key_of
    validate_primary_key check_entries check_items check_object check_value validate_config
    parse_sql_type canonical call_form number to_int without_last numeric numeric_args with_args
    strip upper_code text_eq span drop_spaces drop_last_spaces drop_prefix skip_ascii_spaces
    two_numbers one_number matches_type validate_column_type
files_load = refl

load_contract_dir-lem_example :
    ((orders ∷ []) ≢ [])
    × All (IsWellFormed sqlglot lower none true) (orders ∷ [])
    × (distinct (map relation (orders ∷ [])) ≡ true)
load_contract_dir-lem_example =
    load_contract_dir-lem sqlglot lower heap none true files (orders ∷ []) files_load

two_digits :
    parse_sql_type (codes "NUMERIC(10, 2)")
    ≡ ok (record { base = codes "NUMERIC"; precision = some 10; scale = some 2; length = none })
unfolding ◌>>=◌ parse_sql_type canonical call_form number to_int without_last numeric numeric_args
    with_args strip upper_code text_eq span drop_spaces drop_last_spaces drop_prefix
    skip_ascii_spaces two_numbers one_number matches_type validate_column_type is_space
two_digits = refl

one_line : is_one_line (strip (codes "NUMERIC(10, 2)")) ≡ true
unfolding strip drop_spaces drop_last_spaces is_space
one_line = refl

parse_sql_type-IsMapped_example :
    IsMapped (record { base = codes "NUMERIC"; precision = some 10; scale = some 2; length = none })
parse_sql_type-IsMapped_example =
    parse_sql_type-IsMapped (codes "NUMERIC(10, 2)") _ one_line two_digits

matches_type_iff_example :
    (matches_type (codes "varchar(8)") ≡ true) ↔ IsType (upper (codes "varchar(8)"))
matches_type_iff_example = matches_type_iff (codes "varchar(8)")

-- A mapping with one shared list.
abbrev config_heap : Heap
config_heap = record {
  size = 2;
  object = λ i.
      nth i (mapping ((str "a", ref 1) ∷ (str "b", ref 1) ∷ []) ∷ sequence (str "x" ∷ []) ∷ []);
}

config_heap-IsClosed : IsClosed config_heap
config_heap-IsClosed = record { objects = closed }
  where
    closed : (i : ℕ) → i < 2 → ObjectIn config_heap (config_heap.object i)
    closed zero h = (omega arith, (omega arith, tt))
    closed (suc zero) h = (tt, tt)
    closed (suc (suc i)) h = tt

validate_config-Answers_example :
    Answers config_heap "here" config_heap-IsClosed (validate_config config_heap "here" (ref 0))
validate_config-Answers_example =
    validate_config-Answers config_heap "here" config_heap-IsClosed (ref 0) (omega arith)

validate_config_iff_example :
    (validate_config config_heap "here" (ref 0) ≡ ok ((str "a", ref 1) ∷ (str "b", ref 1) ∷ []))
    ↔ IsJson config_heap (ref 0)
validate_config_iff_example =
    validate_config_iff config_heap "here" config_heap-IsClosed 0
      ((str "a", ref 1) ∷ (str "b", ref 1) ∷ []) (omega arith) refl

secret : validate_secret_ref (str "continuo-api-orders") "here" ≡ ok "continuo-api-orders"
unfolding validate_secret_ref matches_secret_ref is_name name_rest drop_prefix
secret = refl

validate_secret_ref_iff_example :
    (validate_secret_ref (str "continuo-api-orders") "here" ≡ ok "continuo-api-orders") ↔ (
      (str "continuo-api-orders" ≡ str "continuo-api-orders")
      × (length (codes "continuo-api-orders") ≤ secret_ref_max_len)
      × IsSecretName (codes "continuo-api-orders"))
validate_secret_ref_iff_example =
    validate_secret_ref_iff (str "continuo-api-orders") "here" "continuo-api-orders"
