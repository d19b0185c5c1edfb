-- ===== src/Contract/Loader.antt =====
-- `parse_node` and `load_contract_dir` of continuo_python_runtime/contract/loader.py. sqlglot and
-- `str.lower` are parameters; a directory is the list of its files, each with what PyYAML makes of it.
mod Inversion
pub mod WellFormed
pub mod Directory
use continuo_python_runtime.Base.{
  ℕ, String, ◌==◌, Bool, true, false, not, Option, none, some, List, [], ◌∷◌, ◌++◌, Exception,
  contract_error, Result, ok, err, ◌>>=◌, ◌>>◌, require, is_empty, if◌then◌else◌,
}
use continuo_python_runtime.Contract.Value.{
  Value, null, str, Heap, Entries, as_dict, as_list, get, get_or,
}
use continuo_python_runtime.Contract.Model.{Column, Node, relation, default_kind}
use continuo_python_runtime.Contract.Sql.{SqlParser}
use continuo_python_runtime.Contract.Kinds.{KindRules, Reads, rules_for, validate_reads}
use continuo_python_runtime.Contract.PrimaryKey.{validate_primary_key}
use continuo_python_runtime.Contract.Config.{validate_config}
use continuo_python_runtime.Contract.Columns.{unknown_keys, refuse_unknown, output_columns}
use continuo_python_runtime.Contract.Fields.{
  allowed_keys, node_label, required_string, script_of, criticality_of, extra_columns_of,
  secret_ref_of, timeout_of, mode_type_of, description_of, content_hash_of,
}

-- What `yaml.load` does with a file's text. Reading the file or building a value may also raise an
-- exception of another class (a `UnicodeDecodeError`, a `TypeError` or a `ValueError`, say), which
-- leaves the loader as it is.
pub data Loaded : Type 0 where
  document : Value → Loaded
  duplicate_key yaml_error : Loaded
  load_raised : Exception → Loaded

pub record File : Type 0 where
  pub name : String
  pub loaded : Loaded

-- The relations found so far, with their files, and the nodes in order.
pub record Found : Type 0 where
  pub sources : List (String × String)
  pub nodes : List Node

unfoldable pub source_of : String → List (String × String) → Option String
source_of r [] = none
source_of r ((q, file) ∷ rest) = if q == r then some file else source_of r rest

module _ (sqlglot : SqlParser) (lower : String → String) (h : Heap) (dialect : Option String)
    (check_reads : Bool) where
  -- The checks of `parse_node` on a mapping, in the order of the source.
  unfoldable pub parse_mapping : Entries → String → Result Node
  parse_mapping raw label = do
    refuse_unknown label (unknown_keys allowed_keys raw)
    (kind, rules) ← rules_for (get_or "kind" (str default_kind) raw) label
    schema ← required_string raw label "schema"
    table ← required_string raw label "table"
    owner ← required_string raw label "owner"
    schedule ← required_string raw label "schedule"
    script ← script_of raw label rules
    criticality ← criticality_of raw label
    extra_columns ← extra_columns_of raw label
    reads ← validate_reads sqlglot label dialect check_reads rules.reads h (get_or "reads" null raw)
    secret_ref ← secret_ref_of raw label rules
    timeout_minutes ← timeout_of raw label
    mode_type ← mode_type_of raw label rules
    columns ← output_columns h label raw
    primary_key ← validate_primary_key lower columns label h raw mode_type
    description ← description_of raw label
    config ← validate_config h label (get_or "config" null raw)
    content_hash ← content_hash_of raw label
    ok (record {
      schema = schema;
      table = table;
      owner = owner;
      schedule = schedule;
      criticality = criticality;
      script = script;
      reads = reads;
      output_columns = columns;
      description = description;
      extra_columns = extra_columns;
      config = config;
      content_hash = content_hash;
      kind = kind;
      secret_ref = secret_ref;
      mode_type = mode_type;
      primary_key = primary_key;
      timeout_minutes = timeout_minutes;
    })

  abbrev parse_entries : Option Entries → String → Result Node
  parse_entries none source = err (contract_error source "node must be a mapping")
  parse_entries (some entries) source = parse_mapping entries (node_label entries source)

  unfoldable pub parse_node : Value → String → Result Node
  parse_node raw source = parse_entries (as_dict h raw) source

  abbrev keep_node : String → Node → Found → Option String → Result Found
  keep_node file node found (some existing) = err (contract_error file "duplicate node")
  keep_node file node found none = ok (record {
    sources = (relation node, file) ∷ found.sources;
    nodes = found.nodes ++ (node ∷ []);
  })

  -- The body of the loop over a file's nodes.
  unfoldable pub add_node : String → Value → Found → Result Found
  add_node file raw found = do
    node ← parse_node raw file
    keep_node file node found (source_of (relation node) found.sources)

  unfoldable pub add_nodes : String → List Value → Found → Result Found
  add_nodes file [] found = ok found
  add_nodes file (raw ∷ rest) found = do next ← add_node file raw found; add_nodes file rest next

  abbrev document_entries : String → Value → Result Entries
  document_entries file null = ok []
  document_entries file v = elim (as_dict h v) [
    | none ↦ err (contract_error file "contract document must be a mapping")
    | some entries ↦ ok entries
  ]

  unfoldable pub raw_nodes : String → Loaded → Result (List Value)
  unfolding get
  raw_nodes file duplicate_key = err (contract_error file "duplicate key")
  raw_nodes file (load_raised e) = err e
  raw_nodes file yaml_error = err (contract_error file "invalid YAML")
  raw_nodes file (document v) = do
    entries ← document_entries file v
    elim (as_list h (get_or "nodes" null entries)) [
      | none ↦ err (contract_error file "'nodes' must be a list")
      | some raws ↦ ok raws
    ]

  unfoldable pub load_files : List File → Found → Result Found
  load_files [] found = ok found
  load_files (file ∷ rest) found = do
    raws ← raw_nodes file.name file.loaded
    next ← add_nodes file.name raws found
    load_files rest next

  unfoldable pub check_dialect : Result (Unit {0})
  check_dialect = elim dialect [
    | none ↦ ok tt
    | some d ↦ require (sqlglot.is_dialect d) (contract_error "" "unknown --dialect")
  ]

  abbrev some_nodes : List Node → Result (List Node)
  some_nodes [] = err (contract_error "" "no contract files found")
  some_nodes (n ∷ ns) = ok (n ∷ ns)

  -- `files` are the directory's *.yml files in order, then its *.yaml files in order.
  unfoldable pub load_contract_dir : List File → Result (List Node)
  load_contract_dir files = do
    check_dialect
    found ← load_files files (record { sources = []; nodes = [] })
    some_nodes found.nodes
