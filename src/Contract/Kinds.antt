-- ===== src/Contract/Kinds.antt =====
-- continuo_python_runtime/contract/kinds.py: what a node of each kind must declare.
pub mod Laws
use continuo_python_runtime.Base.{
  String, ◌==◌, Bool, true, false, ◌&&◌, Option, none, some, List, [], ◌∷◌, Exception,
  contract_error, value_error, other_error, Result, ok, err, ◌>>=◌, ◌>>◌, require, is_empty, not,
  if◌then◌else◌,
}
use continuo_python_runtime.Base.Text.{is_blank}
use continuo_python_runtime.Contract.Value.{
  Value, null, str, Heap, Entries, as_dict, as_str, is_key, get_or,
}
use continuo_python_runtime.Contract.Model.{mode_types, default_mode_type}
use continuo_python_runtime.Contract.CsvSource.{parse_csv_uri}
use continuo_python_runtime.Contract.Sql.{SqlParser, ensure_single_read}

-- The three subclasses of `ReadsRule`.
pub data ReadsRule : Type 0 where
  sql_reads csv_read no_reads : ReadsRule

pub record KindRules : Type 0 where
  pub script_required : Bool
  pub reads : ReadsRule
  pub secret_allowed : Bool
  pub mode_types : List String

abbrev pub python_node : KindRules
python_node = record {
  script_required = true;
  reads = sql_reads;
  secret_allowed = false;
  mode_types = mode_types;
}

abbrev pub python_csv : KindRules
python_csv = record {
  script_required = false;
  reads = csv_read;
  secret_allowed = false;
  mode_types = default_mode_type ∷ [];
}

abbrev pub python_api : KindRules
python_api = record {
  script_required = true;
  reads = no_reads;
  secret_allowed = true;
  mode_types = mode_types;
}

abbrev pub Reads : Type 0
Reads = List (String × String)

-- A `ValueError` or a `TokenError` of the gate becomes a contract error; any other goes on.
abbrev pub gate_error {ℓ} : {A : Type ℓ} → String → Result A → Result A
gate_error label (ok a) = ok a
gate_error label (err (value_error text)) =
    err (contract_error label "'reads' must be a single read query")
gate_error label (err (other_error text)) =
    if text == "TokenError"
    then err (contract_error label "'reads' must be a single read query")
    else err (other_error text)
gate_error label (err e) = err e

abbrev pub csv_error {ℓ} : {A : Type ℓ} → String → Result A → Result A
csv_error label (err (value_error text)) = err (contract_error label "invalid csv uri")
csv_error label (err e) = err e
csv_error label (ok a) = ok a

abbrev pub non_empty_string : Value → Exception → Result String
non_empty_string v e = elim (as_str v) [
  | none ↦ err e
  | some s ↦ if is_blank s then err e else ok s
]

module _ (sqlglot : SqlParser) (label : String) (dialect : Option String) (check_reads : Bool) where
  -- One item of the loop over `reads.items()`.
  unfoldable pub check_read : Value → Value → Result (String × String)
  check_read name sql = do
    n ← non_empty_string name (contract_error label "'reads' name must be a non-empty string")
    s ← non_empty_string sql (contract_error label "'reads' must be a non-empty SQL string")
    if check_reads then gate_error label (ensure_single_read sqlglot s dialect) else ok tt
    ok (n, s)

  unfoldable pub check_all_reads : Entries → Result Reads
  check_all_reads [] = ok []
  check_all_reads ((name, sql) ∷ rest) = do
    read ← check_read name sql
    reads ← check_all_reads rest
    ok (read ∷ reads)

  abbrev sql_error : Exception
  sql_error = contract_error label "'reads' must be a non-empty mapping of name -> SQL"

  unfoldable pub validate_sql_reads : Heap → Value → Result Reads
  validate_sql_reads h reads = elim (as_dict h reads) [
    | none ↦ err sql_error
    | some entries ↦ if is_empty entries then err sql_error else check_all_reads entries
  ]

  abbrev csv_shape_error : Exception
  csv_shape_error = contract_error label "a python-csv node's 'reads' must be exactly {csv: <uri>}"

  -- `set(reads) != {"csv"}`: the mapping has the one key `csv`.
  unfoldable pub validate_csv_entries : Entries → Result Reads
  validate_csv_entries ((key, uri) ∷ []) =
      if is_key "csv" key
      then (do u ← csv_error label (parse_csv_uri uri); ok (("csv", u.raw) ∷ []))
      else err csv_shape_error
  validate_csv_entries _ = err csv_shape_error

  unfoldable pub validate_csv_read : Heap → Value → Result Reads
  validate_csv_read h reads = elim (as_dict h reads) [
    | none ↦ err csv_shape_error
    | some entries ↦ validate_csv_entries entries
  ]

  abbrev no_reads_error : Exception
  no_reads_error = contract_error label "a python-api node declares no 'reads'"

  abbrev is_null : Value → Bool
  is_null null = true
  is_null _ = false

  unfoldable pub validate_no_reads : Heap → Value → Result Reads
  validate_no_reads h reads = if is_null reads then ok [] else elim (as_dict h reads) [
    | none ↦ err no_reads_error
    | some entries ↦ if is_empty entries then ok [] else err no_reads_error
  ]

  -- `rules.reads.validate(...)`
  unfoldable pub validate_reads : ReadsRule → Heap → Value → Result Reads
  validate_reads sql_reads h reads = validate_sql_reads h reads
  validate_reads csv_read h reads = validate_csv_read h reads
  validate_reads no_reads h reads = validate_no_reads h reads

abbrev pub kind_error : String → Exception
kind_error label = contract_error label "'kind' must be one of python-api, python-csv, python-node"

-- The lookup in `RULES`.
unfoldable pub rules_for : Value → String → Result (String × KindRules)
rules_for kind label = elim (as_str kind) [
  | none ↦ err (kind_error label)
  | some k ↦
      if k == "python-node"
      then ok (k, python_node)
      else if k == "python-csv"
      then ok (k, python_csv)
      else if k == "python-api"
      then ok (k, python_api)
      else err (kind_error label)
]
