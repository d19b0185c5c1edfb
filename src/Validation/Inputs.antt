-- ===== src/Validation/Inputs.antt =====
-- What `main` of continuo_python_runtime/validation/runner.py gathers before it touches the adapter.
use continuo_python_runtime.Base.{
  ℕ, String, ◌==◌, starts_with, Bool, true, false, ◌||◌, not, Option, none, some, List, [], ◌∷◌,
  Exception, value_error, other_error, Result, ok, err, if◌then◌else◌,
}
use continuo_python_runtime.Base.Text.{partition, drop}
use continuo_python_runtime.Contract.Value.{
  truthy, Value, null, Heap, Entries, as_dict, as_str, get, get_or,
}
use continuo_python_runtime.Steps.{call}
use continuo_python_runtime.Validation.{
  downloaded, State, Services, Spec, Plan, ensure_schema, drop_schema, build_from_sql, check_binds,
  build_from_columns, clone_from_prod, Ended, go, stop,
}

abbrev pub Env : Type 0
Env = List (String × String)

-- `os.environ.get(name, default)`
unfoldable pub variable : String → String → Env → String
variable name default [] = default
variable name default ((key, value) ∷ rest) =
    if key == name then value else variable name default rest

unfoldable pub require_variable : String → Env → Ended String
unfolding variable
require_variable name env =
    let value = variable name "" env in
    if value == "" then stop 2 (other_error "missing required env var") else go value

unfoldable pub parse_s3_uri : String → Result (String × String)
unfolding partition drop
parse_s3_uri uri =
    if starts_with uri "s3://"
    then (let (bucket, key) = partition b'/' (drop 5 uri) in
        if bucket == "" || key == ""
        then err (value_error "invalid S3 URI (missing bucket or key)")
        else ok (bucket, key))
    else err (value_error "invalid S3 URI (must start with s3://)")

-- A step of the gathering: it may download, and it may end the process.
abbrev pub Phase : Type 0 → Type 0 → Type 0
Phase W A = State W → Ended A × State W

abbrev continue : {W A B : Type 0} → Ended A × State W → (A → Phase W B) → Ended B × State W
continue (go a, s) f = f a s
continue (stop code e, s) f = (stop code e, s)

infixl 5 ◌>>=◌ ◌>>◌
unfoldable pub ◌>>=◌ : {W A B : Type 0} → Phase W A → (A → Phase W B) → Phase W B
◌>>=◌ m f s = continue (m s) f

abbrev ◌>>◌ : {W B : Type 0} → Phase W (Unit {0}) → Phase W B → Phase W B
before >> after = before >>= λ _. after

abbrev pub settle : {W A : Type 0} → Ended A → Phase W A
settle r s = (r, s)

abbrev pub demand : {W : Type 0} → Bool → ℕ → Exception → Phase W (Unit {0})
demand true code e s = (go tt, s)
demand false code e s = (stop code e, s)

-- An exception ends the process with the code that its class has.
abbrev pub ending : {A : Type 0} → (Exception → ℕ) → Result A → Ended A
ending code (ok a) = go a
ending code (err e) = stop (code e) e

-- `except (ValueError, json.JSONDecodeError)`, a subclass: 2. Any other exception: 1.
abbrev pub spec_code : Exception → ℕ
spec_code (value_error text) = 2
spec_code e = 1

abbrev received : {W A : Type 0} → (Exception → ℕ) → Result A × State W → Ended A × State W
received code (r, s) = (ending code r, s)

module _ {W : Type 0} (services : Services W) (h : Heap) where
  abbrev pub fetched : (Exception → ℕ) → Result (String × String) → Phase W String
  fetched code (err e) s = (stop (code e) e, s)
  fetched code (ok (bucket, key)) s =
      received code (call (downloaded bucket key) (services.get_object bucket key) s)

  -- `load_candidate_sql`
  unfoldable pub load_candidate_sql : Env → Phase W String
  load_candidate_sql env =
      let uri = variable "CANDIDATE_SQL_URI" "" env in
      if uri == "" then settle (go "") else fetched (λ _. 1) (parse_s3_uri uri)

  abbrev pub spec_object : Option Entries → Ended Entries
  spec_object none = stop 2 (value_error "candidate spec must be a JSON object")
  spec_object (some entries) = go entries

  abbrev pub parsed_spec : Result Value → Ended Entries
  parsed_spec (err e) = stop (spec_code e) e
  parsed_spec (ok v) = spec_object (as_dict h v)

  abbrev pub spec_body : String → Phase W String
  spec_body uri =
      if uri == ""
      then settle (stop 2 (value_error "CANDIDATE_SPEC_URI is unset or empty"))
      else fetched spec_code (parse_s3_uri uri)

  -- `load_candidate_spec`
  unfoldable pub load_candidate_spec : Env → Phase W Entries
  load_candidate_spec env = do
    body ← spec_body (variable "CANDIDATE_SPEC_URI" "" env)
    settle (parsed_spec (services.parse_json body))

  abbrev pub config_of : Value → Option Entries → Ended Entries
  config_of null found = go []
  config_of v none = stop 2 (other_error "candidate spec 'config' must be a JSON object")
  config_of v (some entries) = go entries

  abbrev pub csv_source_of : Option Value → Ended String
  csv_source_of none = go ""
  csv_source_of (some v) = elim (as_str v) [
    | none ↦ stop 2 (other_error "candidate spec 'csv_source' must be a string")
    | some uri ↦ go uri
  ]

  unfoldable pub check_spec : Entries → Phase W Spec
  check_spec spec = do
    let columns = get_or "output_columns" null spec
    demand (truthy h columns) 2 (other_error "candidate spec has no output_columns")
    let raw_config = get_or "config" null spec
    config ← settle (config_of raw_config (as_dict h raw_config))
    csv_source ← settle (csv_source_of (get "csv_source" spec))
    settle (
        go (record {
          columns = columns;
          config = config;
          csv_source = csv_source;
          reads = get "reads" spec;
        }))

  unfoldable pub some_sql : Env → Phase W String
  some_sql env = do
    sql ← load_candidate_sql env
    demand (not (sql == "")) 2 (other_error "CANDIDATE_SQL_URI is unset or empty")
    settle (go sql)

  unfoldable pub plan_for_table : String → String → Env → Phase W Plan
  plan_for_table op table env =
      if op == "build_from_sql"
      then (do sql ← some_sql env; settle (go (build_from_sql table sql)))
      else if op == "check_binds"
      then (do sql ← some_sql env; settle (go (check_binds table sql)))
      else if op == "build_from_columns"
      then (do
        entries ← load_candidate_spec env
        spec ← check_spec entries
        settle (go (build_from_columns table spec)))
      else (do
        prod_schema ← settle (require_variable "PROD_SCHEMA" env)
        settle (go (clone_from_prod table prod_schema)))

  abbrev pub is_node_op : String → Bool
  is_node_op op =
      op == "build_from_sql"
      || op == "clone_from_prod"
      || op == "build_from_columns"
      || op == "check_binds"

  -- The schema and the operation; nothing of the adapter is touched.
  unfoldable pub gather : Env → Phase W (String × Plan)
  gather env = do
    schema ← settle (require_variable "DBT_TARGET_SCHEMA" env)
    let op = variable "VALIDATION_OP" "build_from_sql" env
    plan ←
        (if is_node_op op
          then (do table ← settle (require_variable "TABLE_NAME" env); plan_for_table op table env)
          else if op == "ensure_schema"
          then settle (go ensure_schema)
          else if op == "drop_schema"
          then settle (go drop_schema)
          else settle (stop 2 (other_error "unknown VALIDATION_OP")))
    settle (go (schema, plan))
