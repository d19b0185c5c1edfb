-- ===== src/Validation.antt =====
-- continuo_python_runtime/validation/runner.py: one validation operation. Here what it works on: the
-- calls it makes, the adapter, and the ends that a block with an exit code makes.
pub mod Inputs
pub mod Header
pub mod Operation
pub mod Main
pub mod Gathering
pub mod Checks
pub mod Order
pub mod Outcome
use continuo_python_runtime.Base.{ℕ, String, Option, List, Exception, Result}
use continuo_python_runtime.Contract.Value.{Value, Entries}
use continuo_python_runtime.Contract.CsvSource.{CsvUri}
use continuo_python_runtime.Steps.{Effect, Trace, StepOn}

-- A download of a candidate's object, and a call of the adapter or of the csv reader.
pub data Call : Type 0 where
  downloaded : String → String → Call
  header_read : String → Call
  schema_ensured schema_dropped : String → Call
  built_from_sql : String × String → String → Call
  binds_checked : Value → Call
  built_from_columns : String × String → Call
  cloned : String × String → String → Call
  closed : Call

abbrev pub State : Type 0 → Type 0
State W = Trace Call W

abbrev pub Step : Type 0 → Type 0 → Type 0
Step W A = StepOn Call W A

pub record ValidationAdapter (W : Type 0) : Type 0 where
  pub ensure_schema : String → Effect W (Unit {0})
  pub drop_schema : String → Effect W (Unit {0})
  pub build_empty_from_sql : String × String → String → Effect W (Unit {0})
  pub check_binds : Value → Effect W (Unit {0})
  pub build_empty_from_columns : String × String → Value → Entries → Effect W (Unit {0})
  pub clone_empty_from_prod : String × String → String → Effect W (Unit {0})
  pub close : Effect W (Unit {0})

-- boto3, `json.loads`, the csv reader and `csv.reader`.
pub record Services (W : Type 0) : Type 0 where
  pub get_object : String → String → Effect W String
  pub parse_json : String → Result Value
  pub fetch_header_line : CsvUri → Effect W String
  pub csv_fields : String → Result (List String)

-- A node's specification, as far as the runner has checked it.
pub record Spec : Type 0 where
  pub columns : Value
  pub config : Entries
  pub csv_source : String
  pub reads : Option Value

-- The operation with the inputs it needs.
pub data Plan : Type 0 where
  ensure_schema drop_schema : Plan
  build_from_sql : String → String → Plan
  check_binds : String → String → Plan
  build_from_columns : String → Spec → Plan
  clone_from_prod : String → String → Plan

-- `sys.exit(code)` after an error block.
pub data Ended (A : Type 0) : Type 0 where
  go : A → Ended A
  stop : ℕ → Exception → Ended A
