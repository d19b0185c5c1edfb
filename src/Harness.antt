-- ===== src/Harness.antt =====
-- continuo_python_runtime/harness.py and context.py. The warehouse and all else that an adapter or a
-- script touches is a state `W`; the calls the harness makes are recorded, the newest first.
pub mod Context
pub mod Run
pub mod Main
pub mod Reading
pub mod Writing
pub mod Memo
pub mod Kept
pub mod Executing
pub mod Order
use continuo_python_runtime.Base.{
  String, Bool, Option, List, [], ◌∷◌, Exception, Result, ok, err, is_harness_error, load_error,
  script_error, conform_error, duplicate_key_error, contract_error, if◌then◌else◌,
}
use continuo_python_runtime.Engine.{Target}
use continuo_python_runtime.Steps.{Trace, StepOn}

-- A call of the warehouse adapter, of the csv reader, or into a script.
pub data Call : Type 0 where
  config_checked : Call
  fetched : String → Call
  csv_read : String → Call
  ensured : Target → Call
  inspected : Target → Call
  loaded : Target → Call
  appended : Target → Call
  upserted : Target → List String → Call
  closed : Call

abbrev pub State : Type 0 → Type 0
State W = Trace Call W

abbrev pub Step : Type 0 → Type 0 → Type 0
Step W A = StepOn Call W A

-- `except HarnessError: raise`, and every other exception as one of the given class.
abbrev pub unless_harness : (String → Exception) → String → Exception → Exception
unless_harness wrap text e = if is_harness_error e then e else wrap text

abbrev pub script_failure : Exception → Exception
script_failure = unless_harness script_error "run() raised"

abbrev pub adapter_failure : Exception → Exception
adapter_failure = unless_harness load_error "adapter construction failed"

abbrev pub config_failure : Exception → Exception
config_failure = unless_harness load_error "invalid config"

unfoldable pub write_failure : Exception → Exception
write_failure (duplicate_key_error text) = conform_error text
write_failure e = unless_harness load_error "failed to write" e
