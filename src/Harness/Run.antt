-- ===== src/Harness/Run.antt =====
-- `run_node` of continuo_python_runtime/harness.py, with `select_node`, the producers and the writers.
-- What a script's file holds, the csv parser and the adapter's class are parameters.
use continuo_python_runtime.Base.{
  ℕ, String, ◌==◌, Bool, true, Option, none, some, List, map, Exception, contract_error, load_error,
  script_error, other_error, Result, ok, err, require, if◌then◌else◌,
}
use continuo_python_runtime.Contract.Value.{str}
use continuo_python_runtime.Contract.Model.{Column, Node}
use continuo_python_runtime.Contract.Types.{ArrowType}
use continuo_python_runtime.Contract.CsvSource.{CsvUri, parse_csv_uri}
use continuo_python_runtime.Engine.{Arrow, Adapter, Target, upsert}
use continuo_python_runtime.Steps.{Effect}
use continuo_python_runtime.Conform.{Frame, to_arrow, conform, target_schema}
use continuo_python_runtime.Shape.{is_match, shape_diff}
use continuo_python_runtime.Harness.{
  config_checked, csv_read, ensured, inspected, loaded, appended, upserted, Step, config_failure,
  write_failure,
}
use continuo_python_runtime.Steps.{◌>>=◌, ◌>>◌, pure, call, raising}
use continuo_python_runtime.Harness.Context.{Script, lookup, execute_script}

-- What `load_script` finds at a node's script path.
pub data ScriptFile (W T : Type 0) : Type 0 where
  bad_path failed_import no_run : ScriptFile W T
  module_with : Script W T → ScriptFile W T

unfoldable pub load_script : {W T : Type 0} → ScriptFile W T → Result (Script W T)
load_script bad_path = err (contract_error "" "cannot load script")
load_script failed_import = err (script_error "script import failed")
load_script no_run = err (script_error "script has no callable 'run'")
load_script (module_with script) = ok script

-- What is outside src/ or only read by a run.
pub record Outside (W T : Type 0) : Type 0 where
  pub arrow : Arrow T
  pub frame : Frame T
  pub casefold : String → String
  pub script_file : String → ScriptFile W T
  pub read_csv : CsvUri → List Column → List ArrowType → Effect W T

-- `_Writer`: the capability it needs, if any, as the test that an adapter has it.
pub record Writer (W T : Type 0) : Type 0 where
  pub capability : Option (Adapter W T → Bool)
  pub write : Adapter W T → Target → T → List String → Step W (Unit {0})

abbrev pub csv_failure : Exception → Exception
csv_failure (load_error text) = load_error text
csv_failure e = load_error "csv fetch failed"

module _ {W T : Type 0} (outside : Outside W T) where
  abbrev pub write_replace : Writer W T
  write_replace = record {
    capability = none;
    write = λ adapter target rows key. call (loaded target) (adapter.load target rows);
  }

  abbrev pub write_append : Writer W T
  write_append = record {
    capability = some (λ adapter. adapter.is_append_capable);
    write = λ adapter target rows key. call (appended target) (adapter.append target rows);
  }

  abbrev pub write_upsert : Writer W T
  write_upsert = record {
    capability = some (λ adapter. adapter.is_upsert_capable);
    write = λ adapter target rows key.
        call (upserted target key) (upsert outside.arrow adapter target rows key);
  }

  -- `_WRITERS[mode]`
  unfoldable pub writer_of : String → Result (Writer W T)
  writer_of mode =
      if mode == "replace"
      then ok write_replace
      else if mode == "append"
      then ok write_append
      else if mode == "upsert"
      then ok write_upsert
      else err (other_error "KeyError")

  abbrev pub supports : Adapter W T → Option (Adapter W T → Bool) → Bool
  supports adapter none = true
  supports adapter (some has) = has adapter

  abbrev pub checked_writer : Adapter W T → Result (Writer W T) → Result (Writer W T)
  checked_writer adapter (err e) = err e
  checked_writer adapter (ok writer) =
      if supports adapter writer.capability
      then ok writer
      else err (load_error "the adapter does not support the mode")

  -- `_writer_for`
  unfoldable pub writer_for : Adapter W T → Node → Result (Writer W T)
  writer_for adapter node = checked_writer adapter (writer_of node.mode_type)

  -- `_validate_config_early`
  unfoldable pub validate_config_early : Adapter W T → Node → Step W (Unit {0})
  validate_config_early adapter node =
      if adapter.has_validate_config
      then raising config_failure (
          call config_checked
            (adapter.validate_config node.config (map (λ c. c.name) node.output_columns)))
      else pure (ok tt)

  -- `_produce_from_script`
  unfoldable pub produce_from_script : Adapter W T → Node → Step W T
  produce_from_script adapter node = do
    script ← pure (load_script (outside.script_file node.script))
    value ← execute_script adapter node.reads script
    pure (to_arrow value)

  unfoldable pub load_csv : Node → String → Step W T
  load_csv node text = do
    uri ← pure (parse_csv_uri (str text))
    types ← pure (target_schema node.output_columns)
    raising csv_failure (call (csv_read text) (outside.read_csv uri node.output_columns types))

  abbrev pub csv_source : Node → Option String → Step W T
  csv_source node none = pure (err (other_error "KeyError"))
  csv_source node (some text) = load_csv node text

  -- `produce_csv` of continuo_python_runtime/csv_loader.py
  unfoldable pub produce_csv : Node → Step W T
  produce_csv node = csv_source node (lookup "csv" node.reads)

  -- `_PRODUCERS[kind]`
  unfoldable pub produce : Adapter W T → Node → Step W T
  produce adapter node =
      if node.kind == "python-node"
      then produce_from_script adapter node
      else if node.kind == "python-api"
      then produce_from_script adapter node
      else if node.kind == "python-csv"
      then produce_csv node
      else pure (err (other_error "KeyError"))

  -- `_check_shape`
  unfoldable pub check_shape : Adapter W T → Node → Target → Step W (Unit {0})
  check_shape adapter node target = do
    live ← call (inspected target) (adapter.table_columns target)
    pure (
        require (is_match (shape_diff outside.casefold node.output_columns live))
          (load_error "table does not match the contract's output_columns"))

  abbrev pub check_kept_table :
      Option (Adapter W T → Bool) → Adapter W T → Node → Target → Step W (Unit {0})
  check_kept_table none adapter node target = pure (ok tt)
  check_kept_table (some has) adapter node target = check_shape adapter node target

  -- The `try` block that writes.
  unfoldable pub write_table : Adapter W T → Node → Target → Writer W T → T → Step W (Unit {0})
  write_table adapter node target writer rows = do
    call (ensured target)
        (adapter.ensure_table target node.output_columns node.config node.primary_key)
    check_kept_table writer.capability adapter node target
    writer.write adapter target rows node.primary_key

  -- What `run_node` does once it has the node and the adapter; the result is the number of rows.
  unfoldable pub execute : Adapter W T → Node → Target → Step W ℕ
  execute adapter node target = do
    validate_config_early adapter node
    writer ← pure (writer_for adapter node)
    table ← produce adapter node
    conformed ← pure (conform outside.frame table node.output_columns node.extra_columns)
    raising write_failure (write_table adapter node target writer conformed)
    pure (ok (outside.arrow.num_rows conformed))
