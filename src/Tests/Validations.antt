-- ===== src/Tests/Validations.antt =====
-- One validation: the columns of a node, with one read.
use continuo_python_runtime.Base.{ℕ, suc, ◌≡◌, refl, true, List, [], ◌∷◌, ok}
use continuo_python_runtime.Base.Text.{partition, drop}
use continuo_python_runtime.Contract.Value.{str, ref, Heap, mapping, sequence, get}
use continuo_python_runtime.Engine.Discovery.{EntryPoint, discover_adapter}
use continuo_python_runtime.Validation.{
  downloaded, schema_ensured, binds_checked, built_from_columns, closed, State, ValidationAdapter,
  Services,
}
use continuo_python_runtime.Steps.{◌>>=◌}
use continuo_python_runtime.Contract.Value.{truthy}
use continuo_python_runtime.Validation.Inputs.{
  Env, gather, variable, require_variable, plan_for_table, load_candidate_spec, parse_s3_uri,
  check_spec, ◌>>=◌ as ◌then◌,
}
use continuo_python_runtime.Validation.Header.{iterate}
use continuo_python_runtime.Validation.Operation.{operate, node_operation, check_all_binds}
use continuo_python_runtime.Validation.Main.{AdapterClass, success, find_class, main}
use continuo_python_runtime.Validation.Outcome.{IsOutcome, main-IsOutcome}
use continuo_python_runtime.Tests.Contracts.{nth}

abbrev heap : Heap
heap = record {
  size = 5;
  object = λ i. nth i (
      mapping ((str "output_columns", ref 1) ∷ (str "reads", ref 3) ∷ [])
      ∷ sequence (ref 2 ∷ [])
      ∷ mapping ((str "name", str "id") ∷ (str "type", str "BIGINT") ∷ [])
      ∷ sequence (str "select 1" ∷ [])
      ∷ []);
}

abbrev services : Services ℕ
services = record {
  get_object = λ bucket key w. (ok "{}", w);
  parse_json = λ text. ok (ref 0);
  fetch_header_line = λ uri w. (ok "id", w);
  csv_fields = λ line. ok (line ∷ []);
}

-- The state counts the tables.
abbrev adapter : ValidationAdapter ℕ
adapter = record {
  ensure_schema = λ schema w. (ok tt, w);
  drop_schema = λ schema w. (ok tt, 0);
  build_empty_from_sql = λ target sql w. (ok tt, suc w);
  check_binds = λ sql w. (ok tt, w);
  build_empty_from_columns = λ target columns config w. (ok tt, suc w);
  clone_empty_from_prod = λ target prod w. (ok tt, suc w);
  close = λ w. (ok tt, w);
}

abbrev entry_points : List (EntryPoint (AdapterClass ℕ))
entry_points =
    record {
      name = "postgres";
      load = ok (record { required_env = []; from_env = λ w. (ok adapter, w) });
      is_adapter_class = λ cls. true;
    }
    ∷ []

abbrev env : Env
env =
    ("DBT_TARGET_SCHEMA", "candidate")
    ∷ ("VALIDATION_OP", "build_from_columns")
    ∷ ("TABLE_NAME", "orders")
    ∷ ("CANDIDATE_SPEC_URI", "s3://bucket/spec.json")
    ∷ []

abbrev start : State ℕ
start = record { world = 0; calls = [] }

main-IsOutcome_example :
    IsOutcome services heap []
      (main services heap env entry_points start)
      (find_class entry_points env)
      (gather services heap env start)
main-IsOutcome_example = main-IsOutcome services heap env entry_points start

-- The table is built, after the bind check of the read.
run_succeeds : main services heap env entry_points start ≡ record {
  code = 0;
  printed = success ∷ [];
  state = record {
    world = 1;
    calls =
        closed
        ∷ built_from_columns ("candidate", "orders")
        ∷ binds_checked (str "select 1")
        ∷ schema_ensured "candidate"
        ∷ downloaded "bucket" "spec.json"
        ∷ [];
  };
}
unfolding main find_class discover_adapter gather variable require_variable plan_for_table
    load_candidate_spec parse_s3_uri partition drop check_spec get truthy operate node_operation
    iterate check_all_binds ◌>>=◌ ◌then◌
run_succeeds = refl
