-- ===== src/Tests/Runs.antt =====
-- One run of the harness on a warehouse that is a list of rows, and its parts.
use continuo_python_runtime.Base.{
  Exception, ◌≤◌, String, ◌≡◌, refl, ap, sym, ◌↔◌, ◌⊎◌, true, false, none, some, List, [], ◌∷◌,
  arith, Result, ok, err, ◌>>=◌, distinct, length,
}
use continuo_python_runtime.Base.Text.{is_space}
use continuo_python_runtime.Contract.Model.{Column}
use continuo_python_runtime.Contract.CsvSource.{unique}
use continuo_python_runtime.Contract.Types.{
  number, to_int, without_last, numeric, numeric_args, with_args, parse_sql_type, canonical,
  call_form, arrow_type, ArrowType, int64, date32, string,
}
use continuo_python_runtime.Contract.Types.Grammar.{
  skip_ascii_spaces, two_numbers, one_number, strip, upper_code, text_eq, span, drop_spaces,
  drop_last_spaces, drop_prefix, matches_type, validate_column_type,
}
use continuo_python_runtime.Engine.{upsert, Arrow, Adapter, LiveColumn, ensure_unique_key}
use continuo_python_runtime.Engine.Keys.{IsGrouping, IsUniqueKey, ensure_unique_key-IsUniqueKey}
use continuo_python_runtime.Conform.{
  to_arrow, Frame, other_type, arrow_table, conform, declared_type, target_schema,
  reject_lossy_cast, reject_lossy_casts, check_column, check_columns,
}
use continuo_python_runtime.Conform.Laws.{IsFrame, IsConformed, conform-IsConformed}
use continuo_python_runtime.Shape.{shape_diff, pick, take_first, is_match}
use continuo_python_runtime.Shape.Match.{IsMatch, shape_diff-IsMatch}
use continuo_python_runtime.Harness.Context.{
  execute_script, run_script, read_name, Script, lookup, read, returns, raises,
}
use continuo_python_runtime.Steps.{◌>>=◌ as ◌then◌}
use continuo_python_runtime.Harness.{closed, upserted, inspected, ensured, fetched, config_checked}
use continuo_python_runtime.Harness.Run.{
  Outside, module_with, execute, validate_config_early, writer_for, writer_of, produce,
  produce_from_script, load_script, write_table, check_shape,
}
use continuo_python_runtime.Harness.Main.{finished, success, run_node, prepare, active_adapter, Env}
use continuo_python_runtime.Harness.Memo.{unread, read as between, read_name-again}
use continuo_python_runtime.Harness.Kept.{check_shape-IsMatch}
use continuo_python_runtime.Engine.Upsert.{upsert_lem}
use continuo_python_runtime.Harness.Order.{IsOutcome, run_node-IsOutcome}
use continuo_python_runtime.Tests.Contracts.{sqlglot, lower, heap, files, orders}

-- Rows are the texts of their one column; a table has the names of its columns.
record Rows : Type 0 where
  names : List String
  types : List ArrowType
  values : List String

abbrev arrow : Arrow Rows
arrow = record {
  num_rows = λ t. length t.values;
  column_names = λ t. t.names;
  is_floating = λ t name. false;
  count_groups = λ t key. length (unique t.values);
}

length-unique : (xs : List String) → length (unique xs) ≤ length xs
unfolding unique
length-unique [] = omega arith
length-unique (x ∷ xs) = let ih = length-unique xs in ground (arith, ih)

unique-distinct : (xs : List String) → (length (unique xs) ≡ length xs) ↔ (distinct xs ≡ true)
unfolding unique
unique-distinct [] = (λ e. refl, λ e. refl)
unique-distinct (x ∷ xs) =
    let ih = unique-distinct xs in let le = length-unique xs in ground (arith, ih, le)

arrow-IsGrouping : IsGrouping Rows arrow (λ t key. t.values)
arrow-IsGrouping = record { size = λ t key. refl; groups = λ t key. unique-distinct t.values }

abbrev two_rows : Rows
two_rows = record { names = "id" ∷ []; types = int64 ∷ []; values = "1" ∷ "2" ∷ [] }

ensure_unique_key-IsUniqueKey_example :
    (ensure_unique_key arrow two_rows ("id" ∷ []) ≡ ok tt)
    ↔ IsUniqueKey Rows arrow (λ t key. t.values) two_rows ("id" ∷ [])
ensure_unique_key-IsUniqueKey_example =
    ensure_unique_key-IsUniqueKey arrow (λ t key. t.values) arrow-IsGrouping two_rows ("id" ∷ [])

abbrev frame : Frame Rows
frame = record {
  column_names = λ t. t.names;
  select = λ t names. record { names = names; types = t.types; values = t.values };
  class_of = λ t name. other_type;
  cast = λ t cs ts. ok (record { names = t.names; types = ts; values = t.values });
  null_count = λ t name. 0;
  max_length = λ t name. none;
  set_nullability = λ t cs ts. ok (record { names = t.names; types = ts; values = t.values });
}

frame-IsFrame : IsFrame Rows frame (λ t. some t.types)
frame-IsFrame = record {
  selected = λ t names once present. refl;
  cast_names = λ t u cs ts e. sym (ap (names_of t) e);
  restored = λ t u cs ts e. (sym (ap (names_of t) e), (λ n. refl), (λ n. refl));
  restored_types = λ t u cs ts schema e. ap some (sym (ap (types_in t) e));
}
  where
    names_of : Rows → Result Rows → List String
    names_of t (ok u) = u.names
    names_of t (err e) = t.names

    types_in : Rows → Result Rows → List ArrowType
    types_in t (ok u) = u.types
    types_in t (err e) = t.types

abbrev day_column : Column
day_column = record { name = "day"; type = "DATE"; nullable = false }

-- The second column is not declared.
abbrev day_and_note : Rows
day_and_note = record {
  names = "day" ∷ "note" ∷ [];
  types = date32 ∷ string ∷ [];
  values = "x" ∷ [];
}

abbrev only_day : Rows
only_day = record { names = "day" ∷ []; types = date32 ∷ []; values = "x" ∷ [] }

conforms : conform frame day_and_note (day_column ∷ []) "warn" ≡ ok only_day
unfolding ◌>>=◌ conform declared_type target_schema reject_lossy_cast reject_lossy_casts
    check_column check_columns arrow_type parse_sql_type canonical call_form strip upper_code
    text_eq span drop_spaces drop_last_spaces drop_prefix matches_type validate_column_type is_space
conforms = refl

conform-IsConformed_example :
    IsConformed Rows frame (λ t. some t.types) day_and_note (day_column ∷ []) "warn" only_day
conform-IsConformed_example =
    conform-IsConformed frame (λ t. some t.types) frame-IsFrame day_and_note (day_column ∷ [])
      "warn" only_day conforms

abbrev live_day : LiveColumn
live_day = record { name = "day"; nullable = false }

no_diff : is_match (shape_diff lower (day_column ∷ []) (live_day ∷ [])) ≡ true
unfolding shape_diff pick take_first
no_diff = refl

shape_diff-IsMatch_example : IsMatch lower (day_column ∷ []) (live_day ∷ [])
shape_diff-IsMatch_example = shape_diff-IsMatch lower (day_column ∷ []) (live_day ∷ []) no_diff

-- A script that returns its one read.
abbrev script : Script (List String) Rows
script = read "orders" (λ r. elim r [ ok t ↦ returns (arrow_table t) | err e ↦ raises e ])

abbrev outside : Outside (List String) Rows
outside = record {
  arrow = arrow;
  frame = frame;
  casefold = lower;
  script_file = λ path. module_with script;
  read_csv = λ uri cs ts w. (ok two_rows, w);
}

abbrev adapter : Adapter (List String) Rows
adapter = record {
  has_validate_config = true;
  validate_config = λ config names w. (ok tt, w);
  is_append_capable = true;
  is_upsert_capable = true;
  ensure_table = λ target cs config key w. (ok tt, w);
  table_columns = λ target w. (ok (record { name = "id"; nullable = false } ∷ []), w);
  fetch = λ sql w. (ok two_rows, w);
  load = λ target t w. (ok tt, t.values);
  append = λ target t w. (ok tt, t.values);
  upsert_rows = λ target t key w. (ok tt, t.values);
  close = λ w. (ok tt, w);
}

abbrev env : Env
env = ("NODE_ID", "node.sales.orders") ∷ ("TABLE_NAME", "orders") ∷ ("TARGET_SCHEMA", "sales") ∷ []

run_node-IsOutcome_example :
    IsOutcome outside sqlglot lower heap "node.sales.orders"
      (run_node outside sqlglot lower heap env files
        (some adapter)
        []
        []
        (record { world = []; calls = [] }))
      (prepare outside sqlglot lower heap env files)
      (active_adapter (some adapter) [] [])
      (record { world = []; calls = [] })
unfolding lookup
run_node-IsOutcome_example =
    run_node-IsOutcome outside sqlglot lower heap env files (some adapter) [] []
      (record { world = []; calls = [] })

-- The rows are written, and the calls stand in their order.
orders_written :
    finished outside sqlglot lower heap "node.sales.orders" adapter
      (execute outside adapter orders ("sales", "orders") (record { world = []; calls = [] }))
    ≡ record {
      code = 0;
      printed = success 2 "node.sales.orders" ∷ [];
      state = record {
        world = "1" ∷ "2" ∷ [];
        calls =
            closed
            ∷ upserted ("sales", "orders") ("id" ∷ [])
            ∷ inspected ("sales", "orders")
            ∷ ensured ("sales", "orders")
            ∷ fetched "select id from raw.orders"
            ∷ config_checked
            ∷ [];
      };
    }
unfolding ◌>>=◌ ◌then◌ execute validate_config_early writer_for writer_of produce
    produce_from_script load_script execute_script run_script read_name lookup to_arrow write_table
    check_shape conform declared_type target_schema reject_lossy_cast reject_lossy_casts
    check_column check_columns arrow_type parse_sql_type canonical call_form strip upper_code
    text_eq span drop_spaces drop_last_spaces drop_prefix matches_type validate_column_type is_space
    shape_diff pick take_first upsert ensure_unique_key unique number to_int without_last numeric
    numeric_args with_args skip_ascii_spaces two_numbers one_number
orders_written = refl

abbrev two_reads : List (String × String)
two_reads = ("orders", "select 1") ∷ ("items", "select 2") ∷ []

-- Another read lies between the two.
read_name-again_example :
    read_name adapter two_reads "orders"
      (("items", two_rows) ∷ ("orders", two_rows) ∷ [])
      (record { world = "later" ∷ []; calls = [] })
    ≡ (
      (ok two_rows, ("items", two_rows) ∷ ("orders", two_rows) ∷ []),
      record { world = "later" ∷ []; calls = [] },
    )
unfolding read_name lookup
read_name-again_example =
    read_name-again adapter two_reads "orders" [] (("orders", two_rows) ∷ [])
      (("items", two_rows) ∷ ("orders", two_rows) ∷ []) (record { world = []; calls = [] })
      (record { world = "later" ∷ []; calls = [] }) two_rows refl
      (between "items" (("orders", two_rows) ∷ []) _ (record { world = []; calls = [] })
        (unread (("items", two_rows) ∷ ("orders", two_rows) ∷ [])))

upsert_lem_example :
    (IsUniqueKey Rows arrow (λ t key. t.values) two_rows ("id" ∷ [])
      × (upsert arrow adapter ("sales", "orders") two_rows ("id" ∷ []) []
          ≡ adapter.upsert_rows ("sales", "orders") two_rows ("id" ∷ []) []))
    ⊎ ((e : Exception) × (ensure_unique_key arrow two_rows ("id" ∷ []) ≡ err e)
        × (upsert arrow adapter ("sales", "orders") two_rows ("id" ∷ []) [] ≡ (err e, [])))
upsert_lem_example =
    upsert_lem arrow (λ t key. t.values) arrow-IsGrouping adapter ("sales", "orders") two_rows
      ("id" ∷ []) []

shape_passes :
    (check_shape outside adapter orders ("sales", "orders") (record { world = []; calls = [] })).0
    ≡ ok tt
unfolding check_shape ◌then◌ shape_diff pick take_first
shape_passes = refl

check_shape-IsMatch_example :
    (live : List LiveColumn) × ((adapter.table_columns ("sales", "orders") []).0 ≡ ok live)
    × IsMatch lower orders.output_columns live
check_shape-IsMatch_example =
    check_shape-IsMatch outside adapter orders ("sales", "orders")
      (record { world = []; calls = [] }) shape_passes
