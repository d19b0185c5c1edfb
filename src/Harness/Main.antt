-- ===== src/Harness/Main.antt =====
-- `run_node` of continuo_python_runtime/harness.py: the checks before the warehouse is touched, the
-- exit code, the result block, and the close of the adapter.
use continuo_python_runtime.Base.{
  ℕ, String, ◌==◌, Bool, false, ◌&&◌, not, Option, none, some, List, [], ◌∷◌, Exception,
  contract_error, load_error, script_error, Result, ok, err, ◌>>=◌, ◌>>◌, require, all,
  is_harness_error, if◌then◌else◌, find_first,
}
use continuo_python_runtime.Base.Text.{split}
use continuo_python_runtime.Contract.Value.{Heap}
use continuo_python_runtime.Contract.Model.{Node}
use continuo_python_runtime.Contract.Sql.{SqlParser}
use continuo_python_runtime.Contract.Loader.{File, load_contract_dir}
use continuo_python_runtime.Engine.{Adapter, Target}
use continuo_python_runtime.Engine.Discovery.{EntryPoint, discover_adapter}
use continuo_python_runtime.Harness.{Call, State, closed, adapter_failure}
use continuo_python_runtime.Steps.{Effect}
use continuo_python_runtime.Harness.Context.{lookup}
use continuo_python_runtime.Harness.Run.{Outside, execute}

abbrev pub Env : Type 0
Env = List (String × String)

abbrev set_value : String → Option String → Result String
set_value key none = err (contract_error "" "missing required environment variable")
set_value key (some value) =
    if value == ""
    then err (contract_error "" "missing required environment variable")
    else ok value

unfoldable pub require_env : Env → String → Result String
require_env env key = set_value key (lookup key env)

abbrev last_two : List String → Option (String × String)
last_two [] = none
last_two (a ∷ []) = none
last_two (a ∷ b ∷ []) = some (a, b)
last_two (a ∷ b ∷ c ∷ rest) = last_two (b ∷ c ∷ rest)

abbrev matched : Option Node → Result Node
matched none = err (contract_error "" "no node matches")
matched (some node) = ok node

abbrev select_by : List Node → Option (String × String) → Result Node
select_by nodes none = err (contract_error "" "node_id must have at least 2 dot-separated segments")
select_by nodes (some (schema, table)) =
    matched (find_first (λ n. (n.schema == schema) && (n.table == table)) nodes)

unfoldable pub select_node : List Node → String → Result Node
select_node nodes node_id = select_by nodes (last_two (split b'.' node_id))

-- An adapter's class. Its `from_env` may connect, so it may change the world.
pub record AdapterClass (W T : Type 0) : Type 0 where
  pub required_env : List String
  pub from_env : Effect W (Adapter W T)

abbrev is_set : Option String → Bool
is_set none = false
is_set (some value) = not (value == "")

abbrev constructed : {W T : Type 0} → Result (AdapterClass W T) → Effect W (Adapter W T)
constructed (err e) w = (err e, w)
constructed (ok cls) w = cls.from_env w

-- The installed adapter's class, with its environment set.
abbrev adapter_class :
    {W T : Type 0} → List (EntryPoint (AdapterClass W T)) → Env → Result (AdapterClass W T)
adapter_class entry_points environ = do
  (_, cls) ← discover_adapter entry_points
  require (all (λ key. is_set (lookup key environ)) cls.required_env)
      (load_error "missing required warehouse env")
  ok cls

unfoldable pub build_adapter :
    {W T : Type 0} → List (EntryPoint (AdapterClass W T)) → Env → Effect W (Adapter W T)
build_adapter entry_points environ = constructed (adapter_class entry_points environ)

abbrev adapter_result : {A W : Type 0} → Result A × W → Result A × W
adapter_result (err e, w) = (err (adapter_failure e), w)
adapter_result (ok a, w) = (ok a, w)

-- `adapter`, or the installed one.
unfoldable pub active_adapter :
    {W T : Type 0}
    → Option (Adapter W T)
    → List (EntryPoint (AdapterClass W T))
    → Env
    → Effect W (Adapter W T)
active_adapter (some adapter) entry_points environ w = (ok adapter, w)
active_adapter none entry_points environ w = adapter_result (build_adapter entry_points environ w)

-- The printed block.
pub data Block : Type 0 where
  success : ℕ → String → Block
  error : Exception → String → Block

pub record Outcome (W : Type 0) : Type 0 where
  pub code : ℕ
  pub printed : List Block
  pub state : State W

-- `err.sentinel_message()`, or that of an unexpected failure.
abbrev pub sentinel : Exception → Exception
sentinel e = if is_harness_error e then e else script_error "unexpected failure"

module _ {W T : Type 0} (outside : Outside W T) (sqlglot : SqlParser) (lower : String → String)
    (h : Heap) where
  abbrev pub node_id_of : Option String → String
  node_id_of none = ""
  node_id_of (some id) = id

  abbrev pub answered : String → Result ℕ → State W → Outcome W
  answered id (ok rows) s = record { code = 0; printed = success rows id ∷ []; state = s }
  answered id (err e) s = record { code = 1; printed = error (sentinel e) id ∷ []; state = s }

  -- The `finally` block; what `close` raises is logged only.
  abbrev pub close_adapter : Adapter W T → State W → State W
  close_adapter adapter s = record { world = (adapter.close s.world).1; calls = closed ∷ s.calls }

  abbrev pub finished : String → Adapter W T → Result ℕ × State W → Outcome W
  finished id adapter (r, s) = answered id r (close_adapter adapter s)

  -- The node of the run and the table it writes.
  unfoldable pub prepare : Env → List File → Result (Node × Target)
  prepare env files = do
    node_id ← require_env env "NODE_ID"
    table_name ← require_env env "TABLE_NAME"
    target_schema ← require_env env "TARGET_SCHEMA"
    nodes ← load_contract_dir sqlglot lower h none false files
    node ← select_node nodes node_id
    ok (node, (target_schema, table_name))

  abbrev pub run_with : String → Node × Target → Result (Adapter W T) × W → List Call → Outcome W
  run_with id job (err e, w) calls = answered id (err e) (record { world = w; calls = calls })
  run_with id (node, target) (ok adapter, w) calls =
      finished id adapter
        (execute outside adapter node target (record { world = w; calls = calls }))

  abbrev pub run_prepared :
      String → Result (Node × Target) → Effect W (Adapter W T) → State W → Outcome W
  run_prepared id (err e) construct s = answered id (err e) s
  run_prepared id (ok job) construct s = run_with id job (construct s.world) s.calls

  unfoldable pub run_node :
      Env
      → List File
      → Option (Adapter W T)
      → List (EntryPoint (AdapterClass W T))
      → Env
      → State W
      → Outcome W
  run_node env files adapter entry_points environ s =
      run_prepared (node_id_of (lookup "NODE_ID" env)) (prepare env files)
        (active_adapter adapter entry_points environ) s
