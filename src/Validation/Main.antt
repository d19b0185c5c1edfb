-- ===== src/Validation/Main.antt =====
-- `main` of continuo_python_runtime/validation/runner.py: the exit code, the result block (without the
-- identity of the node), and the close of the adapter.
use continuo_python_runtime.Base.{
  ℕ, String, ◌==◌, Bool, true, false, not, List, [], ◌∷◌, Exception, other_error, Result, ok, err,
  all,
}
use continuo_python_runtime.Contract.Value.{Heap}
use continuo_python_runtime.Engine.Discovery.{EntryPoint, discover_adapter}
use continuo_python_runtime.Validation.{
  Call, closed, State, ValidationAdapter, Services, Plan, Ended, go, stop,
}
use continuo_python_runtime.Steps.{Effect}
use continuo_python_runtime.Validation.Inputs.{Env, variable, gather}
use continuo_python_runtime.Validation.Operation.{operate}

-- An adapter's class. Its `from_env` may connect, so it may change the world.
pub record AdapterClass (W : Type 0) : Type 0 where
  pub required_env : List String
  pub from_env : Effect W (ValidationAdapter W)

pub data Block : Type 0 where
  success : Block
  error : Exception → Block

pub record Outcome (W : Type 0) : Type 0 where
  pub code : ℕ
  pub printed : List Block
  pub state : State W

abbrev pub missing_env : {A : Type 0} → Bool → A → Ended A
missing_env true cls = go cls
missing_env false cls = stop 2 (other_error "missing required env for engine")

abbrev pub found_class :
    {W : Type 0} → Env → Result (String × AdapterClass W) → Ended (AdapterClass W)
found_class env (err e) = stop 2 e
found_class env (ok (engine, cls)) =
    missing_env (all (λ name. not (variable name "" env == "")) cls.required_env) cls

-- The installed adapter's class, with its environment set.
unfoldable pub find_class :
    {W : Type 0} → List (EntryPoint (AdapterClass W)) → Env → Ended (AdapterClass W)
find_class entry_points env = found_class env (discover_adapter entry_points)

abbrev pub failed : {W : Type 0} → ℕ → Exception → State W → Outcome W
failed code e s = record { code = code; printed = error e ∷ []; state = s }

-- The `finally` block; what `close` raises is logged only.
abbrev close_adapter : {W : Type 0} → ValidationAdapter W → State W → State W
close_adapter adapter s = record { world = (adapter.close s.world).1; calls = closed ∷ s.calls }

abbrev pub finished : {W : Type 0} → ValidationAdapter W → Result (Unit {0}) × State W → Outcome W
finished adapter (ok u, s) = record {
  code = 0;
  printed = success ∷ [];
  state = close_adapter adapter s;
}
finished adapter (err e, s) = failed 1 e (close_adapter adapter s)

module _ {W : Type 0} (services : Services W) (h : Heap) where
  abbrev pub with_adapter : String → Plan → Result (ValidationAdapter W) × W → List Call → Outcome W
  with_adapter schema plan (err e, w) calls = failed 1 e (record { world = w; calls = calls })
  with_adapter schema plan (ok adapter, w) calls =
      finished adapter
        (operate services h adapter schema plan (record { world = w; calls = calls }))

  abbrev pub with_class : String → Plan → Ended (AdapterClass W) → State W → Outcome W
  with_class schema plan (stop code e) s = failed code e s
  with_class schema plan (go cls) s = with_adapter schema plan (cls.from_env s.world) s.calls

  abbrev pub with_inputs : Ended (AdapterClass W) → Ended (String × Plan) × State W → Outcome W
  with_inputs cls (stop code e, s) = failed code e s
  with_inputs cls (go (schema, plan), s) = with_class schema plan cls s

  unfoldable pub main : Env → List (EntryPoint (AdapterClass W)) → State W → Outcome W
  main env entry_points s = with_inputs (find_class entry_points env) (gather services h env s)
