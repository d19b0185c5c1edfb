-- ===== src/Harness/Context.antt =====
-- `RunContext` of continuo_python_runtime/context.py, and a script's run with it.
use continuo_python_runtime.Base.{
  String, ◌==◌, Option, none, some, List, [], ◌∷◌, Exception, Result, ok, err, read_error,
  if◌then◌else◌,
}
use continuo_python_runtime.Engine.{Adapter}
use continuo_python_runtime.Conform.{Returned}
use continuo_python_runtime.Harness.{State, Step, fetched, script_failure}
use continuo_python_runtime.Steps.{call, raising}

-- What a script's `run(ctx)` does: it looks at and changes the world, reads by name, and returns or
-- raises.
pub data Script (W T : Type 0) : Type 0 where
  returns : Returned T → Script W T
  raises : Exception → Script W T
  look : (W → Script W T) → Script W T
  change : (W → W) → Script W T → Script W T
  read : String → (Result T → Script W T) → Script W T

-- `dict.get` on pairs of which the first counts.
unfoldable pub lookup : {A : Type 0} → String → List (String × A) → Option A
lookup name [] = none
lookup name ((key, value) ∷ rest) = if key == name then some value else lookup name rest

module _ {W T : Type 0} (adapter : Adapter W T) (reads : List (String × String)) where
  abbrev pub Memo : Type 0
  Memo = List (String × T)

  abbrev pub read_failed : Result T × State W → Memo → String → (Result T × Memo) × State W
  read_failed (ok t, s) memo name = ((ok t, (name, t) ∷ memo), s)
  read_failed (err e, s) memo name = ((err (read_error "declared read failed"), memo), s)

  abbrev pub fetch_read : String → String → Memo → State W → (Result T × Memo) × State W
  fetch_read sql name memo s = read_failed (call (fetched sql) (adapter.fetch sql) s) memo name

  abbrev pub memo_read : Option T → String → String → Memo → State W → (Result T × Memo) × State W
  memo_read (some t) sql name memo s = ((ok t, memo), s)
  memo_read none sql name memo s = fetch_read sql name memo s

  abbrev pub declared_read : Option String → String → Memo → State W → (Result T × Memo) × State W
  declared_read none name memo s = ((err (read_error "undeclared read"), memo), s)
  declared_read (some sql) name memo s = memo_read (lookup name memo) sql name memo s

  -- `RunContext.read`
  unfoldable pub read_name : String → Memo → State W → (Result T × Memo) × State W
  read_name name memo s = declared_read (lookup name reads) name memo s

  unfoldable pub run_script : Script W T → Memo → Step W (Returned T)
  run_script (returns r) memo s = (ok r, s)
  run_script (raises e) memo s = (err e, s)
  run_script (look f) memo s = run_script (f s.world) memo s
  run_script (change f k) memo s = run_script k memo (record { world = f s.world; calls = s.calls })
  run_script (read name k) memo s =
      let ((r, next), t) = read_name name memo s in run_script (k r) next t

  -- `_execute_script`
  unfoldable pub execute_script : Script W T → Step W (Returned T)
  execute_script script = raising script_failure (run_script script [])
