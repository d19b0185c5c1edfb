-- ===== src/Harness/Order.antt =====
-- The ends of a run: its exit code, its result block, and the calls that it made.
use continuo_python_runtime.Base.{
  ℕ, String, ◌≡◌, refl, ap, ◌⊎◌, inl, inr, Bool, true, false, Option, List, [], ◌∷◌, Exception,
  Result, ok, err, is_harness_error, Bool-cases,
}
use continuo_python_runtime.Contract.Value.{Heap}
use continuo_python_runtime.Contract.Model.{Node}
use continuo_python_runtime.Contract.Sql.{SqlParser}
use continuo_python_runtime.Contract.Loader.{File}
use continuo_python_runtime.Engine.{Adapter, Target}
use continuo_python_runtime.Engine.Discovery.{EntryPoint}
use continuo_python_runtime.Harness.{closed, State}
use continuo_python_runtime.Steps.{Effect}
use continuo_python_runtime.Harness.Context.{lookup}
use continuo_python_runtime.Steps.Effects.{is_ok}
use continuo_python_runtime.Harness.Run.{Outside, execute}
use continuo_python_runtime.Harness.Main.{
  Env, AdapterClass, Outcome, Block, success, error, sentinel, prepare, active_adapter, run_node,
  answered, finished, run_prepared, run_with, close_adapter, node_id_of,
}
use continuo_python_runtime.Harness.Executing.{IsRun, execute-IsRun}

-- What a run prints and returns: a success block and 0, or an error block that names one of the
-- harness's own exceptions and 1.
pub data IsAnswer (id : String) : Bool → ℕ → List Block → Type 0 where
  succeeded : (rows : ℕ) → IsAnswer id true 0 (success rows id ∷ [])
  failed : (e : Exception) → is_harness_error e ≡ true → IsAnswer id false 1 (error e id ∷ [])

sentinel-is_harness_error : (e : Exception) → is_harness_error (sentinel e) ≡ true
unfolding is_harness_error
sentinel-is_harness_error e = elim (Bool-cases (is_harness_error e)) [
  | inl harness ↦ rw harness harness
  | inr other ↦ rw other refl
]

module _ {W T : Type 0} (outside : Outside W T) (sqlglot : SqlParser) (lower : String → String)
    (h : Heap) where
  module _ (id : String) (o : Outcome W) where
    -- A run that an exception ended before there was an adapter: no call was made, the state of
    -- the world is the given one, and the block shows the exception.
    pub record IsRefused (e : Exception) (s : State W) : Type 0 where
      pub answer : IsAnswer id false o.code o.printed
      pub shown : o.printed ≡ error (sentinel e) id ∷ []
      pub state : o.state ≡ s

    -- A run with an adapter, from the state that its construction left: it executed the node, made
    -- the calls of a run, and then closed the adapter, once; its exit code and block tell whether
    -- the execution succeeded.
    pub record IsClosed (adapter : Adapter W T) (node : Node) (target : Target) (s : State W)
        : Type 0 where
      pub answer : IsAnswer id (is_ok (execute outside adapter node target s).0) o.code o.printed
      pub run :
          IsRun node target s.calls
            (is_ok (execute outside adapter node target s).0)
            (execute outside adapter node target s).1.calls
      pub whole : o.state.calls ≡ closed ∷ (execute outside adapter node target s).1.calls
      pub world : o.state.world ≡ (adapter.close (execute outside adapter node target s).1.world).1

    -- How a run ends, by what its preparation and then the construction of its adapter gave.
    pub record IsOutcome (job : Result (Node × Target)) (construct : Effect W (Adapter W T))
        (s : State W) : Type 0 where
      pub ends :
          ((e : Exception) × (job ≡ err e) × IsRefused e s)
          ⊎ (((prepared : Node × Target) × (e : Exception) × (w : W) × (job ≡ ok prepared)
                × (construct s.world ≡ (err e, w))
                × IsRefused e (record { world = w; calls = s.calls }))
              ⊎ ((node : Node) × (target : Target) × (adapter : Adapter W T) × (w : W) × (job
                    ≡ ok (node, target))
                  × (construct s.world ≡ (ok adapter, w))
                  × IsClosed adapter node target (record { world = w; calls = s.calls })))

  answered-IsAnswer :
      (id : String) (r : Result ℕ) (s : State W)
      → IsAnswer id
          (is_ok r)
          (answered outside sqlglot lower h id r s).code
          (answered outside sqlglot lower h id r s).printed
  answered-IsAnswer id (ok rows) s = succeeded rows
  answered-IsAnswer id (err e) s = failed (sentinel e) (sentinel-is_harness_error e)

  answered_state :
      (id : String) (r : Result ℕ) (s : State W)
      → (answered outside sqlglot lower h id r s).state ≡ s
  answered_state id (ok rows) s = refl
  answered_state id (err e) s = refl

  finished-IsClosed :
      (id : String) (adapter : Adapter W T) (node : Node) (target : Target) (s : State W)
      → IsClosed id
          (finished outside sqlglot lower h id adapter (execute outside adapter node target s))
          adapter
          node
          target
          s
  finished-IsClosed id adapter node target s =
      let (r, t) = execute outside adapter node target s in
      let end = close_adapter outside sqlglot lower h adapter t in
      record {
        answer = answered-IsAnswer id r end;
        run = execute-IsRun outside adapter node target s;
        whole = ap (λ u. u.calls) (answered_state id r end);
        world = ap (λ u. u.world) (answered_state id r end);
      }

  refused :
      (id : String) (e : Exception) (s : State W)
      → IsRefused id (answered outside sqlglot lower h id (err e) s) e s
  refused id e s = record {
    answer = failed (sentinel e) (sentinel-is_harness_error e);
    shown = refl;
    state = refl;
  }

  run_prepared-IsOutcome :
      (id : String) (job : Result (Node × Target)) (construct : Effect W (Adapter W T))
      (s : State W)
      → IsOutcome id (run_prepared outside sqlglot lower h id job construct s) job construct s
  run_prepared-IsOutcome id (err e) construct s = record { ends = inl (e, refl, refused id e s) }
  run_prepared-IsOutcome id (ok (node, target)) construct s =
      constructed_with (construct s.world) refl
    where
      constructed_with :
          (x : Result (Adapter W T) × W)
          → construct s.world ≡ x
          → IsOutcome id
              (run_with outside sqlglot lower h id (node, target) x s.calls)
              (ok (node, target))
              construct
              s
      constructed_with (err e, w) p = record {
        ends = inr (
            inl (
              (node, target),
              e,
              w,
              refl,
              p,
              refused id e (record { world = w; calls = s.calls }),
            ));
      }
      constructed_with (ok adapter, w) p = record {
        ends = inr (
            inr (
              node,
              target,
              adapter,
              w,
              refl,
              p,
              finished-IsClosed id adapter node target (record { world = w; calls = s.calls }),
            ));
      }

  -- A run ends with exactly one block, and exit code 0 exactly with a success block; an error
  -- block names one of the harness's own exceptions. There are three ways. If the environment or
  -- the contracts are refused, the block shows that exception and the state is as before. If they
  -- pass and the adapter's construction raises, the block shows that exception, the state of the
  -- world is the one that the construction left, and nothing else was called. If they pass and
  -- there is an adapter, the node was executed with it, from the state that its construction left,
  -- and the exit code and the block tell whether the execution succeeded: the config was checked
  -- at most once, then only declared reads were fetched, then the table was ensured, for an append
  -- or upsert inspected, and written once in the node's mode, in that order, an execution that
  -- succeeded having done all of it, and at last the adapter was closed, once.
  pub run_node-IsOutcome :
      (env : Env) (files : List File) (adapter : Option (Adapter W T))
      (entry_points : List (EntryPoint (AdapterClass W T))) (environ : Env) (s : State W)
      → IsOutcome
          (node_id_of outside sqlglot lower h (lookup "NODE_ID" env))
          (run_node outside sqlglot lower h env files adapter entry_points environ s)
          (prepare outside sqlglot lower h env files)
          (active_adapter adapter entry_points environ)
          s
  unfolding run_node
  run_node-IsOutcome env files adapter entry_points environ s =
      run_prepared-IsOutcome (node_id_of outside sqlglot lower h (lookup "NODE_ID" env))
        (prepare outside sqlglot lower h env files) (active_adapter adapter entry_points environ) s
