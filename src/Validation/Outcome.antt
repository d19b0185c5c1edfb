-- ===== src/Validation/Outcome.antt =====
-- The exit code, the block and the calls of a validation.
use continuo_python_runtime.Base.{
  ℕ, String, ◌≡◌, refl, ap, ◌⊎◌, inl, inr, Bool, true, false, List, [], ◌∷◌, Exception, Result, ok,
  err,
}
use continuo_python_runtime.Contract.Value.{Heap}
use continuo_python_runtime.Engine.Discovery.{EntryPoint, discover_adapter}
use continuo_python_runtime.Steps.Effects.{is_ok}
use continuo_python_runtime.Validation.{
  Call, closed, State, ValidationAdapter, Services, Plan, Ended, go, stop,
}
use continuo_python_runtime.Validation.Inputs.{Env, gather}
use continuo_python_runtime.Validation.Operation.{operate}
use continuo_python_runtime.Validation.Main.{
  AdapterClass, Outcome, Block, success, error, find_class, missing_env, found_class, finished,
  failed, with_adapter, with_inputs, main,
}
use continuo_python_runtime.Validation.Gathering.{OnlyDownloads, IsFailure, gather-OnlyDownloads}
use continuo_python_runtime.Validation.Order.{Operated, operate-Operated}

-- Exit code 0 with a success block, or 1 or 2 with an error block.
pub data IsAnswer : Bool → ℕ → List Block → Type 0 where
  succeeded : IsAnswer true 0 (success ∷ [])
  broke : (code : ℕ) (e : Exception) → (code ≡ 1) ⊎ (code ≡ 2) → IsAnswer false code (error e ∷ [])

missing_env-IsFailure : {A : Type 0} (b : Bool) (a : A) → IsFailure (missing_env b a)
missing_env-IsFailure true a = tt
missing_env-IsFailure false a = inr refl

found_class-IsFailure :
    {W : Type 0} (env : Env) (r : Result (String × AdapterClass W)) → IsFailure (found_class env r)
found_class-IsFailure env (err e) = inr refl
found_class-IsFailure env (ok (engine, cls)) = missing_env-IsFailure _ cls

find_class-IsFailure :
    {W : Type 0} (entry_points : List (EntryPoint (AdapterClass W))) (env : Env)
    → IsFailure (find_class entry_points env)
unfolding find_class
find_class-IsFailure entry_points env = found_class-IsFailure env (discover_adapter entry_points)

module _ {W : Type 0} (services : Services W) (h : Heap) (before : List Call) (o : Outcome W) where
  -- The run ended before there was an adapter, with the given code and exception: it only
  -- downloaded.
  pub record IsEarly (code : ℕ) (e : Exception) : Type 0 where
    pub answer : IsAnswer false o.code o.printed
    pub same_code : o.code ≡ code
    pub shown : o.printed ≡ error e ∷ []
    pub downloads : OnlyDownloads before o.state.calls

  -- The run operated on the schema with an adapter, from the state that its construction left, and
  -- closed it, once; its exit code and block tell whether the operation succeeded.
  pub record IsOperated (adapter : ValidationAdapter W) (schema : String) (plan : Plan)
      (s : State W) : Type 0 where
    pub answer : IsAnswer (is_ok (operate services h adapter schema plan s).0) o.code o.printed
    pub downloads : OnlyDownloads before s.calls
    pub operated :
        Operated h schema plan s.calls
          (is_ok (operate services h adapter schema plan s).0)
          (operate services h adapter schema plan s).1.calls
    pub whole : o.state.calls ≡ closed ∷ (operate services h adapter schema plan s).1.calls
    pub world : o.state.world ≡ (adapter.close (operate services h adapter schema plan s).1.world).1

  -- How a validation ends, by what its inputs, then the adapter's class, then its construction
  -- gave.
  pub record IsOutcome (cls : Ended (AdapterClass W)) (x : Ended (String × Plan) × State W)
      : Type 0 where
    pub ends :
        ((code : ℕ) × (e : Exception) × (x.0 ≡ stop code e) × IsEarly code e)
        ⊎ ((schema : String) × (plan : Plan) × (x.0 ≡ go (schema, plan))
            × (((code : ℕ) × (e : Exception) × (cls ≡ stop code e) × IsEarly code e)
                ⊎ ((c : AdapterClass W) × (cls ≡ go c)
                    × (((e : Exception) × ((c.from_env x.1.world).0 ≡ err e) × IsEarly 1 e)
                        ⊎ ((adapter : ValidationAdapter W) × (w : W) × (c.from_env x.1.world
                              ≡ (ok adapter, w))
                            × IsOperated adapter schema plan
                                (record { world = w; calls = x.1.calls }))))))

module _ {W : Type 0} (services : Services W) (h : Heap) (before : List Call) where
  finished-IsOperated :
      (adapter : ValidationAdapter W) (schema : String) (plan : Plan) (s : State W)
      → OnlyDownloads before s.calls
      → IsOperated services h before
          (finished adapter (operate services h adapter schema plan s))
          adapter
          schema
          plan
          s
  finished-IsOperated adapter schema plan s d =
      ends_with (operate services h adapter schema plan s) refl
    where
      ends_with :
          (x : Result (Unit {0}) × State W)
          → operate services h adapter schema plan s ≡ x
          → IsOperated services h before
              (finished adapter (operate services h adapter schema plan s))
              adapter
              schema
              plan
              s
      ends_with (ok u, t) p = record {
        answer = rw p succeeded;
        downloads = d;
        operated = operate-Operated services h adapter schema plan s;
        whole = rw p refl;
        world = rw p refl;
      }
      ends_with (err e, t) p = record {
        answer = rw p (broke 1 e (inl refl));
        downloads = d;
        operated = operate-Operated services h adapter schema plan s;
        whole = rw p refl;
        world = rw p refl;
      }

  early :
      (code : ℕ) (e : Exception) (s : State W)
      → (code ≡ 1) ⊎ (code ≡ 2)
      → OnlyDownloads before s.calls
      → IsEarly services h before (failed code e s) code e
  early code e s which d = record {
    answer = broke code e which;
    same_code = refl;
    shown = refl;
    downloads = d;
  }

  with_inputs-IsOutcome :
      (cls : Ended (AdapterClass W)) (x : Ended (String × Plan) × State W)
      → IsFailure cls
      → OnlyDownloads before x.1.calls × IsFailure x.0
      → IsOutcome services h before (with_inputs services h cls x) cls x
  with_inputs-IsOutcome cls (stop code e, s) failure d = record {
    ends = inl (code, e, refl, early code e s d.1 d.0);
  }
  with_inputs-IsOutcome (stop code e) (go (schema, plan), s) failure d = record {
    ends = inr (schema, plan, refl, inl (code, e, refl, early code e s failure d.0));
  }
  with_inputs-IsOutcome (go cls) (go (schema, plan), s) failure d =
      constructed (cls.from_env s.world) refl
    where
      constructed :
          (r : Result (ValidationAdapter W) × W)
          → cls.from_env s.world ≡ r
          → IsOutcome services h before
              (with_adapter services h schema plan r s.calls)
              (go cls)
              (go (schema, plan), s)
      constructed (err e, w) p = record {
        ends = inr (
          schema,
          plan,
          refl,
          inr (
            cls,
            refl,
            inl (
              e,
              ap (λ q. q.0) p,
              early 1 e (record { world = w; calls = s.calls }) (inl refl) d.0,
            ),
          ),
        );
      }
      constructed (ok adapter, w) p = record {
        ends = inr (
          schema,
          plan,
          refl,
          inr (
            cls,
            refl,
            inr (
              adapter,
              w,
              p,
              finished-IsOperated adapter schema plan (record { world = w; calls = s.calls }) d.0,
            ),
          ),
        );
      }

-- A validation ends with exactly one block: a success block and exit code 0, or an error block and
-- exit code 1 or 2. If its inputs end it, or after them the adapter's class, or after that the
-- construction of the adapter, the exit code and the block are those of that end, 1 for the
-- construction, and it has only downloaded. If all three pass, it operated on the schema with the
-- adapter, from the state that the construction left, and the exit code and the block tell whether
-- the operation succeeded: it downloaded, made the calls of its operation in their order, all of
-- them if it succeeded, and closed the adapter last.
pub main-IsOutcome :
    {W : Type 0} (services : Services W) (h : Heap) (env : Env)
    (entry_points : List (EntryPoint (AdapterClass W))) (s : State W)
    → IsOutcome services h s.calls
        (main services h env entry_points s)
        (find_class entry_points env)
        (gather services h env s)
unfolding main
main-IsOutcome services h env entry_points s =
    with_inputs-IsOutcome services h s.calls (find_class entry_points env) (gather services h env s)
      (find_class-IsFailure entry_points env) (gather-OnlyDownloads services h env s)
