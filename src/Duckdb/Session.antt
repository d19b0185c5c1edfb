-- ===== src/Duckdb/Session.antt =====
-- adapters/duckdb/continuo_duckdb_adapter/infrastructure/session.py: one DuckDB connection, the errors
-- that leave it, and its transactions. `duckdb` is the parameter `Connection`; the logging is left out.
pub mod Redaction
pub mod Masking
pub mod Raising
pub mod Masked
pub mod Gateway
pub mod Transactions
pub mod Connecting
use continuo_python_runtime.Base.{
  ℕ, zero, suc, ◌-◌, String, ◌==◌, Bool, true, false, ◌&&◌, not, List, [], ◌∷◌, is_empty, length,
  Exception, Result, ok, err, if◌then◌else◌,
}
use continuo_python_runtime.Base.Sorting.{Text}
use continuo_python_runtime.Base.Text.{codes}
use continuo_python_runtime.Duckdb.Session.Redaction.{redacted}

-- A `duckdb.Error`.
pub record EngineError : Type 0 where
  pub class : String
  pub message : Text

-- A `LakeConflictError`, a `duckdb.Error`, or any other exception.
pub data Failure : Type 0 where
  conflict : Text → Failure
  engine : EngineError → Failure
  failed : Exception → Failure

pub data Answer (A : Type 0) : Type 0 where
  returned : A → Answer A
  raised : Failure → Answer A

-- Code that works on the connection, whose state is of any type.
abbrev pub Action : Type 0 → Type 0 → Type 0
Action W A = W → Answer A × W

abbrev pub continue : {W A B : Type 0} → Answer A × W → (A → Action W B) → Answer B × W
continue (returned a, w) f = f a w
continue (raised e, w) f = (raised e, w)

infixl 5 ◌>>=◌ ◌>>◌
-- Shut where proofs split a chain; what runs one names it on its `unfolding` line.
unfoldable pub ◌>>=◌ : {W A B : Type 0} → Action W A → (A → Action W B) → Action W B
◌>>=◌ m f w = continue (m w) f

abbrev pub ◌>>◌ : {W B : Type 0} → Action W (Unit {0}) → Action W B → Action W B
before >> after = before >>= λ _. after

abbrev pub return : {W A : Type 0} → A → Action W A
return a w = (returned a, w)

abbrev pub raise : {W A : Type 0} → Failure → Action W A
raise e w = (raised e, w)

-- Code that only computes.
abbrev pub lift : {W A : Type 0} → Result A → Action W A
lift (ok a) w = (returned a, w)
lift (err e) w = (raised (failed e), w)

abbrev pub handled : {W A : Type 0} → Answer A × W → (Failure → Action W A) → Answer A × W
handled (returned a, w) f = (returned a, w)
handled (raised e, w) f = f e w

-- `try: m` with `except BaseException as e: f(e)`
unfoldable pub on_failure : {W A : Type 0} → Action W A → (Failure → Action W A) → Action W A
on_failure m f w = handled (m w) f

-- `try: m` with `finally: last`
abbrev pub finally : {W A : Type 0} → Action W A → Action W (Unit {0}) → Action W A
finally m last = on_failure m (λ e. last >> raise e) >>= λ a. last >> return a

abbrev pub unless_engine : {W : Type 0} → Failure → Action W (Unit {0})
unless_engine (engine e) = return tt
unless_engine (conflict m) = raise (conflict m)
unless_engine (failed e) = raise (failed e)

-- `contextlib.suppress(duckdb.Error)`
abbrev pub suppress : {W : Type 0} → Action W (Unit {0}) → Action W (Unit {0})
suppress m = on_failure m unless_engine

-- What is used of a `DuckDBPyConnection` over tables `T`, with the name that the next view gets.
pub record Connection (W T : Type 0) : Type 0 where
  pub execute : Text → Action W (Unit {0})
  pub execute_with : Text → List String → Action W (Unit {0})
  pub fetch_tables : Action W (List (String × String))
  pub fetch_columns : Action W (List (String × String × String × Bool))
  pub to_arrow : Action W T
  pub register : String → T → Action W (Unit {0})
  pub unregister : String → Action W (Unit {0})
  pub close : Action W (Unit {0})
  pub hex : W → String
  -- Whether a class of errors is constructed from a message alone.
  pub from_message : String → Bool

abbrev pub begin : Text
begin = codes "BEGIN"

abbrev pub begin_read_only : Text
begin_read_only = codes "BEGIN TRANSACTION READ ONLY"

abbrev pub commit : Text
commit = codes "COMMIT"

abbrev pub rollback_text : Text
rollback_text = codes "ROLLBACK"

-- `from_message` says whether a class of errors is constructed from a message alone.
module _ (from_message : String → Bool) (secrets : List Text) where
  abbrev rebuilt : EngineError → Text → Failure
  rebuilt e message =
      engine
        (record { class = if from_message e.class then e.class else "Error"; message = message })

  -- `_translate`
  unfoldable pub translate : Bool → EngineError → Failure
  translate conflicts e =
      let message = redacted secrets e.message in
      if conflicts && (e.class == "TransactionException")
      then conflict message
      else rebuilt e message

module _ {W T : Type 0} (con : Connection W T) (secrets : List Text) where
  abbrev pub translated : Bool → Failure → Failure
  translated conflicts (engine e) = translate con.from_message secrets conflicts e
  translated conflicts (conflict m) = conflict m
  translated conflicts (failed e) = failed e

  -- `_guarded`
  abbrev pub guarded : {A : Type 0} → Bool → Action W A → Action W A
  guarded conflicts m = on_failure m (λ e. raise (translated conflicts e))

  -- `_run`
  unfoldable pub run : Text → Action W (Unit {0})
  unfolding translate
  run sql = guarded true (con.execute sql)

  unfoldable pub run_with : Text → List String → Action W (Unit {0})
  unfolding translate
  run_with sql parameters = guarded true (con.execute_with sql parameters)

  -- `_rollback`
  unfoldable pub rollback : Action W (Unit {0})
  rollback = suppress (con.execute rollback_text)

  -- The body of a `with` on `transaction()`.
  unfoldable pub transaction : {A : Type 0} → Action W A → Action W A
  unfolding run rollback
  transaction body =
      run begin >> (on_failure body (λ e. rollback >> raise e) >>= λ a. run commit >> return a)
