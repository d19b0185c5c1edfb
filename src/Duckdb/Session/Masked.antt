-- ===== src/Duckdb/Session/Masked.antt =====
-- What leaves the operations of `DuckLakeSession` when DuckDB raises.
use continuo_python_runtime.Base.{
  String, ◌<>◌, ◌==◌, ◌&&◌, ◌≡◌, Bool, true, false, Bool-cases, List, All, is_empty, Result, ok,
  err, inl, inr,
}
use continuo_python_runtime.Base.Sorting.{Text}
use continuo_python_runtime.Engine.{Target}
use continuo_python_runtime.Duckdb.Layout.{TableLayout}
use continuo_python_runtime.Duckdb.Ddl.Tables.{insert_select, merge_from, explain_read}
use continuo_python_runtime.Duckdb.Session.{
  Failure, conflict, engine, failed, Answer, returned, raised, Action, Connection, ◌>>=◌, ◌>>◌,
  return, raise, lift, on_failure, suppress, unless_engine, guarded, translated, run, run_with,
  rollback, rollback_text, transaction, begin, commit, begin_read_only, translate,
}
use continuo_python_runtime.Duckdb.Session.Raising.{
  Only, Raises, bind-Raises, on_failure-Raises, finally-Raises,
}
use continuo_python_runtime.Duckdb.Session.Masking.{Lacks, redacted_all}
use continuo_python_runtime.Duckdb.Session.Gateway.{
  statement, table_exists, columns, apply_layout, unless_empty, bind_checked, fetch_arrow,
  insert_arrow, merge_arrow, with_view, catalog_alias,
}

abbrev pub is_conflict : Failure → Bool
is_conflict (conflict m) = true
is_conflict (engine e) = false
is_conflict (failed e) = false

abbrev pub FromDriver : Failure → Type 0
FromDriver e = is_conflict e ≡ false

-- What is relied on of duckdb: the adapter's own conflict error is none of its exceptions.
pub record IsDriver {W T : Type 0} (con : Connection W T) : Type 0 where
  pub executes : (sql : Text) → Raises FromDriver (con.execute sql)
  pub executes_with :
      (sql : Text) (parameters : List String) → Raises FromDriver (con.execute_with sql parameters)
  pub fetches_tables : Raises FromDriver con.fetch_tables
  pub fetches_columns : Raises FromDriver con.fetch_columns
  pub to_arrow : Raises FromDriver con.to_arrow
  pub registers : (view : String) (rows : T) → Raises FromDriver (con.register view rows)
  pub unregisters : (view : String) → Raises FromDriver (con.unregister view)

-- The message of a DuckDB error, or of a conflict, holds no secret that can be masked.
abbrev pub IsMasked : List Text → Failure → Type 0
IsMasked secrets (conflict message) = All (Lacks message) secrets
IsMasked secrets (engine e) = All (Lacks e.message) secrets
IsMasked secrets (failed e) = Unit

module _ {W T : Type 0} (con : Connection W T) (secrets : List Text) (names : T → List String)
    (driver : IsDriver con) where
  -- A conflict is masked; a DuckDB error need not be.
  abbrev Calm : Failure → Type 0
  Calm (conflict message) = All (Lacks message) secrets
  Calm (engine e) = Unit
  Calm (failed e) = Unit

  Masked-Calm : (e : Failure) → IsMasked secrets e → Calm e
  Masked-Calm (conflict m) h = h
  Masked-Calm (engine e) h = tt
  Masked-Calm (failed e) h = tt

  driver-Calm : (e : Failure) → FromDriver e → Calm e
  driver-Calm (conflict m) h = cc
  driver-Calm (engine e) h = tt
  driver-Calm (failed e) h = tt

  weaken-Only :
      {A : Type 0} {P Q : Failure → Type 0} (r : Answer A)
      → ((e : Failure) → P e → Q e)
      → Only P r
      → Only Q r
  weaken-Only (returned a) f h = tt
  weaken-Only (raised e) f h = f e h

  calm : {A : Type 0} (m : Action W A) → Raises FromDriver m → Raises Calm m
  calm m h w = weaken-Only (m w).0 driver-Calm (h w)

  translated-IsMasked :
      (conflicts : Bool) (e : Failure)
      → Calm e
      → IsMasked secrets (translated con secrets conflicts e)
  unfolding translate
  translated-IsMasked conflicts (conflict m) h = h
  translated-IsMasked conflicts (failed e) h = tt
  translated-IsMasked conflicts (engine e) h =
      elim (Bool-cases (conflicts && (e.class == "TransactionException"))) [
        | inl lost ↦ rw lost (redacted_all secrets e.message)
        | inr other ↦ rw other (redacted_all secrets e.message)
      ]

  guarded-Masks :
      {A : Type 0} (conflicts : Bool) (m : Action W A)
      → Raises Calm m
      → Raises (IsMasked secrets) (guarded con secrets conflicts m)
  guarded-Masks conflicts m h =
      on_failure-Raises Calm (IsMasked secrets) m (λ e. raise (translated con secrets conflicts e))
        h (λ e c w. translated-IsMasked conflicts e c)

  run-Masks : (sql : Text) → Raises (IsMasked secrets) (run con secrets sql)
  unfolding run
  run-Masks sql =
      guarded-Masks true (con.execute sql) (calm (con.execute sql) (driver.executes sql))

  run_with-Masks :
      (sql : Text) (parameters : List String)
      → Raises (IsMasked secrets) (run_with con secrets sql parameters)
  unfolding run_with
  run_with-Masks sql parameters =
      guarded-Masks true (con.execute_with sql parameters)
        (calm (con.execute_with sql parameters) (driver.executes_with sql parameters))

  -- `contextlib.suppress` of what the driver raises.
  suppress-Masks :
      (m : Action W (Unit {0})) → Raises FromDriver m → Raises (IsMasked secrets) (suppress m)
  suppress-Masks m h = on_failure-Raises FromDriver (IsMasked secrets) m unless_engine h left
    where
      left : (e : Failure) → FromDriver e → Raises (IsMasked secrets) (unless_engine {W = W} e)
      left (conflict m) h w = cc
      left (engine e) h w = tt
      left (failed e) h w = tt

  rollback-Masks : Raises (IsMasked secrets) (rollback con secrets)
  unfolding rollback
  rollback-Masks = suppress-Masks (con.execute rollback_text) (driver.executes rollback_text)

  then_fetched :
      {A : Type 0} (conflicts : Bool) (m : Action W (Unit {0})) (fetch : Action W A)
      → Raises Calm m
      → Raises FromDriver fetch
      → Raises (IsMasked secrets) (guarded con secrets conflicts (m >> fetch))
  then_fetched conflicts m fetch h k =
      guarded-Masks conflicts (m >> fetch) (bind-Raises Calm m (λ _. fetch) h (λ _. calm fetch k))

  queried :
      (sql : Text) (parameters : List String) → Raises Calm (run_with con secrets sql parameters)
  queried sql parameters w =
      weaken-Only (run_with con secrets sql parameters w).0 Masked-Calm
        (run_with-Masks sql parameters w)

  with_view-Masks :
      (prefix : String) (rows : T) (step : String → Action W (Unit {0}))
      → ((view : String) → Raises (IsMasked secrets) (step view))
      → Raises (IsMasked secrets) (with_view con secrets names prefix rows step)
  with_view-Masks prefix rows step h w =
      let view = prefix <> con.hex w in
      bind-Raises (IsMasked secrets) (guarded con secrets true (con.register view rows)) _
        (guarded-Masks true (con.register view rows)
          (calm (con.register view rows) (driver.registers view rows)))
        (λ _.
          finally-Raises (IsMasked secrets) (step view) (suppress (con.unregister view)) (h view)
            (suppress-Masks (con.unregister view) (driver.unregisters view)))
        w

  lift-Masks :
      {A B : Type 0} (r : Result A) (f : A → Action W B)
      → ((a : A) → Raises (IsMasked secrets) (f a))
      → Raises (IsMasked secrets) (lift r >>= f)
  lift-Masks {A} r f h = bind-Raises (IsMasked secrets) (lift r) f (only r) h
    where
      only : (r : Result A) → Raises (IsMasked secrets) (lift {W = W} r)
      only (ok a) w = tt
      only (err e) w = tt

  unless_empty-Masks :
      (b : Bool) (sql : Text) → Raises (IsMasked secrets) (unless_empty con secrets names b sql)
  unless_empty-Masks true sql w = tt
  unless_empty-Masks false sql w = run-Masks sql w

  transaction-Masks :
      {A : Type 0} (body : Action W A)
      → Raises (IsMasked secrets) body
      → Raises (IsMasked secrets) (transaction con secrets body)
  unfolding transaction
  transaction-Masks body h =
      bind-Raises (IsMasked secrets) (run con secrets begin) _ (run-Masks begin) (λ _.
        bind-Raises (IsMasked secrets) (on_failure body (λ e. rollback con secrets >> raise e))
          (λ a. run con secrets commit >> return a)
          (on_failure-Raises (IsMasked secrets) (IsMasked secrets) body _ h (λ e p.
            bind-Raises (IsMasked secrets) (rollback con secrets) (λ _. raise e) rollback-Masks
              (λ _ w. p)))
          (λ a.
            bind-Raises (IsMasked secrets) (run con secrets commit) (λ _. return a)
              (run-Masks commit) (λ _ w. tt)))

  insert-Masks :
      (table : Target) (rows : T)
      → Raises (IsMasked secrets) (insert_arrow con secrets names table rows)
  unfolding insert_arrow
  insert-Masks table rows =
      with_view-Masks "__continuo_load_" rows
        (λ view. statement con secrets names (insert_select catalog_alias table (names rows) view))
        (λ view. run-Masks (insert_select catalog_alias table (names rows) view))

  -- No operation of the session raises a DuckDB error or a conflict that is not masked.
  pub record AreMasked : Type 0 where
    pub statements : (sql : Text) → Raises (IsMasked secrets) (statement con secrets names sql)
    pub queries :
        (sql : Text) (parameters : List String)
        → Raises (IsMasked secrets) (run_with con secrets sql parameters)
    pub rolls_back : Raises (IsMasked secrets) (rollback con secrets)
    pub looks_up :
        (table : Target) → Raises (IsMasked secrets) (table_exists con secrets names table)
    pub inspects : (table : Target) → Raises (IsMasked secrets) (columns con secrets names table)
    pub lays_out :
        (table : Target) (layout : TableLayout)
        → Raises (IsMasked secrets) (apply_layout con secrets names table layout)
    pub explains : (sql : Text) → Raises (IsMasked secrets) (bind_checked con secrets names sql)
    pub fetches : (sql : Text) → Raises (IsMasked secrets) (fetch_arrow con secrets names sql)
    pub inserts :
        (table : Target) (rows : T)
        → Raises (IsMasked secrets) (insert_arrow con secrets names table rows)
    pub merges :
        (table : Target) (rows : T) (key : List String)
        → Raises (IsMasked secrets) (merge_arrow con secrets names table rows key)
    pub transacts :
        (table : Target) (rows : T)
        → Raises
            (IsMasked secrets)
            (transaction con secrets (insert_arrow con secrets names table rows))

  -- If a statement, a query, a rollback, a look-up, the listing of columns, a layout, a bind
  -- check, a fetch, an insert, a merge or an insert in a transaction raises a DuckDB error or a
  -- conflict, its message holds none of the session's secrets that have at least one character and
  -- no asterisk, whatever messages DuckDB raises, given that it does not raise the adapter's own
  -- conflict error.
  pub operations-AreMasked : AreMasked
  unfolding table_exists columns apply_layout bind_checked fetch_arrow merge_arrow
  operations-AreMasked = record {
    statements = run-Masks;
    queries = run_with-Masks;
    rolls_back = rollback-Masks;
    looks_up = λ table.
        bind-Raises (IsMasked secrets) _ _
          (then_fetched true _ con.fetch_tables (queried _ _) driver.fetches_tables) (λ rows w. tt);
    inspects = λ table.
        bind-Raises (IsMasked secrets) _ _
          (then_fetched true _ con.fetch_columns (queried _ _) driver.fetches_columns)
          (λ rows w. tt);
    lays_out = λ table layout.
        bind-Raises (IsMasked secrets) _ _ (unless_empty-Masks (is_empty layout.partition_keys) _)
          (λ _. unless_empty-Masks (is_empty layout.sort_keys) _);
    explains = λ sql.
        bind-Raises (IsMasked secrets) _ _ (run-Masks begin_read_only) (λ _.
          finally-Raises (IsMasked secrets) _ _ (run-Masks (explain_read sql)) rollback-Masks);
    fetches = λ sql.
        then_fetched false (con.execute sql) con.to_arrow
          (calm (con.execute sql) (driver.executes sql)) driver.to_arrow;
    inserts = insert-Masks;
    merges = λ table rows key.
        with_view-Masks "__continuo_merge_" rows
          (λ view.
            lift (merge_from catalog_alias table (names rows) key view)
            >>= statement con secrets names)
          (λ view.
            lift-Masks (merge_from catalog_alias table (names rows) key view)
              (statement con secrets names) run-Masks);
    transacts = λ table rows.
        transaction-Masks (insert_arrow con secrets names table rows) (insert-Masks table rows);
  }
