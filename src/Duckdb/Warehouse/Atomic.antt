-- ===== src/Duckdb/Warehouse/Atomic.antt =====
-- The writes of the DuckDB warehouse take effect as a whole or not at all.
use continuo_python_runtime.Base.{
  String, ◌≡◌, refl, Bool, true, false, List, ◌<>◌, Result, if◌then◌else◌, ok, err,
}
use continuo_python_runtime.Base.Sorting.{Text}
use continuo_python_runtime.Contract.Value.{Value, Heap}
use continuo_python_runtime.Contract.Sql.{SqlParser}
use continuo_python_runtime.Engine.{Arrow, Target}
use continuo_python_runtime.Duckdb.Domain.{ColumnDefinition, column_definitions, column_types}
use continuo_python_runtime.Duckdb.Layout.{TableLayout, is_empty_layout, from_config}
use continuo_python_runtime.Duckdb.Ddl.Tables.{drop_table_if_exists, insert_select, merge_from}
use continuo_python_runtime.Duckdb.Session.{
  Action, Connection, ◌>>=◌, ◌>>◌, return, lift, run, transaction,
}
use continuo_python_runtime.Duckdb.Session.Gateway.{
  catalog_alias, table_exists, apply_layout, unless_empty, with_view, insert_arrow, merge_arrow,
}
use continuo_python_runtime.Duckdb.Session.Transactions.{
  IsTransactional, Stays, IsAtomic, bind-Stays, suppress-Stays, finally-Stays, guarded-Stays,
  run-Stays, run_with-Stays, transaction-IsAtomic, bind_lift-IsAtomic,
}
use continuo_python_runtime.Duckdb.Warehouse.Statements.{
  IsStatement, drops, deletes, creates, creates_as, clones, partitions, sorts, inserts, merges,
}
use continuo_python_runtime.Duckdb.Warehouse.{
  build_empty_from_sql, clone_empty_from_prod, build_empty_from_columns, load, append, upsert_rows,
  create_if_absent, created,
}

module _ {W T D : Type 0} (con : Connection W T) (secrets : List Text) (sqlglot : SqlParser)
    (lower : String → String) (h : Heap) (committed : W → D) (Open : D → W → Type 0)
    (Idle : W → Type 0)
    (documented : IsTransactional W T D con (IsStatement sqlglot lower h) committed Open Idle) where
  abbrev Rendered : Text → Type 0
  Rendered = IsStatement sqlglot lower h

  abbrev runs : {sql : Text} → Rendered sql → Stays Open (run con secrets sql)
  runs {sql} is = run-Stays con secrets Rendered committed Open Idle documented sql is

  lifted-Stays :
      (r : Result Text)
      → ((sql : Text) → r ≡ ok sql → Rendered sql)
      → Stays Open (lift r >>= run con secrets)
  unfolding ◌>>=◌
  lifted-Stays (ok sql) h d w o = runs (h sql refl) d w o
  lifted-Stays (err e) h d w o = o

  transaction_of :
      {A : Type 0} (body : Action W A)
      → Stays Open body
      → IsAtomic con secrets Rendered committed Open Idle documented (transaction con secrets body)
  transaction_of = transaction-IsAtomic con secrets Rendered committed Open Idle documented

  module _ (names : T → List String) where
    unless_empty-Stays :
        (b : Bool) (sql : Text) → Rendered sql → Stays Open (unless_empty con secrets names b sql)
    unless_empty-Stays true sql h d w o = o
    unless_empty-Stays false sql h d w o = runs h d w o

    apply_layout-Stays :
        (t : Target) (defs : List ColumnDefinition) (config : Value) (layout : TableLayout)
        → from_config lower h (column_types defs) config ≡ ok layout
        → Stays Open (apply_layout con secrets names t layout)
    unfolding apply_layout
    apply_layout-Stays t defs config layout e =
        bind-Stays Open _ _ (unless_empty-Stays _ _ (partitions t defs config layout e))
          (λ u. unless_empty-Stays _ _ (sorts t defs config layout e))

    with_view-Stays :
        (prefix : String) (rows : T) (step : String → Action W (Unit {0}))
        → ((view : String) → Stays Open (step view))
        → Stays Open (with_view con secrets names prefix rows step)
    with_view-Stays prefix rows step h d w o =
        let view = prefix <> con.hex w in
        bind-Stays Open _ _
          (guarded-Stays con secrets Rendered committed Open Idle documented true
            (con.register view rows) (λ d w o. documented.registers d w view rows o))
          (λ u. finally-Stays Open (step view) _ (h view) (
            suppress-Stays Open (con.unregister view) (λ d w o. documented.unregisters d w view o)))
          d w o

    insert_arrow-Stays :
        (t : Target) (rows : T) → Stays Open (insert_arrow con secrets names t rows)
    unfolding insert_arrow
    insert_arrow-Stays t rows =
        with_view-Stays _ rows
          (λ view. run con secrets (insert_select catalog_alias t (names rows) view))
          (λ view. runs (inserts t (names rows) view))

    merge_arrow-Stays :
        (t : Target) (rows : T) (key : List String)
        → Stays Open (merge_arrow con secrets names t rows key)
    unfolding merge_arrow
    merge_arrow-Stays t rows key =
        with_view-Stays _ rows
          (λ view. lift (merge_from catalog_alias t (names rows) key view) >>= run con secrets)
          (λ view. lifted-Stays _ (λ sql e. merges t (names rows) key view sql e))

    table_exists-Stays : (t : Target) → Stays Open (table_exists con secrets names t)
    unfolding table_exists
    table_exists-Stays (schema, table) =
        bind-Stays Open _ _
          (guarded-Stays con secrets Rendered committed Open Idle documented true _ (
            bind-Stays Open _ _
              (run_with-Stays con secrets Rendered committed Open Idle documented _)
              (λ u d w o. documented.fetches d w o)))
          (λ rows d w o. o)

  module _ (arrow : Arrow T) where
    -- The columns and the layout of a table that were read of raw columns and of a config.
    pub record AreRead (raw : List Value) (config : Value) (defs : List ColumnDefinition)
        (layout : TableLayout) : Type 0 where
      pub columns : column_definitions h raw ≡ ok defs
      pub laid_out : from_config lower h (column_types defs) config ≡ ok layout

    created-Stays :
        (t : Target) (raw : List Value) (config : Value) (defs : List ColumnDefinition)
        (layout : TableLayout)
        → AreRead raw config defs layout
        → Stays Open (created con secrets arrow t defs layout)
    created-Stays t raw config defs layout r =
        bind-Stays Open _ _ (runs (creates t raw defs r.columns))
          (λ u. applied (is_empty_layout layout))
      where
        applied :
            (b : Bool)
            → Stays Open
                (if b then return tt else apply_layout con secrets arrow.column_names t layout)
        applied true d w o = o
        applied false d w o =
            apply_layout-Stays arrow.column_names t defs config layout r.laid_out d w o

    filled-Stays :
        (b : Bool) (m : Action W (Unit {0}))
        → Stays Open m
        → Stays Open (if b then return tt else m)
    filled-Stays true m h d w o = o
    filled-Stays false m h d w o = h d w o

    filled-IsAtomic :
        (b : Bool) (m : Action W (Unit {0}))
        → IsAtomic con secrets Rendered committed Open Idle documented m
        → IsAtomic con secrets Rendered committed Open Idle documented (if b then return tt else m)
    filled-IsAtomic true m h w i = (i, λ e k. refl)
    filled-IsAtomic false m h w i = h w i

    abbrev Atomic : Action W (Unit {0}) → Type 0
    Atomic = IsAtomic con secrets Rendered committed Open Idle documented

    -- The writes of the warehouse.
    pub record AreAtomic : Type 0 where
      pub builds_from_sql :
          (schema table sql : String)
          → Atomic (build_empty_from_sql con secrets arrow sqlglot schema table sql)
      pub clones :
          (candidate prod table : String)
          → Atomic (clone_empty_from_prod con secrets arrow candidate prod table)
      pub builds_from_columns :
          (schema table : String) (raw : List Value) (config : Value)
          → Atomic (build_empty_from_columns con secrets arrow lower h schema table raw config)
      pub creates :
          (t : Target) (raw : List Value) (config : Value) (defs : List ColumnDefinition)
          (layout : TableLayout)
          → AreRead raw config defs layout
          → Atomic (create_if_absent con secrets arrow t defs layout)
      pub loads :
          (schema table : String) (rows : T) → Atomic (load con secrets arrow schema table rows)
      pub appends :
          (schema table : String) (rows : T) → Atomic (append con secrets arrow schema table rows)
      pub upserts :
          (schema table : String) (rows : T) (key : List String)
          → Atomic (upsert_rows con secrets arrow schema table rows key)

    lifted :
        {A : Type 0} (r : Result A) (f : A → Action W (Unit {0}))
        → ((a : A) → r ≡ ok a → Atomic (f a))
        → Atomic (lift r >>= f)
    lifted = bind_lift-IsAtomic con secrets Rendered committed Open Idle documented

    dropped_first :
        (t : Target) (m : Action W (Unit {0}))
        → Stays Open m
        → Atomic
            (transaction con secrets (run con secrets (drop_table_if_exists catalog_alias t) >> m))
    dropped_first t m g = transaction_of _ (bind-Stays Open _ _ (runs (drops t)) (λ u. g))

    -- On a connection of which the statements that the warehouse renders (of quoted names, of
    -- columns and a layout that were validated, and of a read that passed the single-read gate)
    -- leave an open transaction open, and BEGIN, COMMIT and ROLLBACK behave as DuckDB documents,
    -- each write of the warehouse (an empty table from a read, a production table or columns, the
    -- creation of an absent table of columns and a layout that were validated, load, append and
    -- upsert) leaves no transaction behind where there was none before, and if it raises, what the
    -- connection has committed is as it was, whatever raised in between, the rollback included.
    pub writes-AreAtomic : AreAtomic
    unfolding build_empty_from_sql clone_empty_from_prod build_empty_from_columns create_if_absent
        load append upsert_rows
    writes-AreAtomic = record {
      builds_from_sql = λ schema table sql.
          lifted _ _
            (λ u gate. lifted _ _ (λ t _. dropped_first t _ (runs (creates_as t sql gate))));
      clones = λ candidate prod table.
          lifted _ _ (λ t _. lifted _ _ (λ source _. dropped_first t _ (runs (clones t source))));
      builds_from_columns = λ schema table raw config. lifted _ _ (λ defs valid.
          lifted _ _ (λ layout fits. lifted _ _ (λ t _. dropped_first t _ (
            created-Stays t raw config defs layout
              (record { columns = valid; laid_out = fits })))));
      creates = λ t raw config defs layout r. transaction_of _ (
          bind-Stays Open _ _ (table_exists-Stays arrow.column_names t)
            (λ exists. filled-Stays exists _ (created-Stays t raw config defs layout r)));
      loads = λ schema table rows. lifted _ _ (λ t _. transaction_of _ (
          bind-Stays Open _ _ (runs (deletes t))
            (λ u. filled-Stays _ _ (insert_arrow-Stays arrow.column_names t rows))));
      appends = λ schema table rows.
          filled-IsAtomic _ _
            (lifted _ _ (λ t _. transaction_of _ (insert_arrow-Stays arrow.column_names t rows)));
      upserts = λ schema table rows key.
          filled-IsAtomic _ _ (
            lifted _ _ (λ t _. transaction_of _ (merge_arrow-Stays arrow.column_names t rows key)));
    }
