-- ===== src/Duckdb/Warehouse/Guards.antt =====
-- What the DuckDB warehouse checks before its first statement.
use continuo_python_runtime.Base.{
  ℕ, String, ◌≡◌, refl, ◌⊎◌, inl, inr, some, List, Exception, Result, ok, err,
}
use continuo_python_runtime.Base.Sorting.{Text}
use continuo_python_runtime.Contract.Value.{Value, Heap}
use continuo_python_runtime.Contract.Sql.{SqlParser, ensure_single_read}
use continuo_python_runtime.Engine.{Arrow}
use continuo_python_runtime.Duckdb.Domain.{ColumnDefinition, column_definitions, column_types}
use continuo_python_runtime.Duckdb.Layout.{TableLayout, from_config}
use continuo_python_runtime.Duckdb.Layout.Laws.{IsLayout, from_config-IsLayout}
use continuo_python_runtime.Duckdb.Session.{failed, raised, Action, Connection, ◌>>=◌, lift}
use continuo_python_runtime.Duckdb.Warehouse.{
  build_empty_from_sql, check_binds, build_empty_from_columns, ensure_table,
}

-- Either a check raises before anything is done on the connection, or what it checks holds.
abbrev pub Guarded : {W A : Type 0} → Action W A → Type 0 → Type 0
Guarded {W} op P = (w : W) → ((e : Exception) × (op w ≡ (raised (failed e), w))) ⊎ P

lift-Guarded :
    {W A B : Type 0} (r : Result A) (f : A → Action W B) (P : Type 0)
    → ((a : A) → r ≡ ok a → Guarded (f a) P)
    → Guarded (lift r >>= f) P
unfolding ◌>>=◌
lift-Guarded (ok a) f P h w = h a refl w
lift-Guarded (err e) f P h w = inl (e, refl)

-- A table that may be created: its columns are valid and its layout fits them.
pub record IsCreatable (lower : String → String) (h : Heap) (raw : List Value) (config : Value)
    : Type 0 where
  pub defs : List ColumnDefinition
  pub layout : TableLayout
  pub columns : column_definitions h raw ≡ ok defs
  pub laid_out : from_config lower h (column_types defs) config ≡ ok layout
  pub fits : IsLayout (column_types defs) layout

module _ {W T : Type 0} (con : Connection W T) (secrets : List Text) (arrow : Arrow T)
    (sqlglot : SqlParser) (lower : String → String) (h : Heap) (sleep : ℕ → W → W) where
  pub record AreGuarded : Type 0 where
    pub builds_from_sql :
        (schema table sql : String)
        → Guarded
            (build_empty_from_sql con secrets arrow sqlglot schema table sql)
            (ensure_single_read sqlglot sql (some "duckdb") ≡ ok tt)
    pub checks_binds :
        (sql : String)
        → Guarded
            (check_binds con secrets arrow sqlglot sql)
            (ensure_single_read sqlglot sql (some "duckdb") ≡ ok tt)
    pub builds_from_columns :
        (schema table : String) (raw : List Value) (config : Value)
        → Guarded
            (build_empty_from_columns con secrets arrow lower h schema table raw config)
            (IsCreatable lower h raw config)
    pub ensures :
        (schema table : String) (raw : List Value) (config : Value)
        → Guarded
            (ensure_table con secrets arrow lower h sleep schema table raw config)
            (IsCreatable lower h raw config)

  gated :
      (sql : String) (f : Unit {0} → Action W (Unit {0}))
      → Guarded
          (lift (ensure_single_read sqlglot sql (some "duckdb")) >>= f)
          (ensure_single_read sqlglot sql (some "duckdb") ≡ ok tt)
  gated sql f =
      lift-Guarded (ensure_single_read sqlglot sql (some "duckdb")) f
        (ensure_single_read sqlglot sql (some "duckdb") ≡ ok tt) (λ u is w. inr is)

  creatable :
      (raw : List Value) (config : Value)
      (f : List ColumnDefinition → TableLayout → Action W (Unit {0}))
      → Guarded
          (lift (column_definitions h raw) >>= λ defs.
            lift (from_config lower h (column_types defs) config) >>= λ layout. f defs layout)
          (IsCreatable lower h raw config)
  creatable raw config f = lift-Guarded (column_definitions h raw) _ _ (λ defs columns.
      lift-Guarded (from_config lower h (column_types defs) config) _ _ (λ layout laid_out w.
        inr (record {
          defs = defs;
          layout = layout;
          columns = columns;
          laid_out = laid_out;
          fits = from_config-IsLayout h (column_types defs) lower config layout laid_out;
        })))

  -- A table built from a read and a bind check either raise before the connection is used, or
  -- their text passed the single-read gate; a table built or ensured from columns either raises
  -- before the connection is used, or its columns are valid and its layout fits them.
  pub statements-AreGuarded : AreGuarded
  unfolding build_empty_from_sql check_binds build_empty_from_columns ensure_table
  statements-AreGuarded = record {
    builds_from_sql = λ schema table sql. gated sql _;
    checks_binds = λ sql. gated sql _;
    builds_from_columns = λ schema table raw config. creatable raw config _;
    ensures = λ schema table raw config. creatable raw config _;
  }
